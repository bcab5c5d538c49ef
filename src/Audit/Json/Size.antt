-- ===== src/Audit/Json/Size.antt =====
-- How long the canonical text is, and what a trip through `JSON.stringify` and `JSON.parse` does to
-- it: a field whose value is `undefined` is printed as null by `canonical`, and is lost in JSON.
use task.Prelude.{
  ℕ, ◌+◌, ◌-◌, ◌≤◌, ◌<◌, ◌≡◌, refl, ◌∙◌, ap, List, [], ◌∷◌, ◌++◌, arith, length, length-append, inl,
  inr, Bool-cases,
}
use task.Prelude.Text.{Text, codes, join, text_eq}
use task.Prelude.Sorting.{insert, sort}
use task.Audit.Json.{
  Json, Items, Fields, undefined, null, bool, num, str, arr, obj, nil, cons, end, field, key_le,
  stringify, print_entry, print_entries, print_object, canonical, canonical_items, canonical_fields,
  without,
}

-- `JSON.parse(JSON.stringify(v))`
unfoldable mutual
  pub reparse : Json → Json
  reparse undefined = null
  reparse null = null
  reparse (bool b) = bool b
  reparse (num n) = num n
  reparse (str s) = str s
  reparse (arr xs) = arr (reparse_items xs)
  reparse (obj fs) = obj (reparse_fields fs)

  pub reparse_items : Items → Items
  reparse_items nil = nil
  reparse_items (cons x xs) = cons (reparse x) (reparse_items xs)

  pub reparse_fields : Fields → Fields
  reparse_fields end = end
  reparse_fields (field k undefined fs) = reparse_fields fs
  reparse_fields (field k v fs) = field k (reparse v) (reparse_fields fs)

-- Some field of the object itself is `undefined`.
abbrev pub HasUndefined : Fields → Type 0
HasUndefined end = ⊥
HasUndefined (field k undefined fs) = Unit
HasUndefined (field k _ fs) = HasUndefined fs

-- The length of some texts, each with a separator.
total : List Text → ℕ
total [] = 0
total (t ∷ ts) = length t + 1 + total ts

length-join : (ts : List Text) → length (join (codes ",") ts) ≡ total ts - 1
unfolding join total
length-join [] = refl
length-join (t ∷ []) = omega arith
length-join (t ∷ u ∷ ts) = length-append t _ ∙ omega (arith, length-join (u ∷ ts))

total-insert :
    (e : Text × Text) (es : List (Text × Text))
    → total (print_entries (insert key_le e es))
      ≡ length (print_entry e) + 1 + total (print_entries es)
unfolding insert total
total-insert e [] = refl
total-insert e (d ∷ es) = elim (Bool-cases (key_le e d)) [
  | inl h ↦ rw h
  | inr h ↦ rw h (omega (arith, total-insert e es))
]

total-sort :
    (es : List (Text × Text)) → total (print_entries (sort key_le es)) ≡ total (print_entries es)
unfolding sort total
total-sort [] = refl
total-sort (e ∷ es) = total-insert e (sort key_le es) ∙ omega (arith, total-sort es)

pub weight : Fields → ℕ
unfolding total
weight fs = total (print_entries (canonical_fields fs))

items_weight : Items → ℕ
items_weight xs = total (canonical_items xs)

length-print_object :
    (es : List (Text × Text)) → length (print_object es) ≡ total (print_entries es) - 1 + 2
unfolding print_object
length-print_object es = omega (
  arith,
  length-append (join (codes ",") (print_entries (sort key_le es))) (codes "}"),
  length-join (print_entries (sort key_le es)),
  total-sort es,
)

pub length-canonical-obj : (fs : Fields) → length (canonical (obj fs)) ≡ weight fs - 1 + 2
unfolding canonical weight
length-canonical-obj fs = length-print_object (canonical_fields fs)

length-canonical-arr : (xs : Items) → length (canonical (arr xs)) ≡ items_weight xs - 1 + 2
unfolding canonical items_weight
length-canonical-arr xs = omega (
  arith,
  length-append (join (codes ",") (canonical_items xs)) (codes "]"),
  length-join (canonical_items xs),
)

pub weight-field :
    (k : Text) (v : Json) (fs : Fields)
    → weight (field k v fs) ≡ length (stringify k) + length (canonical v) + 2 + weight fs
unfolding weight total canonical
weight-field k v fs = omega (arith, length-append (stringify k) (codes ":" ++ canonical v))

items_weight-cons :
    (x : Json) (xs : Items) → items_weight (cons x xs) ≡ length (canonical x) + 1 + items_weight xs
unfolding items_weight total canonical
items_weight-cons x xs = refl

-- A field that JSON keeps is no larger after the trip than before.
kept_field :
    (k : Text) (v : Json) (fs gs : Fields)
    → length (canonical (reparse v)) ≤ length (canonical v)
    → weight gs ≤ weight fs
    → weight (field k (reparse v) gs) ≤ weight (field k v fs)
kept_field k v fs gs h g = omega (arith, weight-field k (reparse v) gs, weight-field k v fs)

canonical-undefined : canonical undefined ≡ canonical null
unfolding canonical
canonical-undefined = refl

mutual
  unfolding reparse

  shrink : (v : Json) → length (canonical (reparse v)) ≤ length (canonical v)
  shrink undefined = omega (arith, ap length canonical-undefined)
  shrink null = omega arith
  shrink (bool b) = omega arith
  shrink (num n) = omega arith
  shrink (str s) = omega arith
  shrink (arr xs) =
      omega
        (arith, length-canonical-arr xs, length-canonical-arr (reparse_items xs), shrink_items xs)
  shrink (obj fs) =
      omega
        (arith, length-canonical-obj fs, length-canonical-obj (reparse_fields fs), shrink_fields fs)

  shrink_items : (xs : Items) → items_weight (reparse_items xs) ≤ items_weight xs
  shrink_items nil = omega arith
  shrink_items (cons x xs) = omega (
    arith,
    items_weight-cons x xs,
    items_weight-cons (reparse x) (reparse_items xs),
    shrink x,
    shrink_items xs,
  )

  shrink_fields : (fs : Fields) → weight (reparse_fields fs) ≤ weight fs
  shrink_fields end = omega arith
  shrink_fields (field k undefined fs) =
      omega (arith, weight-field k undefined fs, shrink_fields fs)
  shrink_fields (field k null fs) = kept_field k null fs _ (shrink null) (shrink_fields fs)
  shrink_fields (field k (bool b) fs) =
      kept_field k (bool b) fs _ (shrink (bool b)) (shrink_fields fs)
  shrink_fields (field k (num n) fs) = kept_field k (num n) fs _ (shrink (num n)) (shrink_fields fs)
  shrink_fields (field k (str s) fs) = kept_field k (str s) fs _ (shrink (str s)) (shrink_fields fs)
  shrink_fields (field k (arr xs) fs) =
      kept_field k (arr xs) fs _ (shrink (arr xs)) (shrink_fields fs)
  shrink_fields (field k (obj gs) fs) =
      kept_field k (obj gs) fs _ (shrink (obj gs)) (shrink_fields fs)

kept_strictly :
    (k : Text) (v : Json) (fs : Fields)
    → weight (reparse_fields fs) < weight fs
    → weight (field k (reparse v) (reparse_fields fs)) < weight (field k v fs)
kept_strictly k v fs h =
    omega (arith, weight-field k (reparse v) (reparse_fields fs), weight-field k v fs, shrink v)

-- The trip loses some of the text where a field is `undefined`.
pub weight-reparse_fields : (fs : Fields) → HasUndefined fs → weight (reparse_fields fs) < weight fs
unfolding reparse
weight-reparse_fields end h = absurd h
weight-reparse_fields (field k undefined fs) h =
    omega (arith, weight-field k undefined fs, shrink_fields fs)
weight-reparse_fields (field k null fs) h = kept_strictly k null fs (weight-reparse_fields fs h)
weight-reparse_fields (field k (bool b) fs) h =
    kept_strictly k (bool b) fs (weight-reparse_fields fs h)
weight-reparse_fields (field k (num n) fs) h =
    kept_strictly k (num n) fs (weight-reparse_fields fs h)
weight-reparse_fields (field k (str s) fs) h =
    kept_strictly k (str s) fs (weight-reparse_fields fs h)
weight-reparse_fields (field k (arr xs) fs) h =
    kept_strictly k (arr xs) fs (weight-reparse_fields fs h)
weight-reparse_fields (field k (obj gs) fs) h =
    kept_strictly k (obj gs) fs (weight-reparse_fields fs h)

pub weight-without : (k : Text) (fs : Fields) → weight (without k fs) ≤ weight fs
unfolding without
weight-without k end = omega arith
weight-without k (field j v fs) = elim (Bool-cases (text_eq j k)) [
  | inl h ↦ rw h (omega (arith, weight-field j v fs, weight-without k fs))
  | inr h ↦
      rw h
        (omega (arith, weight-field j v fs, weight-field j v (without k fs), weight-without k fs))
]
