-- ===== src/Prelude/Sorting.antt =====
-- `Array.prototype.sort` with a comparator, which is stable, and lists that differ in order.
use mathlib.Core.Path.{◌≡◌, refl, ap}
use mathlib.Core.Logic.{◌⊎◌, inl, inr}
use mathlib.Core.Bool.{Bool, true, false}
use mathlib.Core.List.{List, [], ◌∷◌, ◌++◌}
use task.Prelude.Tests.{if◌then◌else◌}

abbrev pub All {ℓ κ} : {A : Type ℓ} → (A → Type κ) → List A → Type κ
All P [] = Unit
All P (x ∷ xs) = P x × All P xs

abbrev pub Any {ℓ} : {A : Type ℓ} → (A → Type 0) → List A → Type 0
Any P [] = ⊥
Any P (x ∷ xs) = P x ⊎ Any P xs

pub All-snoc {ℓ κ} :
    {A : Type ℓ} (P : A → Type κ) (xs : List A) (x : A) → All P xs → P x → All P (xs ++ x ∷ [])
All-snoc P [] x h p = (p, tt)
All-snoc P (y ∷ ys) x h p = (h.0, All-snoc P ys x h.1 p)

pub All-map {ℓ κ μ} :
    {A : Type ℓ} (P : A → Type κ) (Q : A → Type μ) (xs : List A)
    → ((x : A) → P x → Q x)
    → All P xs
    → All Q xs
All-map P Q [] f h = tt
All-map P Q (x ∷ xs) f h = (f x h.0, All-map P Q xs f h.1)

pub Any-snoc {ℓ} :
    {A : Type ℓ} (P : A → Type 0) (xs : List A) (x : A) → Any P xs ⊎ P x → Any P (xs ++ x ∷ [])
Any-snoc P [] x (inl h) = absurd h
Any-snoc P [] x (inr p) = inl p
Any-snoc P (y ∷ ys) x (inl (inl h)) = inl h
Any-snoc P (y ∷ ys) x (inl (inr h)) = inr (Any-snoc P ys x (inl h))
Any-snoc P (y ∷ ys) x (inr p) = inr (Any-snoc P ys x (inr p))

-- `Insertion x ys zs`: `zs` is `ys` with `x` put somewhere.
pub data Insertion {ℓ} {A : Type ℓ} (x : A) : List A → List A → Type ℓ where
  here : {ys : List A} → Insertion x ys (x ∷ ys)
  there : {y : A} {ys zs : List A} → Insertion x ys zs → Insertion x (y ∷ ys) (y ∷ zs)

-- The same elements, each as often, in two orders.
pub data Shuffle {ℓ} {A : Type ℓ} : List A → List A → Type ℓ where
  nil : Shuffle [] []
  cons : {x : A} {xs ys zs : List A} → Insertion x ys zs → Shuffle xs ys → Shuffle (x ∷ xs) zs

pub Insertion-All {ℓ κ} :
    {A : Type ℓ} (P : A → Type κ) {x : A} {ys zs : List A}
    → Insertion x ys zs
    → All P zs
    → P x × All P ys
Insertion-All P here h = h
Insertion-All P (there i) h = let (p, q) = Insertion-All P i h.1 in (p, (h.0, q))

module _ {ℓ} {A : Type ℓ} (le : A → A → Bool) where
  unfoldable pub insert : A → List A → List A
  insert x [] = x ∷ []
  insert x (y ∷ ys) = if le x y then x ∷ y ∷ ys else y ∷ insert x ys

  unfoldable pub sort : List A → List A
  unfolding insert
  sort [] = []
  sort (x ∷ xs) = insert x (sort xs)

  abbrev pub Below : A → A → Type 0
  Below x y = (le x y ≡ true) × (le y x ≡ false)

  -- Each element is strictly below all that come later.
  abbrev pub IsSorted : List A → Type 0
  IsSorted [] = Unit
  IsSorted (x ∷ xs) = All (Below x) xs × IsSorted xs

  insert_first : (x : A) (ys : List A) → All (Below x) ys → insert x ys ≡ x ∷ ys
  unfolding insert
  insert_first x [] h = refl
  insert_first x (y ∷ ys) h = rw (h.0.0)

  Insertion-IsSorted : {x : A} {ys zs : List A} → Insertion x ys zs → IsSorted zs → IsSorted ys
  Insertion-IsSorted here s = s.1
  Insertion-IsSorted (there {y} i) s = ((Insertion-All (Below y) i s.0).1, Insertion-IsSorted i s.1)

  insert-Insertion : {x : A} {ys zs : List A} → Insertion x ys zs → IsSorted zs → insert x ys ≡ zs
  unfolding insert
  insert-Insertion {x} (here {ys}) s = insert_first x ys s.0
  insert-Insertion (there {y} i) s =
      rw ((Insertion-All (Below y) i s.0).0.1) (ap (λ t. y ∷ t) (insert-Insertion i s.1))

  -- Sorting any shuffle of a list that is sorted gives that list.
  pub sort-Shuffle : {xs zs : List A} → Shuffle xs zs → IsSorted zs → sort xs ≡ zs
  unfolding sort
  sort-Shuffle nil s = refl
  sort-Shuffle (cons {x} i sh) s =
      rw (sort-Shuffle sh (Insertion-IsSorted i s)) (insert-Insertion i s)
