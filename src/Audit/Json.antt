-- ===== src/Audit/Json.antt =====
-- JSON values, and `canonical` of backend/src/utils/audit.js, which prints them with sorted keys.
-- Numbers are the whole numbers that an audit record holds (`seq`); strings are code points.
pub mod Size
use task.Prelude.{
  ℕ, zero, suc, ◌+◌, ◌-◌, ◌/◌, ◌%◌, Bool, true, false, ◌&&◌, ◌||◌, List, [], ◌∷◌, ◌++◌, ltb, ◌==◌,
  if◌then◌else◌,
}
use task.Prelude.Text.{Text, codes, text_eq, join}
use task.Prelude.Sorting.{sort}

mutual
  pub data Json : Type 0 where
    undefined null : Json
    bool : Bool → Json
    num : ℕ → Json
    str : Text → Json
    arr : Items → Json
    obj : Fields → Json

  pub data Items : Type 0 where
    nil : Items
    cons : Json → Items → Items

  pub data Fields : Type 0 where
    end : Fields
    field : Text → Json → Fields → Fields

-- The decimal digits of a number, with fuel above it.
decimal_from : ℕ → ℕ → Text
decimal_from zero n = []
decimal_from (suc f) n =
    let rest = decimal_from f (n / 10) in
    if ltb n 10 then (n + 48) ∷ [] else rest ++ (n % 10 + 48) ∷ []

unfoldable pub decimal : ℕ → Text
unfolding decimal_from
decimal n = decimal_from (n + 1) n

-- One digit of a `\u00XX` escape.
hex_digit : ℕ → ℕ
hex_digit d = if ltb d 10 then d + 48 else d + 87

-- A character of a string literal, as `JSON.stringify` writes it.
escape : ℕ → Text
unfolding hex_digit
escape c =
    if c == 34
    then codes "\\\""
    else if c == 92
    then codes "\\\\"
    else if c == 8
    then codes "\\b"
    else if c == 9
    then codes "\\t"
    else if c == 10
    then codes "\\n"
    else if c == 12
    then codes "\\f"
    else if c == 13
    then codes "\\r"
    else if ltb c 32
    then codes "\\u00" ++ hex_digit (c / 16) ∷ hex_digit (c % 16) ∷ []
    else c ∷ []

escape_all : Text → Text
unfolding escape
escape_all [] = []
escape_all (c ∷ cs) = escape c ++ escape_all cs

-- `JSON.stringify` of a string
unfoldable pub stringify : Text → Text
unfolding escape_all
stringify s = codes "\"" ++ (escape_all s ++ codes "\"")

-- JavaScript orders strings by their UTF-16 code units.
units : ℕ → List ℕ
units c =
    if ltb c 0x10000
    then c ∷ []
    else (0xD800 + (c - 0x10000) / 0x400) ∷ (0xDC00 + (c - 0x10000) % 0x400) ∷ []

all_units : Text → List ℕ
unfolding units
all_units [] = []
all_units (c ∷ cs) = units c ++ all_units cs

lex_le : List ℕ → List ℕ → Bool
lex_le [] ys = true
lex_le (x ∷ xs) [] = false
lex_le (x ∷ xs) (y ∷ ys) = ltb x y || ((x == y) && lex_le xs ys)

unfoldable pub key_le : Text × Text → Text × Text → Bool
unfolding all_units lex_le
key_le (j, _) (k, _) = lex_le (all_units j) (all_units k)

-- `JSON.stringify(k) + ':' + canonical(v[k])`
abbrev pub print_entry : Text × Text → Text
print_entry (k, v) = stringify k ++ (codes ":" ++ v)

abbrev pub print_entries : List (Text × Text) → List Text
print_entries [] = []
print_entries (e ∷ es) = print_entry e ∷ print_entries es

unfoldable pub print_object : List (Text × Text) → Text
unfolding join key_le stringify sort
print_object es = codes "{" ++ (join (codes ",") (print_entries (sort key_le es)) ++ codes "}")

unfoldable mutual
  unfolding decimal stringify join print_object

  pub canonical : Json → Text
  canonical undefined = codes "null"
  canonical null = codes "null"
  canonical (bool true) = codes "true"
  canonical (bool false) = codes "false"
  canonical (num n) = decimal n
  canonical (str s) = stringify s
  canonical (arr xs) = codes "[" ++ (join (codes ",") (canonical_items xs) ++ codes "]")
  canonical (obj fs) = print_object (canonical_fields fs)

  pub canonical_items : Items → List Text
  canonical_items nil = []
  canonical_items (cons x xs) = canonical x ∷ canonical_items xs

  -- Each key beside the canonical text of its value; `print_object` sorts them.
  pub canonical_fields : Fields → List (Text × Text)
  canonical_fields end = []
  canonical_fields (field k v fs) = (k, canonical v) ∷ canonical_fields fs

-- `const { [key]: _, ...rest } = object`
unfoldable pub without : Text → Fields → Fields
unfolding text_eq
without k end = end
without k (field j v fs) = if text_eq j k then without k fs else field j v (without k fs)
