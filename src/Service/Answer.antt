-- ===== src/Service/Answer.antt =====
-- `{ data, error }` as the Supabase client (`@supabase/supabase-js`) returns it, or an exception.
use task.Prelude.{String, Option, none, some, Bool, true, false, ◌≡◌, ◌⊎◌, inl, inr, refl}
use task.Http.{Exception}

pub data Answer (A : Type 0) : Type 0 where
  answer : Option A → Option String → Answer A
  thrown : Exception → Answer A

-- A query of a database `D` with an answer.
abbrev pub Ask : Type 0 → Type 0 → Type 0
Ask D A = D → Answer A × D

abbrev pub is_some : {A : Type 0} → Option A → Bool
is_some none = false
is_some (some _) = true

-- `data` where `!error && data`
abbrev pub usable : {A : Type 0} → Option A → Option String → Option A
usable data' (some e) = none
usable data' none = data'

-- An answer that is no row without an error.
unfoldable pub Missing : {A : Type 0} → Answer A → Type 0
Missing {A} r =
    (r ≡ answer none none)
    ⊎ (((d : Option A) × (x : String) × (r ≡ answer d (some x)))
        ⊎ ((x : Exception) × (r ≡ thrown x)))

pub answer_cases : {A : Type 0} (r : Answer A) → ((a : A) × (r ≡ answer (some a) none)) ⊎ Missing r
unfolding Missing
answer_cases (answer (some a) none) = inl (a, refl)
answer_cases (answer none none) = inr (inl refl)
answer_cases (answer d (some x)) = inr (inr (inl (d, x, refl)))
answer_cases (thrown x) = inr (inr (inr (x, refl)))
