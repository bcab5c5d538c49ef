-- ===== src/Forms/Trim.antt =====
-- `String.prototype.trim` of JavaScript, on code units.
use task.Prelude.{
  sym, ap, ◌∙◌, ℕ, ◌≤◌, ◌≡◌, refl, Bool, true, false, ◌&&◌, ◌||◌, [], ◌∷◌, if◌then◌else◌, arith,
  length, leb, ◌==◌,
}
use task.Prelude.Text.{Text}

-- WhiteSpace and LineTerminator of ECMAScript.
unfoldable pub is_space : ℕ → Bool
is_space c =
    (leb 9 c && leb c 13)
    || c == 32
    || c == 160
    || c == 5760
    || (leb 8192 c && leb c 8202)
    || c == 8232
    || c == 8233
    || c == 8239
    || c == 8287
    || c == 12288
    || c == 65279

unfoldable pub trim_start : Text → Text
unfolding is_space
trim_start [] = []
trim_start (c ∷ cs) = let rest = trim_start cs in if is_space c then rest else c ∷ cs

-- A space in front of a text, where only spaces follow, goes as well.
abbrev cons_trimmed : ℕ → Text → Text
cons_trimmed c [] = if is_space c then [] else c ∷ []
cons_trimmed c (d ∷ ds) = c ∷ d ∷ ds

unfoldable pub trim_end : Text → Text
unfolding is_space
trim_end [] = []
trim_end (c ∷ cs) = cons_trimmed c (trim_end cs)

unfoldable pub trim : Text → Text
unfolding trim_start trim_end
trim t = trim_end (trim_start t)

-- The text is empty or begins with no space.
Begins : Text → Type 0
Begins [] = Unit
Begins (c ∷ cs) = is_space c ≡ false

trim_start-Begins : (t : Text) → Begins (trim_start t)
unfolding trim_start Begins
trim_start-Begins [] = tt
trim_start-Begins (c ∷ cs) =
    elim (is_space c) as (λ b. b ≡ is_space c → Begins (if b then trim_start cs else c ∷ cs)) [
      | true ↦ λ e. trim_start-Begins cs
      | false ↦ λ e. sym e
    ]
      refl

trim_start_idle : (t : Text) → Begins t → trim_start t ≡ t
unfolding trim_start Begins
trim_start_idle [] h = refl
trim_start_idle (c ∷ cs) h = ground (arith, h)

cons_trimmed-Begins : (c : ℕ) (r : Text) → is_space c ≡ false → Begins (cons_trimmed c r)
unfolding Begins
cons_trimmed-Begins c [] h = rw h h
cons_trimmed-Begins c (d ∷ ds) h = h

trim_end-Begins : (t : Text) → Begins t → Begins (trim_end t)
unfolding trim_end Begins
trim_end-Begins [] h = tt
trim_end-Begins (c ∷ cs) h = cons_trimmed-Begins c (trim_end cs) h

cons_trimmed_idem :
    (c : ℕ) (r : Text) → trim_end r ≡ r → trim_end (cons_trimmed c r) ≡ cons_trimmed c r
unfolding trim_end
cons_trimmed_idem c [] h = ground arith
cons_trimmed_idem c (d ∷ ds) h = ap (cons_trimmed c) h

trim_end_idem : (t : Text) → trim_end (trim_end t) ≡ trim_end t
unfolding trim_end
trim_end_idem [] = refl
trim_end_idem (c ∷ cs) = cons_trimmed_idem c (trim_end cs) (trim_end_idem cs)

-- Trimming a trimmed text changes nothing.
pub trim_idem : (t : Text) → trim (trim t) ≡ trim t
unfolding trim
trim_idem t =
    ap trim_end (
      trim_start_idle (trim_end (trim_start t))
        (trim_end-Begins (trim_start t) (trim_start-Begins t)))
    ∙ trim_end_idem (trim_start t)

length-trim_start : (t : Text) → length (trim_start t) ≤ length t
unfolding trim_start
length-trim_start [] = omega arith
length-trim_start (c ∷ cs) = ground (arith, length-trim_start cs)

length-trim_end : (t : Text) → length (trim_end t) ≤ length t
unfolding trim_end
length-trim_end [] = omega arith
length-trim_end (c ∷ cs) = ground (arith, length-trim_end cs)

pub length-trim : (t : Text) → length (trim t) ≤ length t
unfolding trim
length-trim t = omega (arith, length-trim_start t, length-trim_end (trim_start t))
