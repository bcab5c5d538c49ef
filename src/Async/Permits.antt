-- ===== src/Async/Permits.antt =====
-- A rule for interleavings in which a process holds something that the others know it holds, such as
-- a lock: each process has a number of permits, and the invariant speaks of the number of all.
use mathlib.Core.Path.{subst}
use task.Prelude.{ℕ, zero, suc, ◌+◌, ◌≡◌, refl, sym, List, [], ◌∷◌, arith}
use task.Http.{Flow, go, stop, Handler}
use task.Async.{Process, ended, step, ◌>>=◌, await, advance, interleave, moved, left}

abbrev pub GivesWith : {R A : Type 0} → (A → ℕ → Type 0) → ℕ → Flow R A → Type 0
GivesWith Q n (go a) = Q a n
GivesWith Q n (stop o) = Unit

recount : {W : Type 0} (P : ℕ → W → Type 0) (a b : ℕ) (w : W) → a ≡ b → P a w → P b w
recount P a b w e = subst (λ k. P k w) e

-- The invariant, for the number of permits.
module _ {W R : Type 0} (P : ℕ → W → Type 0) where
  -- A call by a process with n permits, while the others have `others` of them, keeps the invariant
  -- with the permits that the process then has.
  pub record Awaited {A : Type 0} (n : ℕ) (Q : A → ℕ → Type 0) (m : Handler W R A) : Type 0 where
    pub at :
        (w : W) (others : ℕ)
        → P (n + others) w
        → (k : ℕ) × P (k + others) (m w).1 × GivesWith Q k (m w).0

  unfoldable pub Steps : {A : Type 0} → ℕ → (A → ℕ → Type 0) → Process W R A → Type 0
  Steps n Q (ended r) = GivesWith Q n r
  Steps n Q (step act rest) =
      (w : W) (others : ℕ)
      → P (n + others) w
      → (k : ℕ) × P (k + others) (act w) × Steps k Q (rest w)

  pub Steps-bind :
      {A B : Type 0} (n : ℕ) (Q : A → ℕ → Type 0) (S : B → ℕ → Type 0) (p : Process W R A)
      (f : A → Process W R B)
      → Steps n Q p
      → ((a : A) (k : ℕ) → Q a k → Steps k S (f a))
      → Steps n S (p >>= f)
  unfolding ◌>>=◌ Steps
  Steps-bind n Q S (ended (go a)) f h k = k a n h
  Steps-bind n Q S (ended (stop o)) f h k = tt
  Steps-bind n Q S (step act rest) f h k = λ w others inv.
      let (m, kept, later) = h w others inv in (m, kept, Steps-bind m Q S (rest w) f later k)

  pub Steps-await :
      {A B : Type 0} (n : ℕ) {Q : A → ℕ → Type 0} (S : B → ℕ → Type 0) {m : Handler W R A}
      (f : A → Process W R B)
      → Awaited n Q m
      → ((a : A) (k : ℕ) → Q a k → Steps k S (f a))
      → Steps n S (await m >>= f)
  unfolding Steps
  Steps-await n {Q} S {m} f h k = Steps-bind n Q S (await m) f h.at k

  pub Steps-last :
      {A : Type 0} (n : ℕ) {Q : A → ℕ → Type 0} (m : Handler W R A)
      → Awaited n Q m
      → Steps n Q (await m)
  unfolding Steps
  Steps-last n m h = h.at

  pub Steps-ended :
      {A : Type 0} (n : ℕ) (Q : A → ℕ → Type 0) (r : Flow R A)
      → GivesWith Q n r
      → Steps n Q (ended r)
  unfolding Steps
  Steps-ended n Q r h = h

  -- The same call, for a number of permits that is known.
  pub Awaited-at :
      {A : Type 0} {Q : A → ℕ → Type 0} {m : Handler W R A} {k n : ℕ}
      → k ≡ n
      → Awaited n Q m
      → Awaited k Q m
  Awaited-at {Q} {m} e h = subst (λ x. Awaited x Q m) (sym e) h

  module _ {A : Type 0} (Q : A → ℕ → Type 0) where
    -- The processes have k permits together.
    unfoldable pub Together : ℕ → List (Process W R A) → Type 0
    Together k [] = k ≡ 0
    Together k (p ∷ ps) = (n : ℕ) × (rest : ℕ) × (k ≡ n + rest) × Steps n Q p × Together rest ps

    moved-Steps :
        (p : Process W R A) (w : W) (n others : ℕ)
        → Steps n Q p
        → P (n + others) w
        → (m : ℕ) × P (m + others) (moved p w) × Steps m Q (left p w)
    unfolding Steps
    moved-Steps (ended r) w n others h inv = (n, inv, h)
    moved-Steps (step act rest) w n others h inv = h w others inv

    advance-Together :
        (i : ℕ) (w : W) (ps : List (Process W R A)) (k outside : ℕ)
        → Together k ps
        → P (k + outside) w
        → (m : ℕ) × P (m + outside) (advance i w ps).world × Together m (advance i w ps).processes
    unfolding advance Together
    advance-Together i w [] k outside h inv = (k, inv, h)
    advance-Together zero w (p ∷ ps) k outside (n, rest, e, own, others) inv =
        let (m, kept, later) =
          moved-Steps p w n (rest + outside) own
            (recount P (k + outside) (n + (rest + outside)) w (omega arith) inv) in
        (
          m + rest,
          recount P (m + (rest + outside)) (m + rest + outside) (moved p w) (omega arith) kept,
          (m, rest, refl, later, others),
        )
    advance-Together (suc i) w (p ∷ ps) k outside (n, rest, e, own, others) inv =
        let (m, kept, later) =
          advance-Together i w ps rest (n + outside) others
            (recount P (k + outside) (rest + (n + outside)) w (omega arith) inv) in
        (
          n + m,
          recount P (m + (n + outside)) (n + m + outside) (advance i w ps).world (omega arith) kept,
          (n, m, refl, own, later),
        )

    -- The invariant holds after every interleaving, for some number of permits.
    pub interleave-Together :
        (schedule : List ℕ) (w : W) (ps : List (Process W R A)) (k : ℕ)
        → Together k ps
        → P k w
        → (m : ℕ) × P m (interleave schedule w ps).world
    unfolding interleave
    interleave-Together [] w ps k h inv = (k, inv)
    interleave-Together (i ∷ schedule) w ps k h inv =
        let (m, kept, later) =
          advance-Together i w ps k 0 h (recount P k (k + 0) w (omega arith) inv) in
        interleave-Together schedule (advance i w ps).world (advance i w ps).processes m later
          (recount P (m + 0) m (advance i w ps).world (omega arith) kept)
