-- ===== src/Async/Steps.antt =====
-- A rule for what holds however requests are interleaved: each step keeps an invariant of the world,
-- whatever other steps that keep it have done before.
use task.Prelude.{ℕ, zero, suc, List, [], ◌∷◌}
use task.Prelude.Sorting.{All}
use task.Http.{Flow, go, stop, Handler}
use task.Async.{Process, ended, step, ◌>>=◌, await, advance, interleave, moved, left}

abbrev pub Gives : {R A : Type 0} → (A → Type 0) → Flow R A → Type 0
Gives Q (go a) = Q a
Gives Q (stop o) = Unit

-- Nothing is said of a value.
abbrev pub AnyValue : {A : Type 0} → A → Type 0
AnyValue a = Unit

pub Gives-AnyValue : {R A : Type 0} (r : Flow R A) → Gives AnyValue r
Gives-AnyValue (go a) = tt
Gives-AnyValue (stop o) = tt

module _ {W R : Type 0} (P : W → Type 0) where
  -- Each step keeps `P`, and a process that goes on gives a value with `Q`.
  unfoldable pub Steps : {A : Type 0} → (A → Type 0) → Process W R A → Type 0
  Steps Q (ended r) = Gives Q r
  Steps Q (step act rest) = (w : W) → P w → P (act w) × Steps Q (rest w)

  -- An awaited call keeps `P`, and if it goes on its value has `Q`.
  pub record Awaited {A : Type 0} (Q : A → Type 0) (m : Handler W R A) : Type 0 where
    pub at : (w : W) → P w → P (m w).1 × Gives Q (m w).0

  Steps-bind :
      {A B : Type 0} (Q : A → Type 0) (S : B → Type 0) (p : Process W R A) (f : A → Process W R B)
      → Steps Q p
      → ((a : A) → Q a → Steps S (f a))
      → Steps S (p >>= f)
  unfolding ◌>>=◌ Steps
  Steps-bind Q S (ended (go a)) f h k = k a h
  Steps-bind Q S (ended (stop o)) f h k = tt
  Steps-bind Q S (step act rest) f h k =
      λ w inv. let (kept, later) = h w inv in (kept, Steps-bind Q S (rest w) f later k)

  pub Steps-await :
      {A B : Type 0} {Q : A → Type 0} (S : B → Type 0) {m : Handler W R A} (f : A → Process W R B)
      → Awaited Q m
      → ((a : A) → Q a → Steps S (f a))
      → Steps S (await m >>= f)
  unfolding Steps
  Steps-await {Q} S {m} f h k = Steps-bind Q S (await m) f h.at k

  pub Steps-ended : {A : Type 0} (r : Flow R A) → Steps AnyValue (ended r)
  unfolding Steps
  Steps-ended = Gives-AnyValue

  module _ {A : Type 0} (Q : A → Type 0) where
    moved-Steps : (p : Process W R A) (w : W) → Steps Q p → P w → P (moved p w) × Steps Q (left p w)
    unfolding Steps
    moved-Steps (ended r) w h inv = (inv, h)
    moved-Steps (step act rest) w h inv = h w inv

    advance-Steps :
        (i : ℕ) (w : W) (ps : List (Process W R A))
        → P w
        → All (Steps Q) ps
        → P (advance i w ps).world × All (Steps Q) (advance i w ps).processes
    unfolding advance
    advance-Steps i w [] inv h = (inv, tt)
    advance-Steps zero w (p ∷ ps) inv h =
        let (kept, later) = moved-Steps p w h.0 inv in (kept, (later, h.1))
    advance-Steps (suc i) w (p ∷ ps) inv h =
        let (kept, later) = advance-Steps i w ps inv h.1 in (kept, (h.0, later))

    -- An invariant that the steps of each process keep holds after every interleaving.
    pub interleave-Steps :
        (schedule : List ℕ) (w : W) (ps : List (Process W R A))
        → P w
        → All (Steps Q) ps
        → P (interleave schedule w ps).world
    unfolding interleave
    interleave-Steps [] w ps inv h = inv
    interleave-Steps (i ∷ schedule) w ps inv h =
        let (kept, later) = advance-Steps i w ps inv h in
        interleave-Steps schedule (advance i w ps).world (advance i w ps).processes kept later
