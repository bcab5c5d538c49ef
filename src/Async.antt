-- ===== src/Async.antt =====
-- Requests that run at the same time in one process of backend/. An async function runs to its next
-- `await` and lets the others run until the awaited call is answered, so a request is a sequence of
-- steps between which the world may change. A step is one awaited call or one synchronous one.
pub mod Steps
pub mod Serial
pub mod Permits
use task.Prelude.{ℕ, zero, suc, List, [], ◌∷◌}
use task.Http.{Flow, go, stop, Outcome, Handler}

-- What is left of an async function that ends like a `Handler`: nothing, or a step, which changes the
-- world, and the rest, which has the value that the step gave.
pub data Process (W R A : Type 0) : Type 0 where
  ended : Flow R A → Process W R A
  step : (W → W) → (W → Process W R A) → Process W R A

infixl 5 ◌>>=◌ ◌>>◌
unfoldable pub ◌>>=◌ : {W R A B : Type 0} → Process W R A → (A → Process W R B) → Process W R B
ended (go a) >>= f = f a
ended (stop o) >>= f = ended (stop o)
step act rest >>= f = step act (λ w. rest w >>= f)

abbrev pub ◌>>◌ : {W R A B : Type 0} → Process W R A → Process W R B → Process W R B
m >> k = m >>= λ _. k

module _ {W R : Type 0} where
  abbrev pub pure : {A : Type 0} → A → Process W R A
  pure a = ended (go a)

  abbrev pub finish : {A : Type 0} → Outcome R → Process W R A
  finish o = ended (stop o)

  -- `await` of a call, or a synchronous call: one step.
  abbrev pub await : {A : Type 0} → Handler W R A → Process W R A
  await m = step (λ w. (m w).1) (λ w. ended (m w).0)

  -- The process alone, to its end.
  unfoldable pub run : {A : Type 0} → Process W R A → Handler W R A
  run (ended r) w = (r, w)
  run (step act rest) w = run (rest w) (act w)

-- The requests that have been accepted, and the world that they share.
pub record System (W R A : Type 0) : Type 0 where
  pub world : W
  pub processes : List (Process W R A)

module _ {W R A : Type 0} where
  -- A process takes a step, if it has one.
  abbrev pub moved : Process W R A → W → W
  moved (ended r) w = w
  moved (step act rest) w = act w

  abbrev pub left : Process W R A → W → Process W R A
  left (ended r) w = ended r
  left (step act rest) w = rest w

  -- The i-th process takes a step.
  unfoldable pub advance : ℕ → W → List (Process W R A) → System W R A
  advance i w [] = record { world = w; processes = [] }
  advance zero w (p ∷ ps) = record { world = moved p w; processes = left p w ∷ ps }
  advance (suc i) w (p ∷ ps) =
      let rest = advance i w ps in record rest { processes = p ∷ rest.processes }

  -- The event loop: which process goes on when is given by the schedule.
  unfoldable pub interleave : List ℕ → W → List (Process W R A) → System W R A
  unfolding advance
  interleave [] w ps = record { world = w; processes = ps }
  interleave (i ∷ schedule) w ps = let s = advance i w ps in interleave schedule s.world s.processes
