-- ===== src/Async/Serial.antt =====
-- Requests one after the other are one of the interleavings.
use task.Prelude.{ℕ, suc, ◌≡◌, refl, ap, ◌∙◌, List, [], ◌∷◌, ◌++◌, map}
use task.Http.{Handler, Flow, go, stop}
use task.Http
use task.Async.{Process, System, ended, step, ◌>>=◌, await, run, advance, interleave}

-- A process that runs alone does what the handler does.
abbrev pub Runs : {W R A : Type 0} → Process W R A → Handler W R A → Type 0
Runs {W} p m = (w : W) → run p w ≡ m w

abbrev after : {W R A B : Type 0} → (A → Handler W R B) → Flow R A × W → Flow R B × W
after g (go a, w) = g a w
after g (stop o, w) = (stop o, w)

run-bind :
    {W R A B : Type 0} (p : Process W R A) (f : A → Process W R B) (w : W)
    → run (p >>= f) w ≡ after (λ a. run (f a)) (run p w)
unfolding run ◌>>=◌
run-bind (ended (go a)) f w = refl
run-bind (ended (stop o)) f w = refl
run-bind (step act rest) f w = run-bind (rest w) f (act w)

after-Runs :
    {W R A B : Type 0} (f : A → Process W R B) (g : A → Handler W R B)
    → ((a : A) → Runs (f a) (g a))
    → (r : Flow R A) (w : W) → after (λ a. run (f a)) (r, w) ≡ Http.◌>>=◌ (λ w'. (r, w')) g w
after-Runs f g h (go a) w = h a w
after-Runs f g h (stop o) w = refl

pub Runs-bind :
    {W R A B : Type 0} (p : Process W R A) (m : Handler W R A) (f : A → Process W R B)
    (g : A → Handler W R B)
    → Runs p m
    → ((a : A) → Runs (f a) (g a))
    → Runs (p >>= f) (Http.◌>>=◌ m g)
Runs-bind p m f g h k w =
    run-bind p f w ∙ ap (after λ a. run (f a)) (h w) ∙ after-Runs f g k (m w).0 (m w).1

Runs-await : {W R A : Type 0} (m : Handler W R A) → Runs (await m) m
unfolding run
Runs-await m w = refl

pub Runs-step :
    {W R A B : Type 0} (m : Handler W R A) (f : A → Process W R B) (g : A → Handler W R B)
    → ((a : A) → Runs (f a) (g a))
    → Runs (await m >>= f) (Http.◌>>=◌ m g)
Runs-step m f g = Runs-bind (await m) m f g (Runs-await m)

pub Runs-ended : {W R A : Type 0} (r : Flow R A) → Runs {W = W} (ended r) (λ w. (r, w))
unfolding run
Runs-ended r w = refl

module _ {W R A : Type 0} where
  -- The world after the processes, each alone, and what is left of them.
  abbrev pub one_by_one : List (Process W R A) → W → System W R A
  one_by_one [] w = record { world = w; processes = [] }
  one_by_one (p ∷ ps) w =
      let (r, w') = run p w in
      let s = one_by_one ps w' in record { world = s.world; processes = ended r ∷ s.processes }

  -- As many turns of the first process as it needs.
  abbrev turns : Process W R A → W → List ℕ
  turns (ended r) w = []
  turns (step act rest) w = 0 ∷ turns (rest w) (act w)

  abbrev serial : List (Process W R A) → W → List ℕ
  serial [] w = []
  serial (p ∷ ps) w = turns p w ++ map suc (serial ps (run p w).1)

  interleave-append :
      (xs ys : List ℕ) (w : W) (ps : List (Process W R A))
      → let s = interleave xs w ps in interleave (xs ++ ys) w ps ≡ interleave ys s.world s.processes
  unfolding interleave
  interleave-append [] ys w ps = refl
  interleave-append (x ∷ xs) ys w ps =
      interleave-append xs ys (advance x w ps).world (advance x w ps).processes

  interleave-turns :
      (p : Process W R A) (w : W) (ps : List (Process W R A))
      → let (r, w') = run p w in
        interleave (turns p w) w (p ∷ ps) ≡ record { world = w'; processes = ended r ∷ ps }
  unfolding interleave run
  interleave-turns (ended r) w ps = refl
  interleave-turns (step act rest) w ps = interleave-turns (rest w) (act w) ps

  interleave-map-suc :
      (xs : List ℕ) (w : W) (p : Process W R A) (ps : List (Process W R A))
      → let s = interleave xs w ps in
        interleave (map suc xs) w (p ∷ ps) ≡ record { world = s.world; processes = p ∷ s.processes }
  unfolding interleave
  interleave-map-suc [] w p ps = refl
  interleave-map-suc (x ∷ xs) w p ps =
      interleave-map-suc xs (advance x w ps).world p (advance x w ps).processes

  interleave-serial :
      (ps : List (Process W R A)) (w : W) → interleave (serial ps w) w ps ≡ one_by_one ps w
  unfolding interleave
  interleave-serial [] w = refl
  interleave-serial (p ∷ ps) w =
      rw
        (
          interleave-append (turns p w) (map suc (serial ps (run p w).1)) w (p ∷ ps),
          interleave-turns p w ps,
          interleave-map-suc (serial ps (run p w).1) (run p w).1 (ended (run p w).0) ps,
          interleave-serial ps (run p w).1,
        )
        refl

  -- Some schedule runs the processes one after the other, each to its end.
  pub serial_schedule :
      (ps : List (Process W R A)) (w : W)
      → (schedule : List ℕ) × (interleave schedule w ps ≡ one_by_one ps w)
  serial_schedule ps w = (serial ps w, interleave-serial ps w)
