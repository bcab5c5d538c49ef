-- ===== src/Report/Told.antt =====
-- What the worker's process tells of its jobs (backend/src/workers/report.worker.js).
use task.Prelude.{
  ℕ, zero, suc, ◌+◌, ◌≡◌, refl, Option, some, Bool, true, false, List, [], ◌∷◌, ◌++◌, map,
  replicate, arith, length, ltb, ap, ◌∙◌,
}
use task.Http.{Exception}
use task.Report.Jobs.{StoredJob}
use task.Report.Station.{Station, on_completed, on_failed}

-- BullMQ's events of one worker.
pub data WorkerEvent : Type 0 where
  completes : WorkerEvent
  fails : Option StoredJob → Exception → WorkerEvent

unfoldable pub hear : ℕ → List WorkerEvent → Station → Station
hear n [] s = s
hear n (completes ∷ es) s = hear n es (on_completed s)
hear n (fails job err ∷ es) s = hear n es (on_failed n job err s)

-- The failures of the attempts `made + 1`, ..., `made + left` at one job, which BullMQ reports with the
-- attempt counted.
abbrev pub attempts_fail : StoredJob → Exception → ℕ → ℕ → List WorkerEvent
attempts_fail job err made zero = []
attempts_fail job err made (suc left) =
    fails (some (record job { attempts_made = made + 1 })) err
    ∷ attempts_fail job err (made + 1) left

-- Whether each failure line says that the job will be tried again, the last line first.
abbrev pub promises : Station → List Bool
promises s = map (λ l. l.will_retry) s.failures

abbrev one_more : ℕ → StoredJob → Exception → ℕ → Station → Station
one_more n job err made s = on_failed n (some (record job { attempts_made = made + 1 })) err s

-- The line of one failure.
promise_lem :
    (n : ℕ) (job : StoredJob) (err : Exception) (made left : ℕ) (s : Station)
    → job.max_attempts ≡ made + suc left
    → promises (one_more n job err made s) ≡ (ltb (made + 1) (made + suc left)) ∷ promises s
unfolding on_failed
promise_lem n job err made left s e = ground arith

replicate-shift :
    (k : ℕ) (bs : List Bool) → replicate k true ++ true ∷ bs ≡ true ∷ (replicate k true ++ bs)
replicate-shift zero bs = refl
replicate-shift (suc k) bs = ap (λ l. true ∷ l) (replicate-shift k bs)

promises_from :
    (n : ℕ) (job : StoredJob) (err : Exception) (made left : ℕ) (s : Station)
    → job.max_attempts ≡ made + suc left
    → promises (hear n (attempts_fail job err made (suc left)) s)
      ≡ false ∷ (replicate left true ++ promises s)
unfolding hear
promises_from n job err made zero s e = promise_lem n job err made 0 s e ∙ ground arith
promises_from n job err made (suc left) s e =
    promises_from n job err (made + 1) left (one_more n job err made s) (omega (arith, e))
    ∙ ap (λ l. false ∷ (replicate left true ++ l))
        (promise_lem n job err made (suc left) s e ∙ ground arith)
    ∙ ap (λ l. false ∷ l) (replicate-shift left (promises s))

hear-counts :
    (n : ℕ) (es : List WorkerEvent) (s : Station)
    → let s' = hear n es s in s'.completed + s'.failed ≡ s.completed + s.failed + length es
unfolding hear on_completed on_failed
hear-counts n [] s = omega arith
hear-counts n (completes ∷ es) s = omega (arith, hear-counts n es (on_completed s))
hear-counts n (fails job err ∷ es) s = omega (arith, hear-counts n es (on_failed n job err s))

-- Of the failures of a job that is tried as often as it may be, each line but the last says that the
-- job will be retried, and the last says that it will not; and every event is counted once.
hear-promises :
    (n : ℕ) (job : StoredJob) (err : Exception) (left : ℕ) (s : Station)
    → job.max_attempts ≡ suc left
    → let s' = hear n (attempts_fail job err 0 (suc left)) s in
      (promises s' ≡ false ∷ (replicate left true ++ promises s))
      × (s'.completed + s'.failed
          ≡ s.completed + s.failed + length (attempts_fail job err 0 (suc left)))
hear-promises n job err left s e = (
  promises_from n job err 0 left s (omega (arith, e)),
  hear-counts n (attempts_fail job err 0 (suc left)) s,
)
