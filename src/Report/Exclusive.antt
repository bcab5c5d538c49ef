-- ===== src/Report/Exclusive.antt =====
-- Attempts at one report job at the same time (backend/src/services/report.service.js), as when a
-- stalled job is given to a second worker: the claim in Redis keeps all but one from sending.
use task.Prelude.{
  ℕ, ◌+◌, ◌≤◌, ◌≡◌, refl, ◌⊎◌, inl, inr, String, Option, none, some, Bool, true, false, List, [],
  ◌∷◌, map, Bool-cases, arith,
}
use text.Mathlib.Text.{◌==◌}
use task.Http.{User, Exception, go, raise}
use task.Async.{interleave}
use task.Async.Permits.{
  Awaited, Awaited-at, Steps, Steps-bind, Steps-await, Steps-last, Steps-ended, Together,
  interleave-Together,
}
use task.Report.Build.{Report}
use task.Report.Worker.{
  Job, Email, Done, done, broke, WorkerServices, WorkerWorld, email_guard_key, update_progress,
  inject, build_report, claim_email_send, release_email_claim,
}
use task.Report.Attempts.{Exact, AtMostOne}
use task.Report.Concurrent.{
  Attempt, try_send, after_send, if_claimed, sending, notifying, processing,
}

claim_cases :
    (d : Done Bool) → (d ≡ done true) ⊎ (d ≡ done false) ⊎ ((x : Exception) × (d ≡ broke x))
claim_cases (done true) = inl refl
claim_cases (done false) = inr (inl refl)
claim_cases (broke x) = inr (inr (x, refl))

send_cases : (d : Done Unit) → (d ≡ done tt) ⊎ ((x : Exception) × (d ≡ broke x))
send_cases (done tt) = inl refl
send_cases (broke x) = inr (x, refl)

module _ (s : WorkerServices) (e : Exact s) (job : Job) (before : ℕ) where
  open e use {held, delivered, claims, keeps_claims, counts}

  -- A permit is the right to send: no process has it, and at most one message has been delivered, or
  -- one process has it, the claim is held and nothing has been delivered.
  Guarded : ℕ → WorkerWorld s → Type 0
  Guarded k w =
      ((k ≡ 0) × AtMostOne s e job before w.redis w.mail)
      ⊎ ((k ≡ 1) × (delivered w.mail ≡ before) × (held (email_guard_key job.id) w.redis ≡ true))

  abbrev Claimed : Bool → ℕ → Type 0
  Claimed true k = k ≡ 1
  Claimed false k = k ≡ 0

  abbrev Sent : Done Unit → ℕ → Type 0
  Sent (done u) k = k ≡ 0
  Sent (broke x) k = k ≡ 1

  abbrev Same : {A : Type 0} → ℕ → A → ℕ → Type 0
  Same n a k = k ≡ n

  claim-Guarded : Awaited Guarded 0 Claimed (claim_email_send s job.id)
  unfolding Guarded claim_email_send AtMostOne
  claim-Guarded = record {
    at = λ w others h.
        let key = email_guard_key job.id in
        elim (claim_cases (s.set_nx key w.redis).0) [
          | inl r ↦ (1, ground (arith, claims key w.redis), ground arith)
          | inr (inl r) ↦ (0, ground (arith, keeps_claims key w.redis), ground arith)
          | inr (inr (x, r)) ↦ (0, ground (arith, keeps_claims key w.redis), ground arith)
        ];
  }

  send-Guarded : (m : Email) → Awaited Guarded 1 Sent (try_send s m)
  unfolding Guarded try_send AtMostOne
  send-Guarded m = record {
    at = λ w others h. elim (send_cases (s.send m w.mail).0) [
      | inl r ↦ (0, ground (arith, counts m w.mail), ground arith)
      | inr (x, r) ↦ (1, ground (arith, counts m w.mail), ground arith)
    ];
  }

  release-Guarded : Awaited Guarded 1 (Same 0) (release_email_claim s job.id)
  unfolding Guarded release_email_claim AtMostOne
  release-Guarded = record { at = λ w others h. (0, ground arith, ground arith) }

  raise-Guarded :
      (n : ℕ) (x : Exception) → Awaited {R = Report} Guarded n (Same {A = Unit {0}} 0) (raise x)
  raise-Guarded n x = record { at = λ w others h. (n, h, tt) }

  progress-Guarded : (n : ℕ) → Awaited Guarded 0 (Same 0) (update_progress s n)
  unfolding Guarded update_progress AtMostOne
  progress-Guarded n = record { at = λ w others h. (0, ground arith, ground arith) }

  inject-Guarded : (b : Bool) → Awaited Guarded 0 (Same 0) (inject s b)
  unfolding inject
  inject-Guarded true = record { at = λ w others h. (0, h, tt) }
  inject-Guarded false = record { at = λ w others h. (0, h, refl) }

  build-Guarded : (u : User) → Awaited Guarded 0 (Same 0) (build_report s u)
  unfolding Guarded build_report AtMostOne
  build-Guarded u = record { at = λ w others h. (0, ground arith, ground arith) }

  after_send-Guarded :
      (d : Done Unit) (k : ℕ) → Sent d k → Steps Guarded k (Same 0) (after_send s job d)
  unfolding after_send
  after_send-Guarded (done u) k sent = Steps-ended Guarded k (Same 0) (go tt) sent
  after_send-Guarded (broke x) k sent =
      Steps-await Guarded k (Same 0) _ (Awaited-at Guarded sent release-Guarded)
        λ _ n _. Steps-last Guarded n _ (raise-Guarded n x)

  if_claimed-Guarded :
      (m : Email) (claimed : Bool) (k : ℕ)
      → Claimed claimed k
      → Steps Guarded k (Same 0) (if_claimed s claimed (sending s job m))
  unfolding sending
  if_claimed-Guarded m true k one =
      Steps-await Guarded k (Same 0) _ (Awaited-at Guarded one (send-Guarded m)) after_send-Guarded
  if_claimed-Guarded m false k none_held = Steps-ended Guarded k (Same 0) (go tt) none_held

  Steps-at :
      {k : ℕ} (p : Attempt s Unit) → k ≡ 0 → Steps Guarded 0 (Same 0) p → Steps Guarded k (Same 0) p
  Steps-at {k} p z h = rw z h

  notifying-Guarded :
      (report : Report) (to : Option String) → Steps Guarded 0 (Same 0) (notifying s job report to)
  unfolding notifying sending
  notifying-Guarded report none = Steps-ended Guarded 0 (Same 0) (go tt) refl
  notifying-Guarded report (some to) = elim (Bool-cases (to == "")) [
    | inl empty ↦ rw empty (Steps-ended Guarded 0 (Same 0) (go tt) refl)
    | inr given ↦ rw given (Steps-await Guarded 0 (Same 0) _ claim-Guarded (if_claimed-Guarded _))
  ]

  processing-Guarded : (injected : Bool) → Steps Guarded 0 (Same 0) (processing s job injected)
  unfolding processing
  processing-Guarded injected = Steps-await Guarded 0 (Same 0) _ (progress-Guarded 10) λ _ k z.
      Steps-await Guarded k (Same 0) _ (Awaited-at Guarded z (inject-Guarded injected)) λ _ k z.
        Steps-await Guarded k (Same 0) _ (Awaited-at Guarded z (build-Guarded _)) λ report k z.
          Steps-await Guarded k (Same 0) _ (Awaited-at Guarded z (progress-Guarded 70)) λ _ k z.
            Steps-bind Guarded k (Same 0) (Same 0) _ _
              (Steps-at _ z (notifying-Guarded report job.data'.email))
              λ _ k z.
                Steps-await Guarded k (Same 0) _ (Awaited-at Guarded z (progress-Guarded 100))
                  λ _ k z. Steps-ended Guarded k (Same 0) (go report) z

  attempts-Together :
      (injections : List Bool) → Together Guarded (Same 0) 0 (map (processing s job) injections)
  unfolding Together
  attempts-Together [] = refl
  attempts-Together (b ∷ rest) = (0, 0, refl, processing-Guarded b, attempts-Together rest)

  -- However many attempts at one job are made at the same time, in one worker or in several, in
  -- whatever order their calls are carried out and whichever of these throw, at most one message is
  -- delivered for the job.
  interleave-AtMostOne :
      (injections : List Bool) (schedule : List ℕ) (w : WorkerWorld s)
      → delivered w.mail ≡ before
      → delivered (interleave schedule w (map (processing s job) injections)).world.mail
        ≤ before + 1
  unfolding Guarded AtMostOne
  interleave-AtMostOne injections schedule w e0 =
      let (m, kept) =
        interleave-Together Guarded (Same 0) schedule w (map (processing s job) injections) 0
          (attempts-Together injections) (inl (refl, inl e0)) in
      ground arith

module _ (s : WorkerServices) where
  pub interleave-delivered :
      (e : Exact s) (job : Job) (injections : List Bool) (schedule : List ℕ) (w : WorkerWorld s)
      → e.delivered (interleave schedule w (map (processing s job) injections)).world.mail
        ≤ e.delivered w.mail + 1
  interleave-delivered e job injections schedule w =
      interleave-AtMostOne s e job (e.delivered w.mail) injections schedule w refl
