-- ===== src/Report/Attempts.antt =====
-- Retries of one report job (backend/src/services/report.service.js): the notification is sent at
-- most once while the claim's key lives in Redis (24 hours).
use task.Prelude.{
  ℕ, ◌+◌, ◌≤◌, ◌≡◌, ◌⊎◌, inl, refl, String, Option, none, some, Bool, true, false, List, [], ◌∷◌,
  arith,
}
use task.Prelude.Text.{Text}
use task.Http.{User, Keeps, Keeps-bind, Keeps-then, Keeps-pure}
use task.Report.Build.{Report, render_report_email}
use task.Report.Worker.{
  Job, Email, Done, done, broke, WorkerServices, WorkerWorld, email_guard_key, build_report, notify,
  process_report_job, update_progress, inject,
}

abbrev pub delivered_by : Done Unit → ℕ → ℕ
delivered_by (done u) n = n + 1
delivered_by (broke x) n = n

module _ (s : WorkerServices) where
  open s use {Redis, Mail, set_nx, del, send}

  -- What Redis documents of `SET key value NX` and `DEL`, before the key expires, and what is
  -- assumed of the mail server: a message counts as delivered exactly when `send` does not throw. A
  -- command that throws may have been carried out or not, except that a failed SET gives no claim.
  pub record Exact : Type 0 where
    pub held : Text → Redis → Bool
    pub delivered : Mail → ℕ
    pub claims :
        (k : Text) (r : Redis)
        → (set_nx k r).0 ≡ done true
        → (held k r ≡ false) × (held k (set_nx k r).1 ≡ true)
    pub keeps_claims : (k : Text) (r : Redis) → held k r ≡ true → held k (set_nx k r).1 ≡ true
    pub counts :
        (m : Email) (b : Mail) → delivered (send m b).1 ≡ delivered_by (send m b).0 (delivered b)

  -- The attempts that BullMQ makes at one job, each with its fault injection.
  unfoldable pub attempt_all : Job → List Bool → WorkerWorld s → WorkerWorld s
  attempt_all job [] w = w
  attempt_all job (injected ∷ rest) w = attempt_all job rest (process_report_job s injected job w).1

  module _ (e : Exact) (job : Job) (before : ℕ) where
    open e use {held, delivered, claims, keeps_claims, counts}

    -- Nothing has been delivered, or one message has and the claim is held.
    unfoldable pub AtMostOne : Redis → Mail → Type 0
    AtMostOne r b =
        (delivered b ≡ before)
        ⊎ ((delivered b ≡ before + 1) × (held (email_guard_key job.id) r ≡ true))

    notify-AtMostOne :
        (report : Report) (to : Option String) (w : WorkerWorld s)
        → AtMostOne w.redis w.mail
        → let w' = (notify s job report to w).1 in AtMostOne w'.redis w'.mail
    unfolding AtMostOne notify
    notify-AtMostOne report none w h = h
    notify-AtMostOne report (some to) w h = ground (
      arith,
      claims (email_guard_key job.id) w.redis,
      keeps_claims (email_guard_key job.id) w.redis,
      counts
          (record {
            to = to;
            subject = "Your TaskFlow report is ready";
            text = render_report_email report;
          })
          w.mail,
    )

    AtMostOneIn : WorkerWorld s → Type 0
    AtMostOneIn w = AtMostOne w.redis w.mail

    -- A step that leaves Redis and the mail server alone.
    update_progress-Keeps : (n : ℕ) → Keeps AtMostOneIn (update_progress s n)
    unfolding AtMostOneIn AtMostOne update_progress
    update_progress-Keeps n = record { at = λ w h. ground arith }

    build_report-Keeps : (u : User) → Keeps AtMostOneIn (build_report s u)
    unfolding AtMostOneIn AtMostOne build_report
    build_report-Keeps u = record { at = λ w h. ground arith }

    injection-Keeps : (b : Bool) → Keeps AtMostOneIn (inject s b)
    unfolding inject
    injection-Keeps true = record { at = λ w h. h }
    injection-Keeps false = record { at = λ w h. h }

    notify-Keeps : (r : Report) (to : Option String) → Keeps AtMostOneIn (notify s job r to)
    unfolding AtMostOneIn
    notify-Keeps r to = record { at = notify-AtMostOne r to }

    process_report_job-Keeps :
        (injected : Bool) → Keeps AtMostOneIn (process_report_job s injected job)
    unfolding process_report_job
    process_report_job-Keeps injected = Keeps-then AtMostOneIn (update_progress-Keeps 10) (
        Keeps-then AtMostOneIn (injection-Keeps injected) (
          Keeps-bind AtMostOneIn (build_report-Keeps _) λ report.
            Keeps-then AtMostOneIn (update_progress-Keeps 70) (
              Keeps-then AtMostOneIn (notify-Keeps report job.data'.email) (
                Keeps-then AtMostOneIn (update_progress-Keeps 100)
                  (Keeps-pure AtMostOneIn report)))))

    attempt_all-AtMostOne :
        (injections : List Bool) (w : WorkerWorld s)
        → AtMostOneIn w
        → AtMostOneIn (attempt_all job injections w)
    unfolding attempt_all
    attempt_all-AtMostOne [] w h = h
    attempt_all-AtMostOne (b ∷ rest) w h =
        attempt_all-AtMostOne rest (process_report_job s b job w).1
          ((process_report_job-Keeps b).at w h)

  -- However often a job is tried, and whichever of its steps throw, at most one message is delivered
  -- for it.
  attempt_all-delivered :
      (e : Exact) (job : Job) (injections : List Bool) (w : WorkerWorld s)
      → e.delivered (attempt_all job injections w).mail ≤ e.delivered w.mail + 1
  unfolding AtMostOneIn AtMostOne
  attempt_all-delivered e job injections w =
      ground (arith, attempt_all-AtMostOne e job (e.delivered w.mail) injections w (inl refl))
