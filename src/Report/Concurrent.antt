-- ===== src/Report/Concurrent.antt =====
-- `processReportJob` (backend/src/services/report.service.js) as a process: each awaited call is a
-- step, after which other attempts at the same job may go on, in this worker or in another one.
use text.Mathlib.Text.{◌==◌}
use task.Prelude.{String, Option, none, some, Bool, true, false, if◌then◌else◌, refl, arith}
use task.Http.{User, Flow, go, stop, Handler}
use task.Async.Serial.{Runs, Runs-bind, Runs-step, Runs-ended}
use task.Async.{Process, run, ◌>>=◌, ◌>>◌, await, pure}
use task.Report.Build.{Report, render_report_email}
use task.Report.Worker.{
  Job, Email, Done, done, broke, WorkerServices, WorkerWorld, update_progress, inject, build_report,
  claim_email_send, release_email_claim, process_report_job, notify, send_or_release,
}
use task.Http

module _ (s : WorkerServices) where
  abbrev pub Attempt : Type 0 → Type 0
  Attempt A = Process (WorkerWorld s) Report A

  -- `sendEmail`, and how it ends.
  unfoldable pub try_send : Email → Handler (WorkerWorld s) Report (Done Unit)
  try_send m w = let (d, mail) = s.send m w.mail in (go d, record w { mail = mail })

  -- What `catch` does when `sendEmail` throws: release the claim, and throw the same error.
  unfoldable pub after_send : Job → Done Unit → Attempt Unit
  after_send job (done u) = pure tt
  after_send job (broke x) = await (release_email_claim s job.id) >> await (Http.raise x)

  unfoldable pub sending : Job → Email → Attempt Unit
  unfolding after_send
  sending job m = do d ← await (try_send m); after_send job d

  abbrev pub if_claimed : Bool → Attempt Unit → Attempt Unit
  if_claimed true m = m
  if_claimed false m = pure tt

  unfoldable pub notifying : Job → Report → Option String → Attempt Unit
  unfolding sending
  notifying job report none = pure tt
  notifying job report (some to) = if to == "" then pure tt else do
    claimed ← await (claim_email_send s job.id)
    if_claimed claimed (
        sending job (record {
          to = to;
          subject = "Your TaskFlow report is ready";
          text = render_report_email report;
        }))

  unfoldable pub processing : Job → Bool → Attempt Report
  unfolding notifying
  processing job injected = do
    await (update_progress s 10)
    await (inject s injected)
    report ←
        await
          (build_report s (record { id = job.data'.user_id; email = ""; role = job.data'.role }))
    await (update_progress s 70)
    notifying job report job.data'.email
    await (update_progress s 100)
    pure report

  sending-Runs : (job : Job) (m : Email) → Runs (sending job m) (send_or_release s job.id m)
  unfolding sending after_send try_send send_or_release release_email_claim run ◌>>=◌
  sending-Runs job m w = ground arith

  notifying-Runs :
      (job : Job) (report : Report) (to : Option String)
      → Runs (notifying job report to) (notify s job report to)
  unfolding notifying sending after_send try_send notify send_or_release release_email_claim
      claim_email_send run ◌>>=◌
  notifying-Runs job report none w = refl
  notifying-Runs job report (some to) w = ground arith

  -- What is left of an attempt after each of its steps.
  module _ (job : Job) where
    abbrev owner : User
    owner = record { id = job.data'.user_id; email = ""; role = job.data'.role }

    abbrev notified : Report → Handler (WorkerWorld s) Report Report
    notified report = Http.◌>>=◌ (update_progress s 100) λ _. Http.pure report

    abbrev built : Report → Handler (WorkerWorld s) Report Report
    built report =
        Http.◌>>=◌ (update_progress s 70)
          λ _. Http.◌>>=◌ (notify s job report job.data'.email) λ _. notified report

    abbrev injected_at : Bool → Handler (WorkerWorld s) Report Report
    injected_at injected =
        Http.◌>>=◌ (inject s injected) λ _. Http.◌>>=◌ (build_report s owner) built

    -- An attempt that nothing interrupts does what `process_report_job` does.
    pub processing-Runs :
        (injected : Bool) → Runs (processing job injected) (process_report_job s injected job)
    unfolding processing process_report_job
    processing-Runs injected =
        Runs-step (update_progress s 10) _ (λ _. injected_at injected)
          λ _.
            Runs-step (inject s injected) _ (λ _. Http.◌>>=◌ (build_report s owner) built)
              λ _. Runs-step (build_report s owner) _ built λ report.
                Runs-step (update_progress s 70) _
                  (λ _. Http.◌>>=◌ (notify s job report job.data'.email) λ _. notified report)
                  λ _.
                    Runs-bind (notifying job report job.data'.email)
                      (notify s job report job.data'.email) _ (λ _. notified report)
                      (notifying-Runs job report job.data'.email)
                      λ _.
                        Runs-step (update_progress s 100) _ (λ _. Http.pure report)
                          λ _. Runs-ended (go report)
