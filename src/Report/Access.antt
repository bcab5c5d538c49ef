-- ===== src/Report/Access.antt =====
-- Who may read which report job (backend/src/controllers/report.controller.js).
use text.Mathlib.Text.{◌==◌}
use task.Prelude.{
  String, Option, none, some, Bool, true, false, ◌≡◌, ◌⊎◌, inl, inr, refl, [], ◌∷◌, ◌++◌, arith,
}
use task.Prelude.Text.{Text, codes}
use task.Prelude.Sorting.{All}
use task.Http.{Exception, Request, Outcome, run_handler, send_success, send_error}
use task.Report.Worker.{JobData, Done, done, broke}
use task.Report.Jobs.{
  StoredJob, JobQueue, JobStatus, Reply, job_status, report_job_id, job_id_of, may_not_read,
  status_of, request_report, payload_of, enqueue_report_job, get_report_status,
}

abbrev Found : Done (Option StoredJob) → Type 0
Found d = (job : StoredJob) × (d ≡ done (some job))

find_decided :
    (d : Done (Option StoredJob)) → Found d ⊎ ((job : StoredJob) → ¬ (d ≡ done (some job)))
find_decided (done (some job)) = inl (job, refl)
find_decided (done none) = inr λ job e. absurd (ground arith)
find_decided (broke x) = inr λ job e. absurd (ground arith)

split_colon :
    (u v k l : Text)
    → All (λ c. ¬ (c ≡ 58)) u
    → All (λ c. ¬ (c ≡ 58)) v
    → (u ++ (58 ∷ k)) ≡ (v ++ (58 ∷ l))
    → (u ≡ v) × (k ≡ l)
split_colon [] [] k l hu hv e = ground arith
split_colon [] (x ∷ v) k l hu hv e = ground arith
split_colon (x ∷ u) [] k l hu hv e = ground arith
split_colon (x ∷ u) (y ∷ v) k l hu hv e =
    ground (arith, split_colon u v k l hu.1 hv.1 (ground arith))

module _ {Q : Type 0} (queue : JobQueue Q) (job_id : Text) (req : Request) where
  abbrev run : Q → Outcome Reply × Q
  run = run_handler (get_report_status queue job_id req)

  answered :
      (q : Q) (job : StoredJob) (s : JobStatus)
      → (queue.get_job job_id q).0 ≡ done (some job)
      → (run q).0 ≡ send_success (job_status s) 200
      → (may_not_read req.user job ≡ false) × (s ≡ status_of job s.status)
  unfolding get_report_status status_of
  answered q job s e h = ground arith

  refused :
      (q : Q) (s : JobStatus)
      → ((job : StoredJob) → ¬ ((queue.get_job job_id q).0 ≡ done (some job)))
      → ¬ ((run q).0 ≡ send_success (job_status s) 200)
  unfolding get_report_status
  refused q s n h = refused_by (queue.get_job job_id q).0 refl n
    where
      refused_by :
          (d : Done (Option StoredJob))
          → d ≡ (queue.get_job job_id q).0
          → ((job : StoredJob) → ¬ (d ≡ done (some job)))
          → ⊥
      refused_by (done (some job)) e n' = absurd (n' job refl)
      refused_by (done none) e n' = ground arith
      refused_by (broke x) e n' = ground arith

  -- A status that is answered is that of the job with the id asked for, which belongs to the reader
  -- unless the reader is an administrator. It holds a report only where the job is completed, and it
  -- is the same for any reason that the job may have failed for.
  pub get_report_status_sound :
      (q : Q) (s : JobStatus)
      → (run_handler (get_report_status queue job_id req) q).0 ≡ send_success (job_status s) 200
      → (job : StoredJob) × ((queue.get_job job_id q).0 ≡ done (some job))
        × (((req.user.role == "ADMIN") ≡ true) ⊎ ((job.data'.user_id == req.user.id) ≡ true))
        × (s.job_id ≡ job.id)
        × (((s.status == "completed") ≡ true) ⊎ (s.report ≡ none))
        × ((reason : String) → s ≡ status_of (record job { failed_reason = reason }) s.status)
  unfolding may_not_read status_of
  get_report_status_sound q s h = elim (find_decided (queue.get_job job_id q).0) [
    | inl (job, e) ↦
        let (granted, shown) = answered q job s e h in
        (job, e, ground arith, ground arith, ground arith, λ reason. ground arith)
    | inr n ↦ absurd (refused q s n h)
  ]

  -- A job of somebody else is answered to a user as one that does not exist, by 404, and its state is
  -- not asked for.
  pub other_like_missing :
      (q q' : Q) (job : StoredJob)
      → (queue.get_job job_id q).0 ≡ done none
      → (queue.get_job job_id q').0 ≡ done (some job)
      → (req.user.role == "ADMIN") ≡ false
      → (job.data'.user_id == req.user.id) ≡ false
      → ((run_handler (get_report_status queue job_id req) q).0
          ≡ (run_handler (get_report_status queue job_id req) q').0)
        × (run_handler (get_report_status queue job_id req) q'
            ≡ (send_error "Report job not found" [] 404, (queue.get_job job_id q').1))
  unfolding get_report_status may_not_read
  other_like_missing q q' job h h' r u = ground arith

-- Two users whose ids have no colon never ask for the same job, whatever their keys are, and one user
-- does so only with the same key.
pub report_job_id_injective :
    (u v k l : String)
    → All (λ c. ¬ (c ≡ 58)) (codes u)
    → All (λ c. ¬ (c ≡ 58)) (codes v)
    → report_job_id u k ≡ report_job_id v l
    → (codes u ≡ codes v) × (codes k ≡ codes l)
unfolding report_job_id
report_job_id_injective u v k l hu hv e =
    split_colon (codes u) (codes v) (codes k) (codes l) hu hv (ground (arith, e))

-- What BullMQ documents of `add` with an id of one's own: it gives back that id or throws, and where a job
-- with this id is there it adds nothing.
pub record Deduplicates {Q : Type 0} (queue : JobQueue Q) : Type 0 where
  pub has : Text → Q → Bool
  pub added :
      (n : String) (p : JobData) (k : Text) (q : Q)
      → (((queue.add n p (some k) q).0 ≡ done k) × (has k (queue.add n p (some k) q).1 ≡ true))
        ⊎ ((x : Exception) × ((queue.add n p (some k) q).0 ≡ broke x))
  pub again :
      (n : String) (p : JobData) (k : Text) (q : Q)
      → has k q ≡ true
      → queue.add n p (some k) q ≡ (done k, q)

-- Once a user's request with a key has been accepted, repeating it with the same key, whatever else
-- the request holds, gives the same response and leaves the queue as it is.
pub request_report_idempotent :
    {Q : Type 0} (queue : JobQueue Q) (d : Deduplicates queue) (key : String) (req again : Request)
    (q q' : Q) (reply : Reply)
    → (key == "") ≡ false
    → again.user.id ≡ req.user.id
    → run_handler (request_report queue (some key) req) q ≡ (send_success reply 202, q')
    → run_handler (request_report queue (some key) again) q' ≡ (send_success reply 202, q')
unfolding request_report job_id_of enqueue_report_job
request_report_idempotent queue d key req again q q' reply k u h =
    let id = report_job_id req.user.id key in
    ground (
      arith,
      d.added "generate-report" (payload_of req) id q,
      d.again "generate-report" (payload_of again) id q',
    )
