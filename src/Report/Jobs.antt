-- ===== src/Report/Jobs.antt =====
-- `requestReport` and `getReportStatus` of backend/src/controllers/report.controller.js, and
-- `enqueueReportJob` of backend/src/queue/reportQueue.js. BullMQ's queue is a parameter; the options
-- of the queue are left out.
use text.Mathlib.Text.{◌==◌}
use task.Prelude.{ℕ, String, Option, none, some, Bool, not, [], ◌&&◌, ◌++◌, if◌then◌else◌}
use task.Prelude.Text.{Text, codes}
use task.Http.{
  User, Flow, go, stop, next_error, Outcome, Handler, Request, ◌>>=◌, ◌>>◌, pure, finish, return_if,
  send_success, send_error,
}
use task.Report.Build.{Report}
use task.Report.Worker.{JobData, Done, done, broke}

-- A job as BullMQ keeps it.
pub record StoredJob : Type 0 where
  pub id : Text
  pub data' : JobData
  pub progress : ℕ
  pub attempts_made : ℕ
  pub max_attempts : ℕ
  pub return_value : Option Report
  pub failed_reason : String

-- `queue.add(name, payload, { jobId })` gives back the id of a job, `queue.getJob(id)` the job if
-- there is one, and `job.getState()` its state.
pub record JobQueue (Q : Type 0) : Type 0 where
  pub add : String → JobData → Option Text → Q → Done Text × Q
  pub get_job : Text → Q → Done (Option StoredJob) × Q
  pub get_state : StoredJob → Q → Done String × Q

-- `report` and `error` are fields that a response may lack.
pub record JobStatus : Type 0 where
  pub job_id : Text
  pub status : String
  pub progress : ℕ
  pub attempts_made : ℕ
  pub max_attempts : ℕ
  pub report : Option Report
  pub error : Option String

pub data Reply : Type 0 where
  queued : Text → String → Text → Reply
  job_status : JobStatus → Reply

-- `report:${req.user.id}:${idempotencyKey}`
unfoldable pub report_job_id : String → String → Text
report_job_id user_id key = codes "report:" ++ (codes user_id ++ (codes ":" ++ codes key))

-- `idempotencyKey ? ... : undefined`: a header that is missing or empty gives no id.
unfoldable pub job_id_of : String → Option String → Option Text
job_id_of user_id none = none
job_id_of user_id (some key) = if key == "" then none else some (report_job_id user_id key)

-- `payload`
abbrev pub payload_of : Request → JobData
payload_of req = record {
  user_id = req.user.id;
  role = req.user.role;
  email = some req.user.email;
  request_id = req.request_id;
}

-- `req.user.role !== 'ADMIN' && job.data.userId !== req.user.id`
unfoldable pub may_not_read : User → StoredJob → Bool
may_not_read user job = not (user.role == "ADMIN") && not (job.data'.user_id == user.id)

-- The fields that depend on the state.
unfoldable pub status_of : StoredJob → String → JobStatus
status_of job state =
    let response : JobStatus = record {
      job_id = job.id;
      status = state;
      progress = job.progress;
      attempts_made = job.attempts_made;
      max_attempts = job.max_attempts;
      report = none;
      error = none;
    } in
    if state == "completed"
    then record response { report = job.return_value }
    else if state == "failed"
    then record response { error = some "Report generation failed. Please try again later." }
    else response

module _ {Q : Type 0} (queue : JobQueue Q) where
  open queue use {add, get_job, get_state}

  abbrev Step : Type 0 → Type 0
  Step A = Handler Q Reply A

  abbrev settle : {A : Type 0} → Done A × Q → Flow Reply A × Q
  settle (d, q) = elim d [ done a ↦ (go a, q) | broke x ↦ (stop (next_error x), q) ]

  unfoldable pub enqueue_report_job : JobData → Option Text → Step Text
  enqueue_report_job payload job_id q = settle (add "generate-report" payload job_id q)

  unfoldable pub request_report : Option String → Request → Step (Outcome Reply)
  unfolding enqueue_report_job job_id_of
  request_report idempotency_key req = do
    job_id ← enqueue_report_job (payload_of req) (job_id_of req.user.id idempotency_key)
    pure (send_success (queued job_id "queued" (codes "/api/v1/reports/" ++ job_id)) 202)

  -- The part of `getReportStatus` behind the guard.
  answer_status : StoredJob → Step (Outcome Reply)
  unfolding status_of
  answer_status job = do
    state ← λ q. settle (get_state job q)
    pure (send_success (job_status (status_of job state)) 200)

  unfoldable pub get_report_status : Text → Request → Step (Outcome Reply)
  unfolding answer_status may_not_read
  get_report_status job_id req = do
    found ← λ q. settle (get_job job_id q)
    elim found [
      | none ↦ finish (send_error "Report job not found" [] 404)
      | some job ↦ do
        return_if (may_not_read req.user job) (send_error "Report job not found" [] 404)
        answer_status job
    ]
