-- ===== src/Report/Worker.antt =====
-- `processReportJob` of backend/src/services/report.service.js and the wrapper of
-- backend/src/workers/report.worker.js. The database, Redis, the mail server and the job's record
-- of its progress are parameters; the application's log lines and the metrics are left out.
use Prim.Native.String
use text.Mathlib.Text.{◌==◌}
use task.Prelude.{ℕ, String, Option, none, some, Bool, [], ◌++◌, if◌then◌else◌}
use task.Prelude.Text.{Text, codes}
use task.Http.{User, Exception, Flow, go, stop, next_error, Handler, ◌>>=◌, ◌>>◌, pure, raise}
use task.Service.Answer.{answer, thrown}
use task.Task.Model.{TaskClient, find_all}
use task.Report.Build.{Floats, Report, report_of, render_report_email}

pub record JobData : Type 0 where
  pub user_id : String
  pub role : String
  pub email : Option String
  pub request_id : String

pub record Job : Type 0 where
  pub id : Text
  pub data' : JobData

pub record Email : Type 0 where
  pub to : String
  pub subject : String
  pub text : Text

-- How a command of a service ends.
pub data Done (A : Type 0) : Type 0 where
  done : A → Done A
  broke : Exception → Done A

-- `sendEmail`, which Mail models, is `send`; `set_nx` is
-- `redis.set(key, '1', 'EX', 24 * 3600, 'NX')`, true where the reply is OK; `del` is `redis.del`;
-- `progress` is `job.updateProgress`. `now` is `Date.now()` and `iso_now` `new Date().toISOString()`.
pub record WorkerServices : Type 1 where
  pub Db : Type 0
  pub Redis : Type 0
  pub Mail : Type 0
  pub Progress : Type 0
  pub client : TaskClient Db
  pub set_nx : Text → Redis → Done Bool × Redis
  pub del : Text → Redis → Done Unit × Redis
  pub send : Email → Mail → Done Unit × Mail
  pub progress : ℕ → Progress → Done Unit × Progress
  pub floats : Floats
  pub time_of : String → Option ℕ
  pub now : ℕ
  pub iso_now : String

-- `report:email-sent:${jobId}`
unfoldable pub email_guard_key : Text → Text
email_guard_key id = codes "report:email-sent:" ++ id

-- `Failed to load tasks for report: ${error.message}`
abbrev load_failed : String → Exception
load_failed e = record {
  message = String.◌++◌ "Failed to load tasks for report: " e;
  status_code = none;
  errors = [];
}

abbrev pub injected_failure : Exception
injected_failure = record {
  message = "Injected transient failure (REPORT_FAIL_RATE)";
  status_code = none;
  errors = [];
}

module _ (s : WorkerServices) where
  open s use {
    Db, Redis, Mail, Progress, client, set_nx, del, send, progress, floats, time_of, now, iso_now,
  }

  pub record WorkerWorld : Type 0 where
    pub db : Db
    pub redis : Redis
    pub mail : Mail
    pub steps : Progress

  -- A function of the worker: it returns a value or throws.
  abbrev pub Work : Type 0 → Type 0
  Work A = Handler WorkerWorld Report A

  abbrev settle : {A : Type 0} → Done A → WorkerWorld → Flow Report A × WorkerWorld
  settle (done a) w = (go a, w)
  settle (broke x) w = (stop (next_error x), w)

  unfoldable pub update_progress : ℕ → Work Unit
  update_progress n w = let (d, steps) = progress n w.steps in settle d (record w { steps = steps })

  -- `buildReport`
  unfoldable pub build_report : User → Work Report
  build_report user w =
      let (a, db) = find_all client user w.db in
      elim a [
        | thrown x ↦ (stop (next_error x), record w { db = db })
        | answer rows (some e) ↦ (stop (next_error (load_failed e)), record w { db = db })
        | answer (some rows) none ↦
            (go (report_of floats time_of now iso_now user rows), record w { db = db })
        | answer none none ↦
            (go (report_of floats time_of now iso_now user []), record w { db = db })
      ]

  unfoldable pub claim_email_send : Text → Work Bool
  claim_email_send id w =
      let (d, redis) = set_nx (email_guard_key id) w.redis in settle d (record w { redis = redis })

  unfoldable pub release_email_claim : Text → Work Unit
  release_email_claim id w =
      let (d, redis) = del (email_guard_key id) w.redis in settle d (record w { redis = redis })

  -- `sendEmail`, and what `catch` does when it throws: release the claim, and throw the same error.
  unfoldable pub send_or_release : Text → Email → Work Unit
  unfolding release_email_claim
  send_or_release id m w =
      let (d, mail) = send m w.mail in
      let w' : WorkerWorld = record w { mail = mail } in
      elim d [ done u ↦ (go tt, w') | broke x ↦ (release_email_claim id >> raise x) w' ]

  -- The second part of the job: the notification, `if (email)`.
  unfoldable pub notify : Job → Report → Option String → Work Unit
  unfolding claim_email_send send_or_release
  notify job report none = pure tt
  notify job report (some to) = if to == "" then pure tt else do
    claimed ← claim_email_send job.id
    if claimed
        then send_or_release job.id (record {
          to = to;
          subject = "Your TaskFlow report is ready";
          text = render_report_email report;
        })
        else pure tt

  -- `if (reportFailRate > 0 && Math.random() < reportFailRate) throw ...`
  unfoldable pub inject : Bool → Work Unit
  inject fires = if fires then raise injected_failure else pure tt

  -- `injected` says that the fault injection fires: `reportFailRate > 0 && Math.random() < rate`.
  -- The configured delay has no effect on the state.
  unfoldable pub process_report_job : Bool → Job → Work Report
  process_report_job injected job = do
    update_progress 10
    inject injected
    report ← build_report (record { id = job.data'.user_id; email = ""; role = job.data'.role })
    update_progress 70
    notify job report job.data'.email
    update_progress 100
    pure report
