-- ===== src/Report/Station.antt =====
-- The worker's process: backend/src/workers/report.worker.js, backend/src/workers/metricsServer.js,
-- the end of backend/worker.js, and the queue and its connection of backend/src/queue/. BullMQ,
-- ioredis and prom-client are parameters; the log's lines are the records given to it.
use text.Mathlib.Text.{◌==◌}
use task.Prelude.{
  ℕ, zero, suc, ◌+◌, ◌*◌, String, Option, none, some, Bool, false, List, [], ◌∷◌, if◌then◌else◌,
  ltb,
}
use task.Prelude.Text.{Text, codes}
use task.Http.{Flow, Exception}
use task.Report.Build.{Report}
use task.Report.Worker.{Job, Done, done, broke, WorkerServices, WorkerWorld, process_report_job}
use task.Report.Jobs.{StoredJob}

-- `logger.error('Report job failed', ...)`; `jobId` is none where BullMQ gives no job.
pub record FailureLine : Type 0 where
  pub job_id : Option Text
  pub attempts_made : ℕ
  pub max_attempts : ℕ
  pub will_retry : Bool
  pub error : String

-- `report_jobs_total` by its label, `report_job_duration_seconds` as the number of its observations,
-- and the lines of failures, the last one first.
pub record Station : Type 0 where
  pub completed : ℕ
  pub failed : ℕ
  pub observed : ℕ
  pub failures : List FailureLine

-- `a || b` for a number that may be missing.
abbrev number_or : Option ℕ → ℕ → ℕ
number_or none b = b
number_or (some zero) b = b
number_or (some (suc n)) b = suc n

abbrev id_of : Option StoredJob → Option Text
id_of none = none
id_of (some job) = some job.id

abbrev attempts_of : Option StoredJob → ℕ
attempts_of none = 0
attempts_of (some job) = job.attempts_made

abbrev limit_of : Option StoredJob → Option ℕ
limit_of none = none
limit_of (some job) = some job.max_attempts

-- The listener of `completed`.
unfoldable pub on_completed : Station → Station
on_completed s = record s { completed = s.completed + 1 }

-- The listener of `failed`.
unfoldable pub on_failed : ℕ → Option StoredJob → Exception → Station → Station
on_failed report_queue_attempts job err s =
    let attempts_made = attempts_of job in
    let max_attempts = number_or (limit_of job) report_queue_attempts in
    record s {
      failed = s.failed + 1;
      failures =
          record {
            job_id = id_of job;
            attempts_made = attempts_made;
            max_attempts = max_attempts;
            will_retry = ltb attempts_made max_attempts;
            error = err.message;
          }
          ∷ s.failures;
    }

-- `instrumentedProcessor`: the timer stops however the attempt ends.
unfoldable pub instrumented_processor :
    (s : WorkerServices)
    → Bool
    → Job
    → WorkerWorld s × Station
    → Flow Report Report × (WorkerWorld s × Station)
instrumented_processor s injected job (w, station) =
    let (r, w') = process_report_job s injected job w in
    (r, (w', record station { observed = station.observed + 1 }))

-- A response of the metrics server.
pub record Plain : Type 0 where
  pub status : ℕ
  pub content_type : Option String
  pub body : Text

-- The part of the handler that `/metrics` reaches: `register.metrics()` gives a text or throws.
abbrev metrics_reply : String → (Exception → Text) → Done Text → Plain
metrics_reply type text_of (done m) = record { status = 200; content_type = some type; body = m }
metrics_reply type text_of (broke x) = record {
  status = 500;
  content_type = some type;
  body = text_of x;
}

unfoldable pub metrics_server : String → (Exception → Text) → Done Text → String → Plain
metrics_server type text_of metrics url =
    if url == "/metrics"
    then metrics_reply type text_of metrics
    else if url == "/health"
    then record { status = 200; content_type = none; body = codes "ok" }
    else record { status = 404; content_type = none; body = codes "not found" }

-- The options of `new IORedis(...)` for BullMQ.
pub record QueueConnection : Type 0 where
  pub redis_url : String
  pub max_retries_per_request : Option ℕ
  pub enable_ready_check : Bool
  pub retry_strategy : ℕ → ℕ

unfoldable pub create_queue_connection : String → QueueConnection
create_queue_connection redis_url = record {
  redis_url = redis_url;
  max_retries_per_request = none;
  enable_ready_check = false;
  retry_strategy = λ times. if ltb (times * 200) 5000 then times * 200 else 5000;
}

-- The options of `new Queue(...)`; the ages are in seconds and the delay in milliseconds.
pub record QueueOptions : Type 0 where
  pub name : String
  pub connection : QueueConnection
  pub attempts : ℕ
  pub backoff_type : String
  pub backoff_delay : ℕ
  pub complete_age : ℕ
  pub complete_count : ℕ
  pub fail_age : ℕ

unfoldable pub queue_options : String → ℕ → QueueOptions
queue_options redis_url report_queue_attempts = record {
  name = "reports";
  connection = create_queue_connection redis_url;
  attempts = report_queue_attempts;
  backoff_type = "exponential";
  backoff_delay = 2000;
  complete_age = 3600;
  complete_count = 500;
  fail_age = 24 * 3600;
}

-- The variable `reportQueue`, where `create` is `new Queue(...)` and `close` is `reportQueue.close()`.
module _ {Queue : Type 0} where
  unfoldable pub get_report_queue :
      (QueueOptions → Queue) → QueueOptions → Option Queue → Queue × Option Queue
  get_report_queue create options none = let q = create options in (q, some q)
  get_report_queue create options (some q) = (q, some q)

  -- A queue whose closing throws stays in the variable.
  unfoldable pub close_report_queue : (Queue → Done Unit) → Option Queue → Done Unit × Option Queue
  close_report_queue close none = (done tt, none)
  close_report_queue close (some q) = elim (close q) [
    | done u ↦ (done tt, none)
    | broke x ↦ (broke x, some q)
  ]

-- `shutdown` of worker.js: the closings in order, up to the first that throws, and the exit code.
-- Each says whether it has been carried out.
pub record Closings : Type 0 where
  pub worker : Done Unit
  pub metrics_server : Done Unit
  pub report_queue : Done Unit
  pub redis : Done Unit

abbrev tried : List (Done Unit) → ℕ × ℕ
tried [] = (0, 0)
tried (done u ∷ rest) = let (code, n) = tried rest in (code, n + 1)
tried (broke x ∷ rest) = (1, 1)

-- The exit code, and how many closings were called.
unfoldable pub shut_down : Closings → ℕ × ℕ
shut_down c = tried (c.worker ∷ c.metrics_server ∷ c.report_queue ∷ c.redis ∷ [])
