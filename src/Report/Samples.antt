-- ===== src/Report/Samples.antt =====
-- Services for the tests of the reports, which meet the laws that the theorems assume.
use task.Prelude.{
  ℕ, ◌+◌, ◌≤◌, ◌≡◌, refl, String, Option, none, some, Bool, true, false, List, [], ◌∷◌, arith, leb,
  if◌then◌else◌, ◌||◌,
}
use task.Prelude.Text.{Text, codes, text_eq, text_eq_iff}
use task.Service.Sample.{alice, request_of}
use task.Task.Types.{Task, pending, completed}
use task.Task.Memory.{Memory, memory_client}
use task.Report.Build.{Floats}
use task.Report.Counts.{Rounding}
use task.Report.Worker.{JobData, Job, Done, done, WorkerServices, WorkerWorld}
use task.Report.Attempts.{Exact}
use task.Report.Jobs.{StoredJob, JobQueue, JobStatus, report_job_id, payload_of}
use task.Report.Access.{Deduplicates}

-- A coarse arithmetic that keeps the laws: a quotient is 100 or 0.
abbrev pub floats : Floats
floats = record {
  Float = ℕ;
  div = λ a n. if leb n a then 100 else 0;
  times_hundred = λ x. x;
  round = λ x. x;
}

pub floats-Rounding : Rounding floats
floats-Rounding = record {
  le = λ x y. x ≤ y;
  div_mono = λ a b n h. ground arith;
  times_hundred_mono = λ x y h. h;
  round_mono = λ x y h. h;
  whole = λ n h. ground arith;
  nothing = λ n h. ground arith;
}

abbrev pub task_of : String → Task
task_of id = record {
  id = id;
  title = "t";
  description = none;
  status = completed;
  due_date = some "d";
  user_id = some "alice";
  created_at = "c";
  updated_at = "u";
}

abbrev pub open_task : Task
open_task = record (task_of "2") { status = pending }

abbrev pub rows : List Task
rows = task_of "1" ∷ open_task ∷ []

-- Redis as the list of the keys that are set, and a mail server that counts.
abbrev in_list : Text → List Text → Bool
in_list k [] = false
in_list k (x ∷ r) = text_eq x k || in_list k r

abbrev pub worker : WorkerServices
worker = record {
  Db = Memory;
  Redis = List Text;
  Mail = ℕ;
  Progress = ℕ;
  client = memory_client;
  set_nx = λ k r. if in_list k r then (done false, r) else (done true, k ∷ r);
  del = λ k r. (done tt, r);
  send = λ m n. (done tt, n + 1);
  progress = λ n p. (done tt, n);
  floats = floats;
  time_of = λ d. some 5;
  now = 9;
  iso_now = "now";
}

pub claims_lem :
    (k : Text) (r : List Text)
    → (worker.set_nx k r).0 ≡ done true
    → (in_list k r ≡ false) × (in_list k (worker.set_nx k r).1 ≡ true)
claims_lem k r e = ground (arith, text_eq_iff k k)

pub keeps_claims_lem :
    (k : Text) (r : List Text) → in_list k r ≡ true → in_list k (worker.set_nx k r).1 ≡ true
keeps_claims_lem k r h = ground arith

abbrev pub worker_exact : Exact worker
worker_exact = record {
  held = in_list;
  delivered = λ n. n;
  claims = claims_lem;
  keeps_claims = keeps_claims_lem;
  counts = λ m b. refl;
}

abbrev pub job : Job
job = record {
  id = codes "1";
  data' = record { user_id = "alice"; role = "USER"; email = some "a@x"; request_id = "r" };
}

abbrev pub start : WorkerWorld worker
start = record { db = record { tasks = rows; deleted = [] }; redis = []; mail = 0; steps = 0 }

-- A queue as the list of its jobs.
abbrev find_job : Text → List StoredJob → Option StoredJob
find_job k [] = none
find_job k (j ∷ js) = if text_eq j.id k then some j else find_job k js

abbrev has_job : Text → List StoredJob → Bool
has_job k [] = false
has_job k (j ∷ js) = text_eq j.id k || has_job k js

abbrev pub new_job : JobData → Text → StoredJob
new_job p k = record {
  id = k;
  data' = p;
  progress = 0;
  attempts_made = 0;
  max_attempts = 3;
  return_value = none;
  failed_reason = "no route to host";
}

abbrev add_job : JobData → Option Text → List StoredJob → Done Text × List StoredJob
add_job p none js = (done (codes "9"), new_job p (codes "9") ∷ js)
add_job p (some k) js = if has_job k js then (done k, js) else (done k, new_job p k ∷ js)

abbrev pub queue : JobQueue (List StoredJob)
queue = record {
  add = λ n p k js. add_job p k js;
  get_job = λ k js. (done (find_job k js), js);
  get_state = λ j js. (done "failed", js);
}

pub queue-Deduplicates : Deduplicates queue
queue-Deduplicates = record {
  has = has_job;
  added = λ n p k js. ground (arith, text_eq_iff k k);
  again = λ n p k js h. ground arith;
}

abbrev pub key : Text
key = report_job_id "alice" "k"

abbrev pub jobs : List StoredJob
jobs = new_job (payload_of (request_of alice)) (codes "7") ∷ []

abbrev pub failed : JobStatus
failed = record {
  job_id = codes "7";
  status = "failed";
  progress = 0;
  attempts_made = 0;
  max_attempts = 3;
  report = none;
  error = some "Report generation failed. Please try again later.";
}
