-- ===== src/Report/ProcessTests.antt =====
-- Tests of the worker's process, and of attempts that are made at the same time.
use task.Prelude.{ℕ, ◌≡◌, ◌≤◌, ◌+◌, ◌++◌, refl, none, some, false, List, [], ◌∷◌, map, replicate}
use task.Prelude.Text.{codes}
use task.Http.{Exception}
use task.Async.{interleave}
use task.Report.Samples.{worker, worker_exact, job, start}
use task.Report.Worker.{done, broke}
use task.Report.Jobs.{StoredJob}
use task.Report.Concurrent.{processing}
use task.Report.Exclusive.{interleave-delivered}
use task.Report.Station.{
  Station, metrics_server, shut_down, get_report_queue, close_report_queue, queue_options,
  create_queue_connection,
}

-- Two workers take turns at one job.
abbrev taking_turns : List ℕ
taking_turns = replicate 4 0 ++ replicate 5 1 ++ replicate 4 0 ++ replicate 4 1

interleave-delivered_example :
    worker_exact.delivered
      (interleave taking_turns start (map (processing worker job) (false ∷ false ∷ []))).world.mail
    ≤ worker_exact.delivered start.mail + 1
interleave-delivered_example =
    interleave-delivered worker worker_exact job (false ∷ false ∷ []) taking_turns start

abbrev failure : Exception
failure = record { message = "down"; status_code = none; errors = [] }

abbrev stored : StoredJob
stored = record {
  id = codes "7";
  data' = job.data';
  progress = 0;
  attempts_made = 0;
  max_attempts = 3;
  return_value = none;
  failed_reason = "";
}

abbrev idle : Station
idle = record { completed = 0; failed = 0; observed = 0; failures = [] }

not_found :
    metrics_server "text/plain" (λ x. codes "x") (done (codes "m")) "/x"
    ≡ record { status = 404; content_type = none; body = codes "not found" }
unfolding metrics_server
not_found = refl

-- Redis is not closed where the queue's closing throws, and the process exits with 1.
stuck :
    shut_down (record {
      worker = done tt;
      metrics_server = done tt;
      report_queue = broke failure;
      redis = done tt;
    })
    ≡ (1, 3)
unfolding shut_down
stuck = refl

-- The queue is made once, and again after it has been closed.
one_queue :
    let options = queue_options "redis" 3 in
    let (q, kept) = get_report_queue (λ o. o.attempts) options none in
    (get_report_queue (λ o. 9) options kept ≡ (3, some 3))
    × (close_report_queue (λ q. done tt) kept ≡ (done tt, none))
unfolding get_report_queue close_report_queue queue_options create_queue_connection
one_queue = (refl, refl)
