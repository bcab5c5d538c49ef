-- ===== src/Report/Tests.antt =====
-- Tests of the reports, and the theorems at concrete inputs.
use text.Mathlib.Text.{◌==◌ as str_eq}
use task.Report.Samples.{floats, rows, new_job, queue, queue-Deduplicates, key, jobs, failed}
use task.Prelude.{◌+◌, ◌≤◌, ◌≡◌, ◌⊎◌, refl, String, none, some, true, [], ◌∷◌, arith, length, ◌++◌}
use task.Prelude.Text.{codes, text_eq}
use task.Prelude.Sorting.{All}
use task.Http.{run_handler, send_success, send_error}
use task.Service.Sample.{alice, bob, request_of}
use task.Task.Types.{pending, completed, in_progress}
use task.Report.Build.{report_of, is_overdue}
use task.Report.Counts.{count, has_status, report_of-counts}
use task.Report.Worker.{done}
use task.Report.Jobs.{
  StoredJob, queued, job_status, status_of, get_report_status, request_report, payload_of,
  job_id_of,
}
use task.Report.Access.{
  get_report_status_sound, other_like_missing, request_report_idempotent, report_job_id_injective,
}

report_of-counts_example :
    let r = report_of floats (λ d. some 5) 9 "now" alice rows in
    (r.counts.pending ≡ count (has_status pending) rows)
    × (r.counts.in_progress ≡ count (has_status in_progress) rows)
    × (r.counts.completed ≡ count (has_status completed) rows)
    × (r.counts.overdue ≡ count (is_overdue (λ d. some 5) 9) rows)
    × (r.counts.pending + r.counts.in_progress + r.counts.completed ≡ r.total)
    × (r.total ≡ length rows)
    × (r.counts.overdue + r.counts.completed ≤ r.total)
report_of-counts_example = report_of-counts floats (λ d. some 5) 9 "now" alice rows

found :
    (queue.get_job (codes "7") jobs).0
    ≡ done (some (new_job (payload_of (request_of alice)) (codes "7")))
unfolding text_eq
found = refl

no_colon : All (λ c. ¬ (c ≡ 58)) (codes "alice")
no_colon = (
  (λ e. ground arith),
  ((λ e. ground arith), ((λ e. ground arith), ((λ e. ground arith), ((λ e. ground arith), tt)))),
)

alice_reads :
    (run_handler (get_report_status queue (codes "7") (request_of alice)) jobs).0
    ≡ send_success (job_status failed) 200
unfolding get_report_status status_of text_eq
alice_reads = refl

get_report_status_sound_example :
    (j : StoredJob) × ((queue.get_job (codes "7") jobs).0 ≡ done (some j))
    × (((str_eq (request_of alice).user.role "ADMIN") ≡ true)
        ⊎ ((str_eq j.data'.user_id (request_of alice).user.id) ≡ true))
    × (failed.job_id ≡ j.id)
    × (((str_eq failed.status "completed") ≡ true) ⊎ (failed.report ≡ none))
    × ((reason : String) → failed ≡ status_of (record j { failed_reason = reason }) failed.status)
get_report_status_sound_example =
    get_report_status_sound queue (codes "7") (request_of alice) jobs failed alice_reads

other_like_missing_example :
    ((run_handler (get_report_status queue (codes "7") (request_of bob)) []).0
      ≡ (run_handler (get_report_status queue (codes "7") (request_of bob)) jobs).0)
    × (run_handler (get_report_status queue (codes "7") (request_of bob)) jobs
        ≡ (send_error "Report job not found" [] 404, (queue.get_job (codes "7") jobs).1))
other_like_missing_example =
    other_like_missing queue (codes "7") (request_of bob) [] jobs
      (new_job (payload_of (request_of alice)) (codes "7")) refl found refl refl

alice_asks : run_handler (request_report queue (some "k") (request_of alice)) [] ≡ (
  send_success (queued key "queued" (codes "/api/v1/reports/" ++ key)) 202,
  new_job (payload_of (request_of alice)) key ∷ [],
)
unfolding request_report job_id_of
alice_asks = refl

request_report_idempotent_example :
    run_handler
      (request_report queue (some "k") (record (request_of alice) { request_id = "s" }))
      (new_job (payload_of (request_of alice)) key ∷ [])
    ≡ (
      send_success (queued key "queued" (codes "/api/v1/reports/" ++ key)) 202,
      new_job (payload_of (request_of alice)) key ∷ [],
    )
request_report_idempotent_example =
    request_report_idempotent queue queue-Deduplicates "k" (request_of alice)
      (record (request_of alice) { request_id = "s" }) [] _ _ refl refl alice_asks

report_job_id_injective_example : (codes "alice" ≡ codes "alice") × (codes "k" ≡ codes "k")
report_job_id_injective_example =
    report_job_id_injective "alice" "alice" "k" "k" no_colon no_colon refl
