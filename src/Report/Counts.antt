-- ===== src/Report/Counts.antt =====
-- The figures of a report (backend/src/services/report.service.js) against plain counts.
use task.Prelude.{
  ℕ, zero, suc, ◌+◌, ◌≤◌, ◌<◌, ◌≡◌, refl, String, Option, Bool, true, false, List, [], ◌∷◌, arith,
  length, if◌then◌else◌,
}
use task.Prelude.Sorting.{Shuffle, Insertion, nil, cons, here, there}
use task.Http.{User}
use task.Task.Types.{Task, TaskStatus, pending, in_progress, completed}
use task.Report.Build.{
  Floats, Counts, Report, no_counts, count_row, count_rows, is_overdue, completion_rate, report_of,
  is_completed,
}

-- How many tasks pass a test.
pub count : (Task → Bool) → List Task → ℕ
count p [] = 0
count p (t ∷ ts) = (if p t then 1 else 0) + count p ts

abbrev pub has_status : TaskStatus → Task → Bool
has_status s t = elim s [
  | pending ↦ elim t.status [ pending ↦ true | _ ↦ false ]
  | in_progress ↦ elim t.status [ in_progress ↦ true | _ ↦ false ]
  | completed ↦ is_completed t.status
]

module _ (time_of : String → Option ℕ) (now : ℕ) where
  count_row_lem :
      (c : Counts) (t : Task)
      → let c' = count_row time_of now c t in
        (c'.pending ≡ c.pending + (if has_status pending t then 1 else 0))
        × (c'.in_progress ≡ c.in_progress + (if has_status in_progress t then 1 else 0))
        × (c'.completed ≡ c.completed + (if has_status completed t then 1 else 0))
        × (c'.overdue ≡ c.overdue + (if is_overdue time_of now t then 1 else 0))
  unfolding count_row
  count_row_lem c t = ground arith

  count_rows_lem :
      (c : Counts) (ts : List Task)
      → let c' = count_rows time_of now c ts in
        (c'.pending ≡ c.pending + count (has_status pending) ts)
        × (c'.in_progress ≡ c.in_progress + count (has_status in_progress) ts)
        × (c'.completed ≡ c.completed + count (has_status completed) ts)
        × (c'.overdue ≡ c.overdue + count (is_overdue time_of now) ts)
  unfolding count_rows count
  count_rows_lem c [] = omega arith
  count_rows_lem c (t ∷ ts) =
      let (p, i, d, o) = count_row_lem c t in
      let (p', i', d', o') = count_rows_lem (count_row time_of now c t) ts in omega arith

length-Insertion : {t : Task} {ys zs : List Task} → Insertion t ys zs → length zs ≡ length ys + 1
length-Insertion here = omega arith
length-Insertion (there i) = omega (arith, length-Insertion i)

pub length-Shuffle : {xs ys : List Task} → Shuffle xs ys → length xs ≡ length ys
length-Shuffle nil = refl
length-Shuffle (cons i sh) = omega (arith, length-Insertion i, length-Shuffle sh)

statuses_partition :
    (ts : List Task)
    → count (has_status pending) ts
        + count (has_status in_progress) ts
        + count (has_status completed) ts
      ≡ length ts
unfolding count
statuses_partition [] = omega arith
statuses_partition (t ∷ ts) = ground (arith, statuses_partition ts)

overdue-le-open :
    (time_of : String → Option ℕ) (now : ℕ) (ts : List Task)
    → count (is_overdue time_of now) ts + count (has_status completed) ts ≤ length ts
unfolding count is_overdue
overdue-le-open time_of now [] = omega arith
overdue-le-open time_of now (t ∷ ts) = ground (arith, overdue-le-open time_of now ts)

-- What IEEE 754 and `Math.round` guarantee: the three operations are monotone, `n / n` is 1 and
-- `0 / n` is 0 for `n > 0`, and 100 and 0 are exact.
pub record Rounding (f : Floats) : Type 1 where
  pub le : f.Float → f.Float → Type 0
  pub div_mono : (a b n : ℕ) → a ≤ b → le (f.div a n) (f.div b n)
  pub times_hundred_mono : (x y : f.Float) → le x y → le (f.times_hundred x) (f.times_hundred y)
  pub round_mono : (x y : f.Float) → le x y → f.round x ≤ f.round y
  pub whole : (n : ℕ) → 0 < n → f.round (f.times_hundred (f.div n n)) ≡ 100
  pub nothing : (n : ℕ) → 0 < n → f.round (f.times_hundred (f.div 0 n)) ≡ 0

completion_rate-le :
    (f : Floats) (r : Rounding f) (done total : ℕ)
    → done ≤ total
    → completion_rate f done total ≤ 100
unfolding completion_rate
completion_rate-le f r done zero h = omega arith
completion_rate-le f r done (suc n) h =
    let below = r.round_mono _ _ (r.times_hundred_mono _ _ (r.div_mono done (suc n) (suc n) h)) in
    ground (arith, below, r.whole (suc n) (omega arith))

completion_rate_zero :
    (f : Floats) (r : Rounding f) (done total : ℕ) → done ≡ 0 → completion_rate f done total ≡ 0
unfolding completion_rate
completion_rate_zero f r done zero h = refl
completion_rate_zero f r done (suc n) h = rw h (ground (arith, r.nothing (suc n) (omega arith)))

completion_rate_full :
    (f : Floats) (r : Rounding f) (done total : ℕ)
    → 0 < total
    → done ≡ total
    → completion_rate f done total ≡ 100
unfolding completion_rate
completion_rate_full f r done zero h e = absurd (omega arith)
completion_rate_full f r done (suc n) h e = rw e (ground (arith, r.whole (suc n) h))

module _ (f : Floats) (time_of : String → Option ℕ) (now : ℕ) (at : String) (user : User) where
  abbrev report : List Task → Report
  report = report_of f time_of now at user

  -- The figures of a report: each status is counted exactly, the three counts add up to the total,
  -- which is the number of rows; the overdue tasks are those past their date and not completed, and
  -- are no more than the tasks that are not completed.
  pub report_of-counts :
      (ts : List Task)
      → let r = report ts in
        (r.counts.pending ≡ count (has_status pending) ts)
        × (r.counts.in_progress ≡ count (has_status in_progress) ts)
        × (r.counts.completed ≡ count (has_status completed) ts)
        × (r.counts.overdue ≡ count (is_overdue time_of now) ts)
        × (r.counts.pending + r.counts.in_progress + r.counts.completed ≡ r.total)
        × (r.total ≡ length ts)
        × (r.counts.overdue + r.counts.completed ≤ r.total)
  unfolding report_of
  report_of-counts ts =
      let (p, i, d, o) = count_rows_lem time_of now no_counts ts in
      omega (arith, statuses_partition ts, overdue-le-open time_of now ts)

  -- The completion rate is at most 100; it is 0 where there are no tasks or none is completed, and
  -- 100 where there are tasks and all are completed.
  report_of-rate :
      (r : Rounding f) (ts : List Task)
      → let rate = (report ts).completion_rate in
        (rate ≤ 100)
        × (count (has_status completed) ts ≡ 0 → rate ≡ 0)
        × (0 < length ts → count (has_status completed) ts ≡ length ts → rate ≡ 100)
  unfolding report_of
  report_of-rate r ts =
      let (p, i, d, o) = count_rows_lem time_of now no_counts ts in
      let bound = overdue-le-open time_of now ts in
      (
        completion_rate-le f r _ (length ts) (omega arith),
        λ none_done. completion_rate_zero f r _ (length ts) (omega arith),
        λ some_rows all_done. completion_rate_full f r _ (length ts) some_rows (omega arith),
      )
