-- ===== src/Report/Build.antt =====
-- `buildReport` and `renderReportEmail` of backend/src/services/report.service.js.
use text.Mathlib.Text.{◌==◌ as str_eq}
use task.Prelude.{
  ℕ, ◌+◌, String, Option, none, some, Bool, true, false, not, ◌&&◌, List, [], ◌∷◌, ◌++◌, ltb,
  length, if◌then◌else◌, ◌==◌,
}
use task.Prelude.Text.{Text, codes, join}
use task.Http.{User}
use task.Audit.Json.{decimal}
use task.Task.Types.{Task, TaskStatus, pending, in_progress, completed}

-- JavaScript's numbers, as far as the completion rate needs them: `a / b`, `x * 100` and
-- `Math.round`.
pub record Floats : Type 1 where
  pub Float : Type 0
  pub div : ℕ → ℕ → Float
  pub times_hundred : Float → Float
  pub round : Float → ℕ

-- `byStatus` and `overdue`
pub record Counts : Type 0 where
  pub pending : ℕ
  pub in_progress : ℕ
  pub completed : ℕ
  pub overdue : ℕ

abbrev pub no_counts : Counts
no_counts = record { pending = 0; in_progress = 0; completed = 0; overdue = 0 }

pub data Scope : Type 0 where
  all_users own : Scope

pub record Report : Type 0 where
  pub scope : Scope
  pub user_id : String
  pub role : String
  pub total : ℕ
  pub counts : Counts
  pub completion_rate : ℕ
  pub generated_at : String

-- `byStatus[task.status] += 1`
abbrev bump : TaskStatus → Counts → Counts
bump pending c = record c { pending = c.pending + 1 }
bump in_progress c = record c { in_progress = c.in_progress + 1 }
bump completed c = record c { completed = c.completed + 1 }

abbrev pub is_completed : TaskStatus → Bool
is_completed completed = true
is_completed _ = false

-- Whether a date is there, is a date, and lies before `now`. A text that is empty is no date, and
-- a comparison with the time of a text that is no date fails; `time_of` is `new Date(s).getTime()`.
abbrev is_past : (String → Option ℕ) → ℕ → Option String → Bool
is_past time_of now none = false
is_past time_of now (some d) =
    not (str_eq d "") && elim (time_of d) [ none ↦ false | some t ↦ ltb t now ]

-- `task.due_date && task.status !== 'COMPLETED' && new Date(task.due_date).getTime() < now`
unfoldable pub is_overdue : (String → Option ℕ) → ℕ → Task → Bool
is_overdue time_of now t = is_past time_of now t.due_date && not (is_completed t.status)

-- The body of the loop over the rows.
unfoldable pub count_row : (String → Option ℕ) → ℕ → Counts → Task → Counts
unfolding is_overdue
count_row time_of now c t =
    let c' = bump t.status c in
    if is_overdue time_of now t then record c' { overdue = c'.overdue + 1 } else c'

unfoldable pub count_rows : (String → Option ℕ) → ℕ → Counts → List Task → Counts
count_rows time_of now c [] = c
count_rows time_of now c (t ∷ ts) = count_rows time_of now (count_row time_of now c t) ts

-- `total ? Math.round((completed / total) * 100) : 0`
unfoldable pub completion_rate : Floats → ℕ → ℕ → ℕ
completion_rate f done total =
    if total == 0 then 0 else f.round (f.times_hundred (f.div done total))

abbrev scope_of : String → Scope
scope_of role = if str_eq role "ADMIN" then all_users else own

-- The part of `buildReport` behind the query, for the rows `tasks || []`.
unfoldable pub report_of : Floats → (String → Option ℕ) → ℕ → String → User → List Task → Report
unfolding count_rows completion_rate
report_of f time_of now generated_at user rows =
    let c = count_rows time_of now no_counts rows in
    record {
      scope = scope_of user.role;
      user_id = user.id;
      role = user.role;
      total = length rows;
      counts = c;
      completion_rate = completion_rate f c.completed (length rows);
      generated_at = generated_at;
    }

abbrev scope_text : Scope → Text
scope_text all_users = codes "ALL_USERS"
scope_text own = codes "OWN"

unfoldable pub render_report_email : Report → Text
unfolding decimal join
render_report_email r = join (codes "\n") (
    codes "Your TaskFlow report is ready."
    ∷ []
    ∷ (codes "Scope:           " ++ scope_text r.scope)
    ∷ (codes "Total tasks:     " ++ decimal r.total)
    ∷ (codes "  Pending:       " ++ decimal r.counts.pending)
    ∷ (codes "  In progress:   " ++ decimal r.counts.in_progress)
    ∷ (codes "  Completed:     " ++ decimal r.counts.completed)
    ∷ (codes "  Overdue:       " ++ decimal r.counts.overdue)
    ∷ (codes "Completion rate: " ++ (decimal r.completion_rate ++ codes "%"))
    ∷ (codes "Generated at:    " ++ codes r.generated_at)
    ∷ [])
