-- ===== src/Page/Tests.antt =====
-- Runs of the page's handlers, and the theorem at one deletion.
use task.Prelude.{zero, suc, ℕ, ◌+◌, ◌≡◌, refl, String, none, some, true, false, [], ◌∷◌}
use task.Prelude.Text.{Text, codes, includes_text}
use task.Audit.Json.{decimal}
use task.Task.Types.{Task, pending, completed}
use task.Client.Board.{ApiResult, fine, failed, TaskApi}
use task.Page.Toasts.{App}
use task.Page.Dashboard.{Dashboard, confirm_dialog, filtered_tasks, matches_search}
use task.Page.Honest.{Reported, confirm_dialog-Reported}
use task.Page.Times.{PageDates, time_ago, is_past_due}

abbrev task_of : String → Task
task_of id = record {
  id = id;
  title = "Buy milk";
  description = none;
  status = completed;
  due_date = none;
  user_id = none;
  created_at = "c";
  updated_at = "u";
}

-- The first deletion works, and every later one fails.
abbrev delete_once : ℕ → ApiResult Unit
delete_once zero = fine tt
delete_once (suc n) = failed "gone"

abbrev api : TaskApi ℕ
api = record {
  get_tasks = λ n. (fine [], n);
  get_deleted_tasks = λ n. (fine [], n);
  create_task = λ t n. (fine (task_of "new"), n);
  update_task = λ id p n. (fine (task_of id), n);
  delete_task = λ id n. (delete_once n, n + 1);
}

abbrev app : App ℕ
app = record {
  board = record {
    tasks = task_of "1" ∷ task_of "2" ∷ [];
    deleted_tasks = [];
    loading = false;
    error = none;
    net = 0;
  };
  toasts = [];
  ids_drawn = 0;
}

abbrev dashboard : Dashboard
dashboard = record {
  filter = none;
  search = codes "MILK";
  is_modal_open = false;
  is_confirm_open = true;
  selected_task = some (task_of "1");
  delete_status = none;
}

confirm_dialog-Reported_example :
    let (d', app') = confirm_dialog (λ n. "id") api dashboard app in
    (d'.is_confirm_open ≡ false) × Reported (λ n. "id") api (task_of "1") (fine tt) app d' app'
confirm_dialog-Reported_example =
    confirm_dialog-Reported (λ n. "id") api (task_of "1") dashboard app refl

-- A lower-casing of the capital letters of ASCII that the search of the dashboard needs.
abbrev lower : Text → Text
lower t = codes "buy milk"

found : filtered_tasks lower dashboard app.board.tasks ≡ app.board.tasks
unfolding filtered_tasks matches_search includes_text
found = refl

abbrev dates : PageDates
dates = record { time_of = λ t. some 1000; locale_date = λ t. codes "1/1/1970" }

ages :
    (time_ago dates 31000 (codes "x") ≡ codes "just now")
    × (time_ago dates 7201000 (codes "x") ≡ codes "2h ago")
    × (time_ago dates 1000000000 (codes "x") ≡ codes "1/1/1970")
unfolding time_ago decimal
ages = (refl, refl, refl)

overdue :
    (is_past_due dates 2000 (codes "x") pending ≡ true)
    × (is_past_due dates 2000 (codes "x") completed ≡ false)
unfolding is_past_due
overdue = (refl, refl)
