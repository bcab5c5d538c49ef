-- ===== src/Page/Honest.antt =====
-- What the page tells the user of a deletion is what has happened.
use text.Mathlib.TextEquality.{eq_iff}
use mathlib.Core.Path.{subst}
use task.Prelude.{
  ℕ, ◌≡◌, refl, ap, sym, ◌∙◌, String, Option, none, some, false, List, [], ◌∷◌, ◌++◌, arith,
}
use task.Task.Types.{Task, DeletedTask}
use task.Client.Board.{
  ApiResult, fine, failed, TaskApi, Board, filtered, delete_on_board, task_deleted,
  fetch_deleted_tasks, deleted_fetched,
}
use task.Client.Rows.{lookup, lookup-filtered}
use task.Page.Toasts.{ToastType, success, error, Toast, App, add_toast, told, handle_delete_task}
use task.Page.Dashboard.{
  Dashboard, DeleteStatus, status_after, confirm_delete, confirm_dialog, deleted_by,
}

abbrev pub banner_of : Option DeleteStatus → Option ToastType
banner_of none = none
banner_of (some s) = some s.type

module _ {Net : Type 0} (random_id : ℕ → String) (api : TaskApi Net) where
  -- The deletion of a task has succeeded or failed, and this is what the page shows and says.
  abbrev pub Reported : Task → ApiResult Unit → App Net → Dashboard → App Net → Type 0
  Reported t (fine u) app d' app' =
      (lookup t.id app'.board.tasks ≡ none)
      × (banner_of d'.delete_status ≡ some success)
      × ((x : Toast) × (x.type ≡ success) × (app'.toasts ≡ app.toasts ++ (x ∷ [])))
  Reported t (failed m) app d' app' =
      (app'.board.tasks ≡ app.board.tasks)
      × (banner_of d'.delete_status ≡ some error)
      × ((x : Toast) × (x.type ≡ error) × (app'.toasts ≡ app.toasts ++ (x ∷ [])))

  fetched_lem :
      (r : ApiResult (List DeletedTask)) (b : Board Net) → (deleted_fetched r b).tasks ≡ b.tasks
  unfolding deleted_fetched
  fetched_lem (fine ts) b = refl
  fetched_lem (failed m) b = refl

  -- The list behind a deletion.
  Shown : Task → ApiResult Unit → List Task → Board Net → Type 0
  Shown t (fine u) ts b' = lookup t.id b'.tasks ≡ none
  Shown t (failed m) ts b' = b'.tasks ≡ ts

  filtered_lem : (t : Task) (ts : List Task) → lookup t.id (filtered t.id ts) ≡ none
  filtered_lem t ts = ground (arith, lookup-filtered t.id t.id ts, eq_iff t.id t.id)

  task_deleted-Shown :
      (t : Task) (r : ApiResult Unit) (b : Board Net)
      → Shown t r b.tasks (task_deleted api t.id r b)
  unfolding Shown task_deleted fetch_deleted_tasks
  task_deleted-Shown t (fine u) b =
      ap (lookup t.id) (
        fetched_lem (api.get_deleted_tasks b.net).0
          (record b { tasks = filtered t.id b.tasks; net = (api.get_deleted_tasks b.net).1 }))
      ∙ filtered_lem t b.tasks
  task_deleted-Shown t (failed m) b = refl

  told_lem :
      (t : Task) (r : ApiResult Unit) (d : Dashboard) (app : App Net) (b : Board Net)
      → Shown t r app.board.tasks b
      → let (s, app') =
          told random_id api "Task deleted successfully!" "Failed to delete task" r
            (record app { board = b }) in
        Reported t r app
          (record d { delete_status = some (status_after t.title s); is_confirm_open = false })
          app'
  unfolding told add_toast status_after Shown
  told_lem t (fine u) d app b h = (h, refl, (_, refl, refl))
  told_lem t (failed m) d app b h = (h, refl, (_, refl, refl))

  -- Confirming the deletion of the selected task closes the dialog. If the API deletes the task, the
  -- page shows it no more and says so twice, in its banner and in a toast; if the API fails, the page
  -- shows the tasks that it showed and reports an error in both.
  pub confirm_dialog-Reported :
      (t : Task) (d : Dashboard) (app : App Net)
      → d.selected_task ≡ some t
      → let (d', app') = confirm_dialog random_id api d app in
        (d'.is_confirm_open ≡ false) × Reported t (api.delete_task t.id app.board.net).0 app d' app'
  unfolding confirm_dialog confirm_delete deleted_by handle_delete_task delete_on_board Shown
  confirm_dialog-Reported t d app e =
      let r = (api.delete_task t.id app.board.net).0 in
      let b : Board Net = record app.board { net = (api.delete_task t.id app.board.net).1 } in
      (
        refl,
        subst
            (λ (o : Option Task).
              Reported t r app
                (record (deleted_by random_id api o d app).0 { is_confirm_open = false })
                (deleted_by random_id api o d app).1)
            (sym e) (told_lem t r d app (task_deleted api t.id r b) (task_deleted-Shown t r b)),
      )
