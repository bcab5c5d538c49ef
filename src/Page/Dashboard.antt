-- ===== src/Page/Dashboard.antt =====
-- The state and the handlers of frontend/src/pages/Dashboard.jsx, with the confirmation of
-- frontend/src/components/ConfirmDialog.jsx. `toLowerCase` is a parameter.
use Prim.Native.String.{◌++◌}
use task.Prelude.{
  ℕ, String, Option, none, some, Bool, true, false, ◌&&◌, ◌||◌, List, [], ◌∷◌, if◌then◌else◌,
}
use task.Prelude.Text.{Text, codes, includes_text}
use task.Task.Types.{Task, TaskStatus, pending, in_progress, completed, NewTask, TaskPatch}
use task.Client.Board.{TaskApi}
use task.Page.Toasts.{
  ToastType, success, error, App, Settled, resolved, threw, handle_create_task, handle_update_task,
  handle_delete_task,
}

pub record DeleteStatus : Type 0 where
  pub type : ToastType
  pub message : String

-- The filter ALL is `none`.
pub record Dashboard : Type 0 where
  pub filter : Option TaskStatus
  pub search : Text
  pub is_modal_open : Bool
  pub is_confirm_open : Bool
  pub selected_task : Option Task
  pub delete_status : Option DeleteStatus

unfoldable pub new_click : Dashboard → Dashboard
new_click d = record d { selected_task = none; is_modal_open = true }

unfoldable pub edit_click : Task → Dashboard → Dashboard
edit_click t d = record d { selected_task = some t; is_modal_open = true }

unfoldable pub delete_click : Task → Dashboard → Dashboard
delete_click t d = record d { selected_task = some t; is_confirm_open = true }

abbrev same_status : TaskStatus → TaskStatus → Bool
same_status pending pending = true
same_status in_progress in_progress = true
same_status completed completed = true
same_status _ _ = false

abbrev has_filter : Option TaskStatus → Task → Bool
has_filter none t = true
has_filter (some s) t = same_status t.status s

abbrev text_of : Option String → Text
text_of none = []
text_of (some s) = codes s

unfoldable pub matches_search : (Text → Text) → Text → Task → Bool
unfolding includes_text
matches_search lower search t =
    includes_text (lower search) (lower (codes t.title))
    || includes_text (lower search) (lower (text_of t.description))

unfoldable pub filtered_tasks : (Text → Text) → Dashboard → List Task → List Task
unfolding matches_search
filtered_tasks lower d [] = []
filtered_tasks lower d (t ∷ ts) =
    let rest = filtered_tasks lower d ts in
    if has_filter d.filter t && matches_search lower d.search t then t ∷ rest else rest

-- The data of the form as the body of an update: all its keys are there.
abbrev pub as_patch : NewTask → TaskPatch
as_patch n = record {
  title = some n.title;
  description = some n.description;
  due_date = some n.due_date;
  status = some n.status;
}

-- What the banner says of a deletion.
unfoldable pub status_after : String → Settled → DeleteStatus
status_after title resolved = record {
  type = success;
  message = "\"" ++ (title ++ "\" was deleted successfully.");
}
status_after title (threw m) = record {
  type = error;
  message = "Failed to delete \"" ++ (title ++ "\". Please try again.");
}

module _ {Net : Type 0} (random_id : ℕ → String) (api : TaskApi Net) where
  unfoldable saved_as : Option Task → NewTask → App Net → Settled × App Net
  unfolding handle_update_task handle_create_task
  saved_as (some t) task_data app = handle_update_task random_id api t.id (as_patch task_data) app
  saved_as none task_data app = handle_create_task random_id api task_data app

  -- `handleSaveTask`
  unfoldable pub save_task : NewTask → Dashboard → App Net → Settled × App Net
  unfolding saved_as
  save_task task_data d app = saved_as d.selected_task task_data app

  unfoldable pub deleted_by : Option Task → Dashboard → App Net → Dashboard × App Net
  unfolding handle_delete_task status_after
  deleted_by none d app = (d, app)
  deleted_by (some t) d app =
      let (r, app') = handle_delete_task random_id api t.id app in
      (record d { delete_status = some (status_after t.title r) }, app')

  -- `handleConfirmDelete`, which catches the error of the deletion.
  unfoldable pub confirm_delete : Dashboard → App Net → Dashboard × App Net
  unfolding deleted_by
  confirm_delete d app = deleted_by d.selected_task d app

  -- `handleConfirm` of ConfirmDialog: `onConfirm` does not throw, so the dialog closes.
  unfoldable pub confirm_dialog : Dashboard → App Net → Dashboard × App Net
  unfolding confirm_delete
  confirm_dialog d app =
      let (d', app') = confirm_delete d app in (record d' { is_confirm_open = false }, app')

-- The banner goes after three seconds.
unfoldable pub status_expired : Dashboard → Dashboard
status_expired d = record d { delete_status = none }
