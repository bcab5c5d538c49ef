-- ===== src/Page/Toasts.antt =====
-- `AuthenticatedApp` of frontend/src/App.jsx: what the user is told of a change of the task list. Random
-- ids are a parameter.
use text.Mathlib.Text.{◌==◌ as str_eq}
use task.Prelude.{ℕ, ◌+◌, String, List, [], ◌∷◌, ◌++◌, if◌then◌else◌}
use task.Task.Types.{NewTask, TaskPatch}
use task.Client.Board.{
  ApiResult, fine, failed, TaskApi, Board, create_on_board, update_on_board, delete_on_board,
}

pub data ToastType : Type 0 where
  success error : ToastType

pub record Toast : Type 0 where
  pub id : String
  pub message : String
  pub type : ToastType

pub record App (Net : Type 0) : Type 0 where
  pub board : Board Net
  pub toasts : List Toast
  pub ids_drawn : ℕ

-- A call that resolves, or rejects with the error's message.
pub data Settled : Type 0 where
  resolved : Settled
  threw : String → Settled

-- `prev.filter((t) => t.id !== id)`, when the four seconds of a toast are over.
unfoldable pub without_toast : String → List Toast → List Toast
without_toast id [] = []
without_toast id (t ∷ ts) =
    let rest = without_toast id ts in if str_eq t.id id then rest else t ∷ rest

module _ {Net : Type 0} (random_id : ℕ → String) (api : TaskApi Net) where
  unfoldable pub add_toast : String → ToastType → App Net → App Net
  add_toast message type app = record app {
    toasts =
        app.toasts
        ++ (record { id = random_id app.ids_drawn; message = message; type = type } ∷ []);
    ids_drawn = app.ids_drawn + 1;
  }

  unfoldable pub toast_expired : String → App Net → App Net
  unfolding without_toast
  toast_expired id app = record app { toasts = without_toast id app.toasts }

  -- `err.message || d`
  abbrev pub message_or : String → String → String
  message_or m d = if str_eq m "" then d else m

  -- The toast of a call, which rethrows what it caught.
  unfoldable pub told : {A : Type 0} → String → String → ApiResult A → App Net → Settled × App Net
  unfolding add_toast
  told done_message default_message (fine a) app = (resolved, add_toast done_message success app)
  told done_message default_message (failed m) app =
      (threw m, add_toast (message_or m default_message) error app)

  unfoldable pub handle_create_task : NewTask → App Net → Settled × App Net
  unfolding told create_on_board
  handle_create_task task_data app =
      told "Task created successfully!" "Failed to create task"
        (api.create_task task_data app.board.net).0
        (record app { board = create_on_board api task_data app.board })

  unfoldable pub handle_update_task : String → TaskPatch → App Net → Settled × App Net
  unfolding told update_on_board
  handle_update_task id updates app =
      told "Task updated successfully!" "Failed to update task"
        (api.update_task id updates app.board.net).0
        (record app { board = update_on_board api id updates app.board })

  unfoldable pub handle_delete_task : String → App Net → Settled × App Net
  unfolding told delete_on_board
  handle_delete_task id app =
      told "Task deleted successfully!" "Failed to delete task" (api.delete_task id app.board.net).0
        (record app { board = delete_on_board api id app.board })
