-- ===== src/Client/Board.antt =====
-- The task list of the home page: frontend/src/hooks/useTasks.js. The API client is a parameter; an
-- error is its message.
use text.Mathlib.Text.{◌==◌}
use task.Prelude.{
  ℕ, ◌+◌, String, Option, none, some, Bool, true, false, List, [], ◌∷◌, if◌then◌else◌,
}
use task.Task.Types.{TaskStatus, Task, DeletedTask, NewTask, TaskPatch}

pub data ApiResult (A : Type 0) : Type 0 where
  fine : A → ApiResult A
  failed : String → ApiResult A

pub record TaskApi (Net : Type 0) : Type 0 where
  pub get_tasks : Net → ApiResult (List Task) × Net
  pub get_deleted_tasks : Net → ApiResult (List DeletedTask) × Net
  pub create_task : NewTask → Net → ApiResult Task × Net
  pub update_task : String → TaskPatch → Net → ApiResult Task × Net
  pub delete_task : String → Net → ApiResult Unit × Net

pub record Board (Net : Type 0) : Type 0 where
  pub tasks : List Task
  pub deleted_tasks : List DeletedTask
  pub loading : Bool
  pub error : Option String
  pub net : Net

-- `prev.map((t) => (t.id === id ? data : t))`
unfoldable pub replaced : String → Task → List Task → List Task
replaced id data' [] = []
replaced id data' (t ∷ ts) =
    let rest = replaced id data' ts in if t.id == id then data' ∷ rest else t ∷ rest

-- `prev.filter((t) => t.id !== id)`
unfoldable pub filtered : String → List Task → List Task
filtered id [] = []
filtered id (t ∷ ts) = let rest = filtered id ts in if t.id == id then rest else t ∷ rest

-- `stats`, from the list of the tasks.
pub record Stats : Type 0 where
  pub total : ℕ
  pub pending : ℕ
  pub in_progress : ℕ
  pub completed : ℕ

abbrev counted : TaskStatus → Stats → Stats
counted TaskStatus.pending s = record s { total = s.total + 1; pending = s.pending + 1 }
counted TaskStatus.in_progress s = record s { total = s.total + 1; in_progress = s.in_progress + 1 }
counted TaskStatus.completed s = record s { total = s.total + 1; completed = s.completed + 1 }

unfoldable pub stats_of : List Task → Stats
stats_of [] = record { total = 0; pending = 0; in_progress = 0; completed = 0 }
stats_of (t ∷ ts) = counted t.status (stats_of ts)

module _ {Net : Type 0} where
  unfoldable pub tasks_fetched : ApiResult (List Task) → Board Net → Board Net
  tasks_fetched (fine data') b = record b { tasks = data'; loading = false }
  tasks_fetched (failed message) b = record b { error = some message; loading = false }

  unfoldable pub deleted_fetched : ApiResult (List DeletedTask) → Board Net → Board Net
  deleted_fetched (fine data') b = record b { deleted_tasks = data' }
  deleted_fetched (failed message) b = b

  unfoldable pub task_created : ApiResult Task → Board Net → Board Net
  task_created (fine data') b = record b { tasks = data' ∷ b.tasks }
  task_created (failed message) b = b

  unfoldable pub task_updated : String → ApiResult Task → Board Net → Board Net
  unfolding replaced
  task_updated id (fine data') b = record b { tasks = replaced id data' b.tasks }
  task_updated id (failed message) b = b

module _ {Net : Type 0} (api : TaskApi Net) where
  unfoldable pub fetch_tasks : Board Net → Board Net
  unfolding tasks_fetched
  fetch_tasks b =
      let (r, net) = api.get_tasks b.net in
      tasks_fetched r (record b { loading = true; error = none; net = net })

  unfoldable pub fetch_deleted_tasks : Board Net → Board Net
  unfolding deleted_fetched
  fetch_deleted_tasks b =
      let (r, net) = api.get_deleted_tasks b.net in deleted_fetched r (record b { net = net })

  -- `createTask` and `updateTask` reject with the API's error and then change nothing.
  unfoldable pub create_on_board : NewTask → Board Net → Board Net
  unfolding task_created
  create_on_board task_data b =
      let (r, net) = api.create_task task_data b.net in task_created r (record b { net = net })

  unfoldable pub update_on_board : String → TaskPatch → Board Net → Board Net
  unfolding task_updated
  update_on_board id updates b =
      let (r, net) = api.update_task id updates b.net in task_updated id r (record b { net = net })

  unfoldable pub task_deleted : String → ApiResult Unit → Board Net → Board Net
  unfolding filtered fetch_deleted_tasks
  task_deleted id (fine u) b = fetch_deleted_tasks (record b { tasks = filtered id b.tasks })
  task_deleted id (failed message) b = b

  unfoldable pub delete_on_board : String → Board Net → Board Net
  unfolding task_deleted
  delete_on_board id b =
      let (r, net) = api.delete_task id b.net in task_deleted id r (record b { net = net })
