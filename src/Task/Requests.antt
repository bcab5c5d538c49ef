-- ===== src/Task/Requests.antt =====
-- The requests of backend/src/routes/task.routes.js, one after the other.
use task.Prelude.{String, List, [], ◌∷◌, Bool}
use task.Http.{Request, Outcome, Handler, run_handler}
use task.Service.Effects.{Services, World}
use task.Task.Types.{NewTask, TaskPatch}
use task.Task.Model.{TaskClient}
use task.Task.Controller.{
  Payload, create_task, get_all_tasks, get_deleted_tasks, get_task_by_id, update_task_handler,
  delete_task,
}

-- A route with its id parameter and its parsed body.
pub data Command : Type 0 where
  create : NewTask → Command
  list list_deleted : Command
  get delete : String → Command
  update : String → TaskPatch → Command

module _ (s : Services) (c : TaskClient s.Db) (is_uuid : String → Bool) where
  unfoldable pub handle : Command → Request → Handler (World s) Payload (Outcome Payload)
  handle (create body) = create_task s c is_uuid body
  handle list = get_all_tasks s c is_uuid
  handle list_deleted = get_deleted_tasks s c is_uuid
  handle (get id) = get_task_by_id s c is_uuid id
  handle (update id body) = update_task_handler s c is_uuid id body
  handle (delete id) = delete_task s c is_uuid id

  -- What one request leaves behind.
  abbrev pub after : Command → Request → World s → World s
  after cmd req w = (run_handler (handle cmd req) w).1

  unfoldable pub serve : List (Command × Request) → World s → World s
  serve [] w = w
  serve ((cmd, req) ∷ rest) w = serve rest (after cmd req w)
