-- ===== src/Task/Touches.antt =====
-- Which queries a request reaches (backend/src/controllers/task.controller.js).
use task.Prelude.{String, ◌≡◌, ◌⊎◌, none, some, Bool, true, arith}
use task.Http.{User, Request, run_handler}
use task.Service.Answer.{Answer, answer}
use task.Service.Effects.{Services, World, record_audit, publish_event}
use task.Task.Types.{Task, NewTask, TaskPatch}
use task.Task.Model.{
  TaskClient, find_by_id, find_all, find_all_deleted, create, update_task, remove,
}
use task.Task.Controller.{
  can_access, create_task, get_all_tasks, get_deleted_tasks, get_task_by_id, update_task_handler,
  delete_task,
}

-- The answer of the lookup is a row that the user may access.
abbrev pub Granted : User → Answer Task → Type 0
Granted u (answer (some t) none) = can_access u t ≡ true
Granted u _ = ⊥

module _ (s : Services) (c : TaskClient s.Db) (is_uuid : String → Bool) (req : Request)
    (w : World s) where
  module _ (id : String) where
    abbrev looked_up : Answer Task × s.Db
    looked_up = find_by_id c id w.db

    -- An update reaches the database only behind a lookup that grants access.
    pub update_touches :
        (body : TaskPatch)
        → let db = (run_handler (update_task_handler s c is_uuid id body req) w).1.db in
          (db ≡ w.db)
          ⊎ (db ≡ looked_up.1)
          ⊎ (Granted req.user looked_up.0 × (db ≡ (update_task c id body looked_up.1).1))
    unfolding update_task_handler record_audit publish_event
    update_touches body = ground arith

    -- So does a deletion.
    pub delete_touches :
        let db = (run_handler (delete_task s c is_uuid id req) w).1.db in
        (db ≡ w.db)
        ⊎ (db ≡ looked_up.1)
        ⊎ (Granted req.user looked_up.0 × (db ≡ (remove c id looked_up.1).1))
    unfolding delete_task record_audit publish_event
    delete_touches = ground arith

    pub get_touches :
        let db = (run_handler (get_task_by_id s c is_uuid id req) w).1.db in
        (db ≡ w.db) ⊎ (db ≡ looked_up.1)
    unfolding get_task_by_id
    get_touches = ground arith

  pub create_touches :
      (body : NewTask)
      → (run_handler (create_task s c is_uuid body req) w).1.db ≡ (create c body req.user.id w.db).1
  unfolding create_task record_audit publish_event
  create_touches body = ground arith

  pub list_touches :
      (run_handler (get_all_tasks s c is_uuid req) w).1.db ≡ (find_all c req.user w.db).1
  unfolding get_all_tasks
  list_touches = ground arith

  pub list_deleted_touches :
      (run_handler (get_deleted_tasks s c is_uuid req) w).1.db
      ≡ (find_all_deleted c req.user w.db).1
  unfolding get_deleted_tasks
  list_deleted_touches = ground arith
