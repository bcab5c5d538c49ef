-- ===== src/Task/Disclosure.antt =====
-- What a user learns of tasks by backend/src/controllers/task.controller.js.
use mathlib.Core.Path.{subst}
use task.Prelude.{String, ◌≡◌, Option, none, some, Bool, true, false, [], ◌∷◌, arith}
use task.Http.{Request, Outcome, run_handler, send_success}
use task.Service.Answer.{Answer, answer}
use task.Service.Effects.{Services, World, record_audit, publish_event}
use task.Task.Types.{Task, TaskPatch}
use task.Task.Model.{TaskClient, by_id, find_by_id}
use task.Task.Controller.{
  Payload, one, can_access, get_task_by_id, update_task_handler, delete_task,
}
use task.Task.Tables.{Tables, FoundOne, Documented, matches, rows_where}

module _ (s : Services) (c : TaskClient s.Db) (is_uuid : String → Bool) (id : String)
    (req : Request) where
  abbrev looked_up : World s → Answer Task
  looked_up w = (find_by_id c id w.db).0

  unfoldable pub got : World s → Outcome Payload
  got w = (run_handler (get_task_by_id s c is_uuid id req) w).0

  unfoldable pub updated : TaskPatch → World s → Outcome Payload
  updated body w = (run_handler (update_task_handler s c is_uuid id body req) w).0

  unfoldable pub deleted : World s → Outcome Payload
  deleted w = (run_handler (delete_task s c is_uuid id req) w).0

  -- Where the lookup finds a task that the user may not access, a read, an update and a deletion
  -- have the outcome that they have where the lookup finds no task.
  pub denied_like_missing :
      (w w' : World s) (t : Task) (body : TaskPatch) (no_row : Option String)
      → looked_up w ≡ answer (some t) none
      → can_access req.user t ≡ false
      → looked_up w' ≡ answer none no_row
      → (got w ≡ got w') × (updated body w ≡ updated body w') × (deleted w ≡ deleted w')
  unfolding got updated deleted get_task_by_id update_task_handler delete_task record_audit
      publish_event
  denied_like_missing w w' t body no_row found denied missing =
      (ground arith, ground arith, ground arith)

  got_found :
      (w : World s) (t : Task)
      → got w ≡ send_success (one t) 200
      → (looked_up w ≡ answer (some t) none) × (can_access req.user t ≡ true)
  unfolding got get_task_by_id
  got_found w t h = ground arith

  module _ (tables : Tables s.Db) (doc : Documented tables c) where
    -- A task that a read returns is the one row of the table with that id, and its reader may access
    -- it.
    pub get_task_by_id_sound :
        (w : World s) (t : Task)
        → (run_handler (get_task_by_id s c is_uuid id req) w).0 ≡ send_success (one t) 200
        → (rows_where (matches tables.same_uuid (by_id id)) (tables.tasks w.db) ≡ t ∷ [])
          × (can_access req.user t ≡ true)
    unfolding got find_by_id
    get_task_by_id_sound w t h =
        let (found, granted) = got_found w t h in
        (
          subst (FoundOne tables (by_id id) w.db) found (doc.select_single (by_id id) w.db).1,
          granted,
        )
