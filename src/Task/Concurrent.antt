-- ===== src/Task/Concurrent.antt =====
-- The handlers of backend/src/controllers/task.controller.js as processes: each awaited call, each
-- call of `audit` and each check is a step, after which other requests may run.
use task.Prelude.{String, not, Bool, []}
use task.Prelude.Text.{codes}
use task.Http.{Request, Outcome, return_if, send_success, send_error}
use task.Async.{Process, ◌>>=◌, ◌>>◌, await, pure}
use task.Audit.Json.{str, obj, end, field}
use task.Audit.Chain.{success}
use task.Service.Effects.{Services, World, ask}
use task.Task.Types.{NewTask, TaskPatch, is_empty}
use task.Task.Model.{
  TaskClient, find_all, find_by_id, create, update_task, remove, find_all_deleted,
}
use task.Task.Controller.{
  Payload, one, many, deletions, message, can_access, not_found, invalid_id, status_payload,
  owner_json, audit_task, publish, has_error, required, unless_error, deny_unless, non_null,
}
use task.Task.Requests.{Command}

module _ (s : Services) (c : TaskClient s.Db) (is_uuid : String → Bool) where
  abbrev pub Running : Type 0
  Running = Process (World s) Payload (Outcome Payload)

  unfoldable pub creating : NewTask → Request → Running
  creating body req = do
    answered ← await (ask s (create c body req.user.id))
    task ← await (unless_error s c is_uuid answered (send_error "Failed to create task" [] 500))
    await (audit_task s c is_uuid "task.create" success task.id req)
    await (publish s c is_uuid "task.created" (status_payload task.id task) req)
    pure (send_success (one task) 201)

  unfoldable pub listing : Request → Running
  listing req = do
    answered ← await (ask s (find_all c req.user))
    await (return_if (has_error s c is_uuid answered.1) (send_error "Failed to fetch tasks" [] 500))
    pure (send_success (many answered.0) 200)

  unfoldable pub getting : String → Request → Running
  getting id req = do
    await (return_if (not (is_uuid id)) invalid_id)
    answered ← await (ask s (find_by_id c id))
    task ← await (required s c is_uuid answered not_found)
    await (return_if (not (can_access req.user task)) not_found)
    pure (send_success (one task) 200)

  unfoldable pub updating : String → TaskPatch → Request → Running
  updating id body req = do
    await (return_if (not (is_uuid id)) invalid_id)
    found ← await (ask s (find_by_id c id))
    existing ← await (required s c is_uuid found not_found)
    await (deny_unless s c is_uuid (can_access req.user existing) id req)
    await (return_if (is_empty body) (send_error "No update fields provided" [] 400))
    answered ← await (ask s (update_task c id body))
    await (return_if (has_error s c is_uuid answered.1) (send_error "Failed to update task" [] 500))
    await (audit_task s c is_uuid "task.update" success id req)
    task ← await (non_null s c is_uuid answered.0)
    await (publish s c is_uuid "task.updated" (status_payload id task) req)
    pure (send_success (one task) 200)

  unfoldable pub deleting : String → Request → Running
  deleting id req = do
    await (return_if (not (is_uuid id)) invalid_id)
    found ← await (ask s (find_by_id c id))
    existing ← await (required s c is_uuid found not_found)
    await (deny_unless s c is_uuid (can_access req.user existing) id req)
    removed ← await (ask s (remove c id))
    await (return_if (has_error s c is_uuid removed.1) (send_error "Failed to delete task" [] 500))
    await (audit_task s c is_uuid "task.delete" success id req)
    await (
        publish s c is_uuid "task.deleted"
          (obj (
            field (codes "id") (str (codes id))
              (field (codes "user_id") (owner_json existing.user_id) end)))
          req)
    pure (send_success (message "Task deleted successfully") 200)

  unfoldable pub listing_deleted : Request → Running
  listing_deleted req = do
    answered ← await (ask s (find_all_deleted c req.user))
    await (
        return_if (has_error s c is_uuid answered.1)
          (send_error "Failed to fetch deletion log" [] 500))
    pure (send_success (deletions answered.0) 200)

  unfoldable pub start_request : Command × Request → Running
  start_request (Command.create body, req) = creating body req
  start_request (Command.list, req) = listing req
  start_request (Command.list_deleted, req) = listing_deleted req
  start_request (Command.get id, req) = getting id req
  start_request (Command.update id body, req) = updating id body req
  start_request (Command.delete id, req) = deleting id req
