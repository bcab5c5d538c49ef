-- ===== src/Task/Controller.antt =====
-- The handlers of backend/src/controllers/task.controller.js. The application's log lines are left
-- out; the audit records and the events are not.
use text.Mathlib.Text.{◌==◌}
use task.Prelude.{String, Option, none, some, Bool, true, false, not, ◌||◌, List, [], ◌∷◌}
use task.Prelude.Text.{Text, codes}
use task.Http.{
  User, Request, Outcome, Handler, ◌>>=◌, ◌>>◌, pure, finish, raise, Exception, return_if,
  send_success, send_error,
}
use task.Audit.Json.{Json, Fields, null, str, obj, end, field}
use task.Audit.Chain.{Event, success, failure, AuditResult}
use task.Service.Answer.{usable}
use task.Service.Effects.{
  Services, World, ask, record_audit, publish_event, audit_context, actor_of,
}
use task.Task.Types.{
  Task, DeletedTask, TaskStatus, pending, in_progress, completed, NewTask, TaskPatch, is_empty,
}
use task.Task.Model.{
  TaskClient, find_all, find_by_id, create, update_task, remove, find_all_deleted,
}

-- What the handlers send as `data`; a list is `none` where it is null.
pub data Payload : Type 0 where
  one : Task → Payload
  many : Option (List Task) → Payload
  deletions : Option (List DeletedTask) → Payload
  message : String → Payload

-- `user.role === 'ADMIN' || task.user_id === user.id`
unfoldable pub can_access : User → Task → Bool
can_access user task =
    user.role == "ADMIN" || elim task.user_id [ none ↦ false | some owner ↦ owner == user.id ]

abbrev pub not_found : Outcome Payload
not_found = send_error "Task not found" [] 404

-- The `TypeError` of reading a field of null.
abbrev null_field : Exception
null_field = record { message = "Cannot read properties of null"; status_code = none; errors = [] }

abbrev pub invalid_id : Outcome Payload
invalid_id =
    send_error "Invalid task ID format"
      (record { field = "id"; message = "Must be a valid UUID" } ∷ []) 400

abbrev status_text : TaskStatus → Text
status_text pending = codes "PENDING"
status_text in_progress = codes "IN_PROGRESS"
status_text completed = codes "COMPLETED"

abbrev pub owner_json : Option String → Json
owner_json none = null
owner_json (some u) = str (codes u)

abbrev task_resource : String → Fields
task_resource id =
    field (codes "type") (str (codes "task")) (field (codes "id") (str (codes id)) end)

-- The object that the handlers give to `audit`.
unfoldable pub task_event : String → AuditResult → String → Request → Event
unfolding audit_context
task_event action result id req = record {
  action = codes action;
  result = result;
  actor = some (actor_of req.user);
  resource = some (task_resource id);
  context = audit_context req;
  metadata = none;
}

-- `{ id, status, user_id }`
abbrev pub status_payload : String → Task → Json
status_payload id t = obj (
    field (codes "id") (str (codes id)) (
      field (codes "status") (str (status_text t.status))
        (field (codes "user_id") (owner_json t.user_id) end)))

module _ (s : Services) (c : TaskClient s.Db) (is_uuid : String → Bool) where
  abbrev Step : Type 0 → Type 0
  Step A = Handler (World s) Payload A

  abbrev pub audit_task : String → AuditResult → String → Request → Step Unit
  audit_task action result id req =
      record_audit s (some (codes req.request_id)) (task_event action result id req)

  abbrev pub publish : String → Json → Request → Step (Option String)
  publish type payload req = publish_event s type payload req.user.id req.request_id

  abbrev pub has_error : Option String → Bool
  has_error none = false
  has_error (some _) = true

  -- A value that a handler needs, or the end of the handler.
  abbrev row_or : {A : Type 0} → Option A → Outcome Payload → Step A
  row_or none o = finish o
  row_or (some a) o = pure a

  -- `if (error || !data) return o`
  abbrev pub required : {A : Type 0} → Option A × Option String → Outcome Payload → Step A
  required (d, e) o = row_or (usable d e) o

  -- The first use of a field of `data`, which throws on null.
  abbrev pub non_null : {A : Type 0} → Option A → Step A
  non_null none = raise null_field
  non_null (some a) = pure a

  -- `if (error) return o`, and then the first use of a field of `data`, which throws on null.
  abbrev pub unless_error : {A : Type 0} → Option A × Option String → Outcome Payload → Step A
  unless_error (d, some e) o = finish o
  unless_error (some a, none) o = pure a
  unless_error (none, none) o = raise null_field

  unfoldable pub create_task : NewTask → Request → Step (Outcome Payload)
  create_task body req = do
    answered ← ask s (create c body req.user.id)
    task ← unless_error answered (send_error "Failed to create task" [] 500)
    audit_task "task.create" success task.id req
    publish "task.created" (status_payload task.id task) req
    pure (send_success (one task) 201)

  unfoldable pub get_all_tasks : Request → Step (Outcome Payload)
  get_all_tasks req = do
    answered ← ask s (find_all c req.user)
    return_if (has_error answered.1) (send_error "Failed to fetch tasks" [] 500)
    pure (send_success (many answered.0) 200)

  unfoldable pub get_task_by_id : String → Request → Step (Outcome Payload)
  get_task_by_id id req = do
    return_if (not (is_uuid id)) invalid_id
    answered ← ask s (find_by_id c id)
    task ← required answered not_found
    return_if (not (can_access req.user task)) not_found
    pure (send_success (one task) 200)

  -- `if (!canAccess(...)) { audit({ action: 'authz.deny', ... }); return ... }`
  abbrev pub deny_unless : Bool → String → Request → Step Unit
  deny_unless true id req = pure tt
  deny_unless false id req = do audit_task "authz.deny" failure id req; finish not_found

  unfoldable pub update_task_handler : String → TaskPatch → Request → Step (Outcome Payload)
  update_task_handler id body req = do
    return_if (not (is_uuid id)) invalid_id
    found ← ask s (find_by_id c id)
    existing ← required found not_found
    deny_unless (can_access req.user existing) id req
    return_if (is_empty body) (send_error "No update fields provided" [] 400)
    answered ← ask s (update_task c id body)
    return_if (has_error answered.1) (send_error "Failed to update task" [] 500)
    audit_task "task.update" success id req
    task ← non_null answered.0
    publish "task.updated" (status_payload id task) req
    pure (send_success (one task) 200)

  unfoldable pub delete_task : String → Request → Step (Outcome Payload)
  delete_task id req = do
    return_if (not (is_uuid id)) invalid_id
    found ← ask s (find_by_id c id)
    existing ← required found not_found
    deny_unless (can_access req.user existing) id req
    removed ← ask s (remove c id)
    return_if (has_error removed.1) (send_error "Failed to delete task" [] 500)
    audit_task "task.delete" success id req
    publish "task.deleted"
        (obj (
          field (codes "id") (str (codes id))
            (field (codes "user_id") (owner_json existing.user_id) end)))
        req
    pure (send_success (message "Task deleted successfully") 200)

  unfoldable pub get_deleted_tasks : Request → Step (Outcome Payload)
  get_deleted_tasks req = do
    answered ← ask s (find_all_deleted c req.user)
    return_if (has_error answered.1) (send_error "Failed to fetch deletion log" [] 500)
    pure (send_success (deletions answered.0) 200)
