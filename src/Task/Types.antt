-- ===== src/Task/Types.antt =====
-- The rows of the tables `tasks` and `deleted_tasks`, and the request bodies that `validate` lets
-- through (the schemas of backend/src/models/task.model.js).
use task.Prelude.{String, Option, none, some, Bool, true, false, ◌&&◌}

pub data TaskStatus : Type 0 where
  pending in_progress completed : TaskStatus

pub record Task : Type 0 where
  pub id : String
  pub title : String
  pub description : Option String
  pub status : TaskStatus
  pub due_date : Option String
  pub user_id : Option String
  pub created_at : String
  pub updated_at : String

pub record DeletedTask : Type 0 where
  pub task_id : String
  pub title : String
  pub description : Option String
  pub status : TaskStatus
  pub due_date : Option String
  pub user_id : Option String

-- A body that `createTaskSchema` has parsed: `status` has its default.
pub record NewTask : Type 0 where
  pub title : String
  pub description : Option String
  pub due_date : Option String
  pub status : TaskStatus

-- A body that `updateTaskSchema` has parsed. A key that is missing is `none`; null is `some none`.
pub record TaskPatch : Type 0 where
  pub title : Option String
  pub description : Option (Option String)
  pub due_date : Option (Option String)
  pub status : Option TaskStatus

abbrev pub is_none {ℓ} : {A : Type ℓ} → Option A → Bool
is_none none = true
is_none (some _) = false

-- `Object.keys(req.body).length === 0`
unfoldable pub is_empty : TaskPatch → Bool
is_empty p = is_none p.title && (is_none p.description && (is_none p.due_date && is_none p.status))
