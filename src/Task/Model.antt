-- ===== src/Task/Model.antt =====
-- The queries of backend/src/models/task.model.js. A query is built as the chain of the Supabase
-- client's calls and handed to the client, which is a parameter.
use text.Mathlib.Text.{◌==◌}
use task.Prelude.{String, Option, none, some, not, List, [], ◌∷◌, if◌then◌else◌}
use task.Http.{User}
use task.Service.Answer.{Ask}
use task.Task.Types.{Task, DeletedTask, NewTask, TaskPatch}

-- `.select('*')`, `.insert(row)`, `.update(columns)` or `.delete()` on a table.
pub data Verb (Row Columns : Type 0) : Type 0 where
  select : Verb Row Columns
  insert : Row → Verb Row Columns
  update : Columns → Verb Row Columns
  delete : Verb Row Columns

-- A chain that starts with `.from(table)`: its verb, the columns of `.eq(column, value)`, and the
-- column of `.order(column, { ascending: false })`.
pub record Query (Row Columns : Type 0) : Type 0 where
  pub table : String
  pub verb : Verb Row Columns
  pub eq : List (String × String)
  pub descending : Option String

-- `{ ...taskData, user_id: userId }`
pub record OwnedTask : Type 0 where
  pub task : NewTask
  pub user_id : String

-- The client over a database: a query for many rows, and one that ends in `.single()`.
pub record TaskClient (Db : Type 0) : Type 0 where
  pub tasks_many : Query OwnedTask TaskPatch → Ask Db (List Task)
  pub tasks_single : Query OwnedTask TaskPatch → Ask Db Task
  pub deleted_many : Query DeletedTask TaskPatch → Ask Db (List DeletedTask)
  pub deleted_single : Query DeletedTask TaskPatch → Ask Db DeletedTask

-- `if (!user || user.role !== 'ADMIN') query = query.eq('user_id', user.id)`, for a user that is
-- there: the routes stand behind `authenticate`.
abbrev scoped : User → List (String × String)
scoped user = if not (user.role == "ADMIN") then ("user_id", user.id) ∷ [] else []

abbrev pub by_id : String → List (String × String)
by_id id = ("id", id) ∷ []

module _ {Db : Type 0} (c : TaskClient Db) where
  open c use {tasks_many, tasks_single, deleted_many, deleted_single}

  unfoldable pub find_all : User → Ask Db (List Task)
  find_all user =
      tasks_many (record {
        table = "tasks";
        verb = select;
        eq = scoped user;
        descending = some "created_at";
      })

  unfoldable pub find_by_id : String → Ask Db Task
  find_by_id id =
      tasks_single (record { table = "tasks"; verb = select; eq = by_id id; descending = none })

  unfoldable pub create : NewTask → String → Ask Db Task
  create task_data user_id = tasks_single (record {
    table = "tasks";
    verb = insert (record { task = task_data; user_id = user_id });
    eq = [];
    descending = none;
  })

  unfoldable pub update_task : String → TaskPatch → Ask Db Task
  update_task id updates =
      tasks_single
        (record { table = "tasks"; verb = update updates; eq = by_id id; descending = none })

  unfoldable pub remove : String → Ask Db Task
  remove id =
      tasks_single (record { table = "tasks"; verb = delete; eq = by_id id; descending = none })

  unfoldable pub log_deletion : Task → Ask Db DeletedTask
  log_deletion task = deleted_single (record {
    table = "deleted_tasks";
    verb = insert (record {
      task_id = task.id;
      title = task.title;
      description = task.description;
      status = task.status;
      due_date = task.due_date;
      user_id = task.user_id;
    });
    eq = [];
    descending = none;
  })

  unfoldable pub find_all_deleted : User → Ask Db (List DeletedTask)
  find_all_deleted user = deleted_many (record {
    table = "deleted_tasks";
    verb = select;
    eq = scoped user;
    descending = some "deleted_at";
  })
