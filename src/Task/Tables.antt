-- ===== src/Task/Tables.antt =====
-- What PostgREST documents of the queries that backend/src/models/task.model.js builds, over the
-- tables that the database holds. The deletion trigger is that of
-- supabase/migrations/004_security_hardening.sql.
use text.Mathlib.Text.{◌==◌}
use task.Prelude.{
  String, ◌≡◌, ◌⊎◌, Option, none, some, Bool, true, false, ◌&&◌, List, [], ◌∷◌, if◌then◌else◌,
}
use task.Prelude.Sorting.{Shuffle}
use task.Service.Answer.{Answer, answer, thrown}
use task.Task.Types.{Task, DeletedTask, TaskPatch}
use task.Task.Model.{TaskClient, select, insert, update, delete, OwnedTask}

-- The columns of a task that queries filter by.
abbrev column : String → Task → Option String
column name t = if name == "id" then some t.id else if name == "user_id" then t.user_id else none

module _ (same_uuid : String → String → Bool) where
  abbrev has_value : Option String → String → Bool
  has_value none v = false
  has_value (some x) v = same_uuid x v

  -- The row passes every `.eq(column, value)`. Both columns have the type uuid, so the database
  -- compares them as such and not as texts.
  unfoldable pub matches : List (String × String) → Task → Bool
  matches [] t = true
  matches ((name, v) ∷ eqs) t = has_value (column name t) v && matches eqs t

module _ (p : Task → Bool) where
  unfoldable pub rows_where : List Task → List Task
  rows_where [] = []
  rows_where (t ∷ ts) = let rest = rows_where ts in if p t then t ∷ rest else rest

  unfoldable pub replace_where : Task → List Task → List Task
  replace_where new [] = []
  replace_where new (t ∷ ts) =
      let rest = replace_where new ts in if p t then new ∷ rest else t ∷ rest

  unfoldable pub remove_where : List Task → List Task
  remove_where [] = []
  remove_where (t ∷ ts) = let rest = remove_where ts in if p t then rest else t ∷ rest

-- The row that the trigger `log_task_deletion` inserts.
abbrev pub log_task_deletion : Task → DeletedTask
log_task_deletion old = record {
  task_id = old.id;
  title = old.title;
  description = old.description;
  status = old.status;
  due_date = old.due_date;
  user_id = old.user_id;
}

-- A column that the update names has its new value, another its old one.
abbrev pub patched : {A : Type 0} → Option A → A → A
patched none old = old
patched (some new) old = new

pub record Updates (p : TaskPatch) (old new : Task) : Type 0 where
  pub same_id : new.id ≡ old.id
  pub same_owner : new.user_id ≡ old.user_id
  pub title : new.title ≡ patched p.title old.title
  pub description : new.description ≡ patched p.description old.description
  pub due_date : new.due_date ≡ patched p.due_date old.due_date
  pub status : new.status ≡ patched p.status old.status

pub record Tables (Db : Type 0) : Type 0 where
  pub tasks : Db → List Task
  pub deleted : Db → List DeletedTask
  pub same_uuid : String → String → Bool

module _ {Db : Type 0} (tables : Tables Db) where
  open tables use {tasks, deleted, same_uuid}

  pub record Same (db db' : Db) : Type 0 where
    pub tasks_kept : tasks db' ≡ tasks db
    pub deleted_kept : deleted db' ≡ deleted db

  -- `insert` of one row.
  pub record Inserted (o : OwnedTask) (db : Db) (t : Task) (db' : Db) : Type 0 where
    pub owner : t.user_id ≡ some o.user_id
    pub title : t.title ≡ o.task.title
    pub status : t.status ≡ o.task.status
    pub added : tasks db' ≡ t ∷ tasks db
    pub deleted_kept : deleted db' ≡ deleted db

  -- `update` of the one row that matches.
  pub record Updated (eqs : List (String × String)) (p : TaskPatch) (db : Db) (new : Task)
      (db' : Db) : Type 0 where
    pub old : Task
    pub found : rows_where (matches same_uuid eqs) (tasks db) ≡ old ∷ []
    pub updates : Updates p old new
    pub replaced : tasks db' ≡ replace_where (matches same_uuid eqs) new (tasks db)
    pub deleted_kept : deleted db' ≡ deleted db

  -- `delete` of the one row that matches; the trigger runs in the same transaction.
  pub record Removed (eqs : List (String × String)) (db : Db) (old : Task) (db' : Db) : Type 0 where
    pub found : rows_where (matches same_uuid eqs) (tasks db) ≡ old ∷ []
    pub gone : tasks db' ≡ remove_where (matches same_uuid eqs) (tasks db)
    pub logged : deleted db' ≡ log_task_deletion old ∷ deleted db

  -- A statement that is reported to have failed may have been carried out or not, since a lost answer
  -- is reported in the same way; so may one that ended by an exception. `.single()` gives a row or an
  -- error.
  abbrev pub Writes : (Task → Db → Type 0) → Db → Answer Task → Db → Type 0
  Writes done db (answer (some t) none) db' = done t db'
  Writes done db (answer none none) db' = ⊥
  Writes done db (answer d (some e)) db' = Same db db' ⊎ ((t : Task) × done t db')
  Writes done db (thrown x) db' = Same db db' ⊎ ((t : Task) × done t db')

  abbrev pub FoundOne : List (String × String) → Db → Answer Task → Type 0
  FoundOne eqs db (answer (some t) none) = rows_where (matches same_uuid eqs) (tasks db) ≡ t ∷ []
  FoundOne eqs db _ = Unit

  abbrev pub FoundMany : List (String × String) → Db → Answer (List Task) → Type 0
  FoundMany eqs db (answer (some ts) none) =
      Shuffle ts (rows_where (matches same_uuid eqs) (tasks db))
  FoundMany eqs db _ = Unit

  -- The documented behaviour of the client's four kinds of call on the two tables.
  pub record Documented (c : TaskClient Db) : Type 0 where
    pub select_single :
        (eqs : List (String × String)) (db : Db)
        → let (a, db') =
            c.tasks_single
              (record { table = "tasks"; verb = select; eq = eqs; descending = none })
              db in
          Same db db' × FoundOne eqs db a
    pub select_many :
        (eqs : List (String × String)) (order : Option String) (db : Db)
        → let (a, db') =
            c.tasks_many
              (record { table = "tasks"; verb = select; eq = eqs; descending = order })
              db in
          Same db db' × FoundMany eqs db a
    pub select_deleted :
        (eqs : List (String × String)) (order : Option String) (db : Db)
        → Same db
            (c.deleted_many
              (record { table = "deleted_tasks"; verb = select; eq = eqs; descending = order })
              db).1
    pub insert_single :
        (o : OwnedTask) (db : Db)
        → let (a, db') =
            c.tasks_single
              (record { table = "tasks"; verb = insert o; eq = []; descending = none })
              db in
          Writes (Inserted o db) db a db'
    pub update_single :
        (eqs : List (String × String)) (p : TaskPatch) (db : Db)
        → let (a, db') =
            c.tasks_single
              (record { table = "tasks"; verb = update p; eq = eqs; descending = none })
              db in
          Writes (Updated eqs p db) db a db'
    pub delete_single :
        (eqs : List (String × String)) (db : Db)
        → let (a, db') =
            c.tasks_single
              (record { table = "tasks"; verb = delete; eq = eqs; descending = none })
              db in
          Writes (Removed eqs db) db a db'
