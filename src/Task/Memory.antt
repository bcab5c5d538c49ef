-- ===== src/Task/Memory.antt =====
-- A client that keeps its tables in memory: the documented behaviour can be met.
use text.Mathlib.Text.{◌==◌}
use task.Prelude.{String, Bool, inl, ◌≡◌, refl, sym, none, some, List, [], ◌∷◌}
use task.Prelude.Sorting.{Shuffle, nil, cons, here}
use task.Service.Answer.{Answer, answer}
use task.Task.Types.{Task, DeletedTask, TaskPatch}
use task.Task.Model.{TaskClient, Verb, select, insert, update, delete, OwnedTask}
use task.Task.Tables.{
  Tables, Same, Updated, Removed, Writes, FoundOne, Documented, matches, rows_where, replace_where,
  remove_where, log_task_deletion, patched,
}

pub record Memory : Type 0 where
  pub tasks : List Task
  pub deleted : List DeletedTask

abbrev pub uuid_eq : String → String → Bool
uuid_eq x y = x == y

abbrev refused : {A : Type 0} → Answer A
refused = answer none (some "PGRST116")

abbrev stored : OwnedTask → Task
stored o = record {
  id = "new";
  title = o.task.title;
  description = o.task.description;
  status = o.task.status;
  due_date = o.task.due_date;
  user_id = some o.user_id;
  created_at = "now";
  updated_at = "now";
}

abbrev patch : TaskPatch → Task → Task
patch p t = record t {
  title = patched p.title t.title;
  description = patched p.description t.description;
  due_date = patched p.due_date t.due_date;
  status = patched p.status t.status;
  updated_at = "now";
}

abbrev on_single : List Task → (Task → Answer Task × Memory) → Memory → Answer Task × Memory
on_single (t ∷ []) f m = f t
on_single [] f m = (refused, m)
on_single (t ∷ u ∷ r) f m = (refused, m)

abbrev single : Verb OwnedTask TaskPatch → List (String × String) → Memory → Answer Task × Memory
single select eqs m =
    on_single (rows_where (matches uuid_eq eqs) m.tasks) (λ t. (answer (some t) none, m)) m
single (insert o) eqs m = (answer (some (stored o)) none, record m { tasks = stored o ∷ m.tasks })
single (update p) eqs m =
    on_single (rows_where (matches uuid_eq eqs) m.tasks)
      (λ t. (
        answer (some (patch p t)) none,
        record m { tasks = replace_where (matches uuid_eq eqs) (patch p t) m.tasks },
      ))
      m
single delete eqs m =
    on_single (rows_where (matches uuid_eq eqs) m.tasks)
      (λ t. (
        answer (some t) none,
        record m {
          tasks = remove_where (matches uuid_eq eqs) m.tasks;
          deleted = log_task_deletion t ∷ m.deleted;
        },
      ))
      m

abbrev pub memory_client : TaskClient Memory
memory_client = record {
  tasks_many = λ q m. (answer (some (rows_where (matches uuid_eq q.eq) m.tasks)) none, m);
  tasks_single = λ q m. single q.verb q.eq m;
  deleted_many = λ q m. (answer (some m.deleted) none, m);
  deleted_single = λ q m. (refused, m);
}

abbrev pub memory_tables : Tables Memory
memory_tables = record { tasks = λ m. m.tasks; deleted = λ m. m.deleted; same_uuid = uuid_eq }

Shuffle-refl : (ts : List Task) → Shuffle ts ts
Shuffle-refl [] = nil
Shuffle-refl (t ∷ ts) = cons here (Shuffle-refl ts)

memory-Same : (m : Memory) → Same memory_tables m m
memory-Same m = record { tasks_kept = refl; deleted_kept = refl }

select_lem :
    (rows : List Task) (m : Memory) (eqs : List (String × String))
    → rows ≡ rows_where (matches uuid_eq eqs) m.tasks
    → let (a, m') = on_single rows (λ t. (answer (some t) none, m)) m in
      Same memory_tables m m' × FoundOne memory_tables eqs m a
select_lem [] m eqs e = (memory-Same m, tt)
select_lem (t ∷ []) m eqs e = (memory-Same m, sym e)
select_lem (t ∷ u ∷ r) m eqs e = (memory-Same m, tt)

update_lem :
    (rows : List Task) (m : Memory) (eqs : List (String × String)) (p : TaskPatch)
    → rows ≡ rows_where (matches uuid_eq eqs) m.tasks
    → let (a, m') =
        on_single rows
          (λ t. (
            answer (some (patch p t)) none,
            record m { tasks = replace_where (matches uuid_eq eqs) (patch p t) m.tasks },
          ))
          m in
      Writes memory_tables (Updated memory_tables eqs p m) m a m'
update_lem [] m eqs p e = inl (memory-Same m)
update_lem (t ∷ []) m eqs p e = record {
  old = t;
  found = sym e;
  updates = record {
    same_id = refl;
    same_owner = refl;
    title = refl;
    description = refl;
    due_date = refl;
    status = refl;
  };
  replaced = refl;
  deleted_kept = refl;
}
update_lem (t ∷ u ∷ r) m eqs p e = inl (memory-Same m)

delete_lem :
    (rows : List Task) (m : Memory) (eqs : List (String × String))
    → rows ≡ rows_where (matches uuid_eq eqs) m.tasks
    → let (a, m') =
        on_single rows
          (λ t. (
            answer (some t) none,
            record m {
              tasks = remove_where (matches uuid_eq eqs) m.tasks;
              deleted = log_task_deletion t ∷ m.deleted;
            },
          ))
          m in
      Writes memory_tables (Removed memory_tables eqs m) m a m'
delete_lem [] m eqs e = inl (memory-Same m)
delete_lem (t ∷ []) m eqs e = record { found = sym e; gone = refl; logged = refl }
delete_lem (t ∷ u ∷ r) m eqs e = inl (memory-Same m)

pub memory-Documented : Documented memory_tables memory_client
memory-Documented = record {
  select_single = λ eqs m. select_lem (rows_where (matches uuid_eq eqs) m.tasks) m eqs refl;
  select_many =
      λ eqs order m. (memory-Same m, Shuffle-refl (rows_where (matches uuid_eq eqs) m.tasks));
  select_deleted = λ eqs order m. memory-Same m;
  insert_single = λ o m. record {
    owner = refl;
    title = refl;
    status = refl;
    added = refl;
    deleted_kept = refl;
  };
  update_single = λ eqs p m. update_lem (rows_where (matches uuid_eq eqs) m.tasks) m eqs p refl;
  delete_single = λ eqs m. delete_lem (rows_where (matches uuid_eq eqs) m.tasks) m eqs refl;
}
