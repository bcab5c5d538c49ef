-- ===== src/Task/Interleaved.antt =====
-- Task requests of several users at the same time (backend/src/controllers/task.controller.js): what
-- one user's requests do to another user's task, however they are interleaved.
use task.Prelude.{ℕ, String, ◌≡◌, none, some, Option, Bool, true, false, List, [], ◌∷◌, map, arith}
use task.Prelude.Sorting.{All}
use task.Http.{Request}
use task.Async.{interleave}
use task.Async.Steps.{AnyValue, Awaited, interleave-Steps}
use task.Audit.Chain.{Chain}
use task.Service.Answer.{answer, usable}
use task.Service.Effects.{Services, World, ask}
use task.Task.Types.{Task, TaskPatch}
use task.Task.Model.{TaskClient, by_id, find_by_id, update_task, remove}
use task.Task.Controller.{Payload, can_access}
use task.Task.Requests.{Command}
use task.Task.Tables.{Tables, Documented, Updated, Removed, FoundOne, matches, rows_where}
use task.Task.Isolation.{
  In, other_row, In-Writes, In-replace_where, In-remove_where, Isolated-create, Isolated-find,
  Isolated-find_all, Isolated-find_all_deleted, AllDenied,
}
use task.Task.Calls.{Audits, Within, asked}
use task.Task.Rules.{
  Keeps, creating-Keeps, listing-Keeps, listing_deleted-Keeps, getting-Keeps, updating-Keeps,
  deleting-Keeps,
}
use task.Task.Concurrent.{start_request}

module _ (s : Services) (c : TaskClient s.Db) (is_uuid : String → Bool) (tables : Tables s.Db)
    (doc : Documented tables c) (t : Task) where
  abbrev There : s.Db → Chain → Type 0
  There db ch = In t (tables.tasks db)

  abbrev audits : Audits s There
  audits rid e db ch i = i

  abbrev Kept : World s → Type 0
  Kept = Within s c is_uuid There audits

  -- A lookup whose row the user may access has not found the task by its id.
  abbrev pub Spares : Request → String → Option Task × Option String → Type 0
  Spares req id (d, e) =
      (old : Task)
      → usable d e ≡ some old
      → can_access req.user old ≡ true
      → matches tables.same_uuid (by_id id) t ≡ false

  -- The row of an answer is the one row of the lookup.
  found_row :
      (eqs : List (String × String)) (db : s.Db) (d : Option Task) (e : Option String) (old : Task)
      → usable d e ≡ some old
      → FoundOne tables eqs db (answer d e)
      → rows_where (matches tables.same_uuid eqs) (tables.tasks db) ≡ old ∷ []
  found_row eqs db (some x) none old u found = ground arith
  found_row eqs db none none old u found = absurd (ground arith)
  found_row eqs db d (some x) old u found = absurd (ground arith)

  module _ (req : Request) (denied : can_access req.user t ≡ false) (id : String) where
    find-Kept : Awaited {R = Payload} Kept (Spares req id) (ask s (find_by_id c id))
    unfolding find_by_id
    find-Kept =
        asked s c is_uuid There audits (Spares req id) (find_by_id c id)
          (λ db ch i. Isolated-find c tables doc req.user id db t i denied)
          λ db ch i d e answered old usable_row granted.
            other_row (matches tables.same_uuid (by_id id)) req.user t old (tables.tasks db) i
              denied granted
              (found_row (by_id id) db d e old usable_row
                (rw answered at (doc.select_single (by_id id) db).1))

    remove-Kept :
        matches tables.same_uuid (by_id id) t ≡ false
        → Awaited {R = Payload} Kept AnyValue (ask s (remove c id))
    unfolding remove
    remove-Kept other =
        asked s c is_uuid There audits AnyValue (remove c id)
          (λ db ch i.
            In-Writes c tables doc t (Removed tables (by_id id) db) db _ _ i
              (λ old h.
                rw (h.gone) (
                  In-remove_where (matches tables.same_uuid (by_id id)) t (tables.tasks db) i
                    other))
              (doc.delete_single (by_id id) db))
          λ _ _ _ _ _ _. tt

    update-Kept :
        (body : TaskPatch)
        → matches tables.same_uuid (by_id id) t ≡ false
        → Awaited {R = Payload} Kept AnyValue (ask s (update_task c id body))
    unfolding update_task
    update-Kept body other =
        asked s c is_uuid There audits AnyValue (update_task c id body)
          (λ db ch i.
            In-Writes c tables doc t (Updated tables (by_id id) body db) db _ _ i
              (λ new h. rw (h.replaced) (
                In-replace_where (matches tables.same_uuid (by_id id)) t new (tables.tasks db) i
                  other))
              (doc.update_single (by_id id) body db))
          λ _ _ _ _ _ _. tt

  module _ (req : Request) (denied : can_access req.user t ≡ false) where
    start_request-Keeps :
        (cmd : Command) → Keeps s c is_uuid There audits (start_request s c is_uuid (cmd, req))
    unfolding start_request
    start_request-Keeps (Command.create body) =
        creating-Keeps s c is_uuid There audits req body
          λ db ch i. Isolated-create c tables doc req.user body req.user.id db t i denied
    start_request-Keeps Command.list =
        listing-Keeps s c is_uuid There audits req
          λ db ch i. Isolated-find_all c tables doc req.user db t i denied
    start_request-Keeps Command.list_deleted =
        listing_deleted-Keeps s c is_uuid There audits req
          λ db ch i. Isolated-find_all_deleted c tables doc req.user db t i denied
    start_request-Keeps (Command.get id) =
        getting-Keeps s c is_uuid There audits req id (Spares req id) (find-Kept req denied id)
    start_request-Keeps (Command.update id body) =
        updating-Keeps s c is_uuid There audits req id (Spares req id) (find-Kept req denied id)
          body λ r old spares e granted. update-Kept req denied id body (spares old e granted)
    start_request-Keeps (Command.delete id) =
        deleting-Keeps s c is_uuid There audits req id (Spares req id) (find-Kept req denied id)
          λ r old spares e granted. remove-Kept req denied id (spares old e granted)

  started-Keeps :
      (requests : List (Command × Request))
      → AllDenied s c is_uuid tables doc t requests
      → All (Keeps s c is_uuid There audits) (map (start_request s c is_uuid) requests)
  started-Keeps [] h = tt
  started-Keeps ((cmd, req) ∷ rest) h = (start_request-Keeps req h.0 cmd, started-Keeps rest h.1)

  -- A task is still in the table, unchanged, however requests of users who may not access it are
  -- interleaved: they start at any time, and after each of their steps, database queries included,
  -- any other of them may go on; whatever the database answers or throws.
  pub interleave_isolated :
      (requests : List (Command × Request)) (schedule : List ℕ) (w : World s)
      → In t (tables.tasks w.db)
      → AllDenied s c is_uuid tables doc t requests
      → In t
          (tables.tasks (interleave schedule w (map (start_request s c is_uuid) requests)).world.db)
  interleave_isolated requests schedule w i h =
      interleave-Steps Kept AnyValue schedule w (map (start_request s c is_uuid) requests) i
        (started-Keeps requests h)
