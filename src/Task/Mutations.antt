-- ===== src/Task/Mutations.antt =====
-- What the outcome of a request says of the tables and of the audit log
-- (backend/src/controllers/task.controller.js).
use mathlib.Core.Path.{subst}
use task.Audit.Chain.{success}
use task.Prelude.{
  ltb, arith, ℕ, String, ◌≡◌, ◌⊎◌, inl, inr, refl, sym, ap, ◌∙◌, none, some, Bool, true, List, [],
  ◌∷◌,
}
use task.Http.{Request, FieldError, run_handler, send_success, send_error}
use task.Service.Answer.{Answer, answer, thrown}
use task.Service.Effects.{Services, World}
use task.Task.Types.{Task}
use task.Task.Model.{TaskClient, by_id, find_by_id, remove, find_all, find_all_deleted}
use task.Task.Controller.{Payload, can_access, delete_task, task_event}
use task.Task.Requests.{Command, handle, after}
use task.Task.Tables.{
  Tables, Same, Removed, Writes, Documented, matches, rows_where, remove_where, log_task_deletion,
}
use task.Task.Touches.{get_touches, list_touches, list_deleted_touches}
use task.Task.Isolation.{lookup_row}
use task.Task.Outcomes.{
  Succeeded, update_refused, delete_refused, delete-Succeeded, create_refused, audited_by,
}

same_row : (a b : Task) → ◌≡◌ {A = List Task} (a ∷ []) (b ∷ []) → a ≡ b
same_row a b h = cc

module _ {Db : Type 0} (tables : Tables Db) where
  Same-refl : (db : Db) → Same tables db db
  Same-refl db = record { tasks_kept = refl; deleted_kept = refl }

  Same-trans : (a b d : Db) → Same tables a b → Same tables b d → Same tables a d
  Same-trans a b d h k = record {
    tasks_kept = k.tasks_kept ∙ h.tasks_kept;
    deleted_kept = k.deleted_kept ∙ h.deleted_kept;
  }

  Writes-Succeeded :
      (done : Task → Db → Type 0) (db : Db) (a : Answer Task) (db' : Db)
      → Succeeded a
      → Writes tables done db a db'
      → (t : Task) × done t db'
  Writes-Succeeded done db (answer none none) db' e h = absurd h
  Writes-Succeeded done db (answer (some t) none) db' e h = (t, h)
  Writes-Succeeded done db (answer none (some x)) db' e h = absurd e
  Writes-Succeeded done db (answer (some t) (some x)) db' e h = absurd e
  Writes-Succeeded done db (thrown x) db' e h = absurd e

module _ (s : Services) (c : TaskClient s.Db) (is_uuid : String → Bool) (tables : Tables s.Db)
    (doc : Documented tables c) where
  Same-find : (id : String) (db : s.Db) → Same tables db (find_by_id c id db).1
  unfolding find_by_id
  Same-find id db = (doc.select_single (by_id id) db).0

  -- A row that was looked up, or not.
  looked_up-Same :
      (id : String) (db final : s.Db)
      → (final ≡ db) ⊎ (final ≡ (find_by_id c id db).1)
      → Same tables db final
  looked_up-Same id db final (inl e) = rw e (Same-refl tables db)
  looked_up-Same id db final (inr e) = rw e (Same-find id db)

  -- A task request that is refused, which is answered by an error response with a status below 500, has
  -- left both tables as they were.
  pub refused_changes_nothing :
      (cmd : Command) (req : Request) (w : World s) (m : String) (es : List FieldError) (st : ℕ)
      → (run_handler (handle s c is_uuid cmd req) w).0 ≡ send_error m es st
      → ltb st 500 ≡ true
      → Same tables w.db (after s c is_uuid cmd req w).db
  unfolding handle find_all find_all_deleted
  refused_changes_nothing (Command.create body) req w m es st h low =
      let internal : st ≡ 500 = create_refused s c is_uuid req w body m es st h in
      absurd (ground (arith, internal))
  refused_changes_nothing Command.list req w m es st h low =
      rw (list_touches s c is_uuid req w) ((doc.select_many _ (some "created_at") w.db).0)
  refused_changes_nothing Command.list_deleted req w m es st h low =
      rw (list_deleted_touches s c is_uuid req w) (doc.select_deleted _ (some "deleted_at") w.db)
  refused_changes_nothing (Command.get id) req w m es st h low =
      looked_up-Same id w.db _ (get_touches s c is_uuid req w id)
  refused_changes_nothing (Command.update id body) req w m es st h low =
      looked_up-Same id w.db _ (update_refused s c is_uuid req w id body m es st h low)
  refused_changes_nothing (Command.delete id) req w m es st h low =
      looked_up-Same id w.db _ (delete_refused s c is_uuid req w id m es st h low)

  -- A deletion that is answered by success removed the one row with that id, which the user may
  -- access, and in the same step added its entry to the deletion log; no other row or entry changed.
  -- The audit chain has gone on by one record: the successful task.delete of this user on this id.
  pub delete_task-logged :
      (id : String) (req : Request) (w : World s) (p : Payload) (st : ℕ)
      → let (o, w') = run_handler (delete_task s c is_uuid id req) w in
        o ≡ send_success p st
        → (old : Task) × (can_access req.user old ≡ true)
          × (rows_where (matches tables.same_uuid (by_id id)) (tables.tasks w.db) ≡ old ∷ [])
          × (tables.tasks w'.db
              ≡ remove_where (matches tables.same_uuid (by_id id)) (tables.tasks w.db))
          × (tables.deleted w'.db ≡ log_task_deletion old ∷ tables.deleted w.db)
          × (w'.chain ≡ audited_by s (task_event "task.delete" success id req) req w.chain)
  unfolding remove
  delete_task-logged id req w p st h =
      let db = (find_by_id c id w.db).1 in
      let same = Same-find id w.db in
      let (granted, done, e, audited) = delete-Succeeded s c is_uuid req w id p st h in
      let (row, may, found) = lookup_row c tables doc req.user id w.db granted in
      let (old, r) =
        Writes-Succeeded tables (Removed tables (by_id id) db) db (remove c id db).0
          (remove c id db).1 done (doc.delete_single (by_id id) db) in
      (
        old,
        subst (λ t. can_access req.user t ≡ true) (same_row row old (sym found ∙ r.found)) may,
        rw (← same.tasks_kept) (r.found),
        rw e (r.gone ∙ ap (remove_where (matches tables.same_uuid (by_id id))) same.tasks_kept),
        rw e (r.logged ∙ ap (λ l. log_task_deletion old ∷ l) same.deleted_kept),
        audited,
      )
