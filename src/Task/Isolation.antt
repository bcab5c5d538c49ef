-- ===== src/Task/Isolation.antt =====
-- What one user's requests (backend/src/controllers/task.controller.js) do to other users' tasks.
use task.Prelude.{
  String, ◌≡◌, ◌⊎◌, inl, inr, none, some, Bool, true, false, List, [], ◌∷◌, refl, Bool-cases,
}
use task.Prelude.Sorting.{Any}
use task.Http.{User, Request}
use task.Service.Answer.{Answer, answer, thrown}
use task.Service.Effects.{Services, World}
use task.Task.Types.{Task, NewTask, TaskPatch}
use task.Task.Model.{
  TaskClient, OwnedTask, by_id, find_by_id, find_all, find_all_deleted, create, update_task, remove,
}
use task.Task.Controller.{can_access}
use task.Task.Requests.{Command, handle, serve, after}
use task.Task.Tables.{
  Tables, Same, Inserted, Updated, Removed, Writes, FoundOne, Documented, matches, rows_where,
  replace_where, remove_where,
}
use task.Task.Touches.{
  Granted, update_touches, delete_touches, get_touches, create_touches, list_touches,
  list_deleted_touches,
}

abbrev pub In : Task → List Task → Type 0
In t = Any (λ x. x ≡ t)

module _ (p : Task → Bool) where
  In-rows_where : (t : Task) (ts : List Task) → In t ts → p t ≡ true → In t (rows_where p ts)
  unfolding rows_where
  In-rows_where t (x ∷ ts) (inl e) h = rw (e, h) (inl refl)
  In-rows_where t (x ∷ ts) (inr i) h = elim (Bool-cases (p x)) [
    | inl y ↦ rw y (inr (In-rows_where t ts i h))
    | inr n ↦ rw n (In-rows_where t ts i h)
  ]
  In-rows_where t [] i h = absurd i

  pub In-replace_where :
      (t new : Task) (ts : List Task) → In t ts → p t ≡ false → In t (replace_where p new ts)
  unfolding replace_where
  In-replace_where t new [] i h = absurd i
  In-replace_where t new (x ∷ ts) (inl e) h = rw (e, h) (inl refl)
  In-replace_where t new (x ∷ ts) (inr i) h = elim (Bool-cases (p x)) [
    | inl y ↦ rw y (inr (In-replace_where t new ts i h))
    | inr n ↦ rw n (inr (In-replace_where t new ts i h))
  ]

  pub In-remove_where :
      (t : Task) (ts : List Task) → In t ts → p t ≡ false → In t (remove_where p ts)
  unfolding remove_where
  In-remove_where t [] i h = absurd i
  In-remove_where t (x ∷ ts) (inl e) h = rw (e, h) (inl refl)
  In-remove_where t (x ∷ ts) (inr i) h = elim (Bool-cases (p x)) [
    | inl y ↦ rw y (In-remove_where t ts i h)
    | inr n ↦ rw n (inr (In-remove_where t ts i h))
  ]

  -- What the user may not access is not the one row that the user may.
  pub other_row :
      (u : User) (t old : Task) (ts : List Task)
      → In t ts
      → can_access u t ≡ false
      → can_access u old ≡ true
      → rows_where p ts ≡ old ∷ []
      → p t ≡ false
  other_row u t old ts i denied granted e = elim (Bool-cases (p t)) [
    | inr n ↦ n
    | inl y ↦ elim (rw e at (In-rows_where t ts i y)) [
      | inl same ↦ cc (denied, granted, same)
      | inr none_left ↦ absurd none_left
    ]
  ]

module _ {Db : Type 0} (c : TaskClient Db) (tables : Tables Db) (doc : Documented tables c) where
  -- Every task that the user may not access is still there, unchanged.
  abbrev pub Isolated : User → Db → Db → Type 0
  Isolated u db db' =
      (t : Task) → In t (tables.tasks db) → can_access u t ≡ false → In t (tables.tasks db')

  Isolated-Same : (u : User) (db db' : Db) → Same tables db db' → Isolated u db db'
  Isolated-Same u db db' h t i denied = rw (h.tasks_kept) i

  Isolated-trans : (u : User) (a b d : Db) → Isolated u a b → Isolated u b d → Isolated u a d
  Isolated-trans u a b d f g t i denied = g t (f t i denied) denied

  -- A write keeps a task if the row that it is carried out on leaves the task there.
  pub In-Writes :
      (t : Task) (done : Task → Db → Type 0) (db : Db) (a : Answer Task) (db' : Db)
      → In t (tables.tasks db)
      → ((new : Task) → done new db' → In t (tables.tasks db'))
      → Writes tables done db a db'
      → In t (tables.tasks db')
  In-Writes t done db (answer (some x) none) db' i f h = f x h
  In-Writes t done db (answer none none) db' i f h = absurd h
  In-Writes t done db (answer none (some e)) db' i f (inl h) = rw (h.tasks_kept) i
  In-Writes t done db (answer none (some e)) db' i f (inr (y, h)) = f y h
  In-Writes t done db (answer (some x) (some e)) db' i f (inl h) = rw (h.tasks_kept) i
  In-Writes t done db (answer (some x) (some e)) db' i f (inr (y, h)) = f y h
  In-Writes t done db (thrown x) db' i f (inl h) = rw (h.tasks_kept) i
  In-Writes t done db (thrown x) db' i f (inr (y, h)) = f y h

  Isolated-Writes :
      (u : User) (done : Task → Db → Type 0) (db : Db) (a : Answer Task) (db' : Db)
      → ((t : Task) → done t db' → Isolated u db db')
      → Writes tables done db a db'
      → Isolated u db db'
  Isolated-Writes u done db a db' f h t i denied =
      In-Writes t done db a db' i (λ new d. f new d t i denied) h

  -- The row of a lookup that grants access, after the lookup.
  Granted-row :
      (u : User) (eqs : List (String × String)) (db db' : Db) (a : Answer Task)
      → Same tables db db'
      → FoundOne tables eqs db a
      → Granted u a
      → (old : Task) × (can_access u old ≡ true)
        × (rows_where (matches tables.same_uuid eqs) (tables.tasks db') ≡ old ∷ [])
  Granted-row u eqs db db' (answer (some t) none) same found g = (t, g, rw (same.tasks_kept) found)
  Granted-row u eqs db db' (answer (some t) (some e)) same found g = absurd g
  Granted-row u eqs db db' (answer none none) same found g = absurd g
  Granted-row u eqs db db' (answer none (some e)) same found g = absurd g
  Granted-row u eqs db db' (thrown x) same found g = absurd g

  pub lookup_row :
      (u : User) (id : String) (db : Db)
      → Granted u (find_by_id c id db).0
      → (old : Task) × (can_access u old ≡ true)
        × (rows_where (matches tables.same_uuid (by_id id)) (tables.tasks (find_by_id c id db).1)
            ≡ old ∷ [])
  unfolding find_by_id
  lookup_row u id db g =
      let (same, found) = doc.select_single (by_id id) db in
      Granted-row u (by_id id) db (find_by_id c id db).1 (find_by_id c id db).0 same found g

  pub Isolated-find : (u : User) (id : String) (db : Db) → Isolated u db (find_by_id c id db).1
  unfolding find_by_id
  Isolated-find u id db = Isolated-Same u db _ ((doc.select_single (by_id id) db).0)

  pub Isolated-find_all : (u : User) (db : Db) → Isolated u db (find_all c u db).1
  unfolding find_all
  Isolated-find_all u db = Isolated-Same u db _ ((doc.select_many _ (some "created_at") db).0)

  pub Isolated-find_all_deleted : (u : User) (db : Db) → Isolated u db (find_all_deleted c u db).1
  unfolding find_all_deleted
  Isolated-find_all_deleted u db =
      Isolated-Same u db _ (doc.select_deleted _ (some "deleted_at") db)

  pub Isolated-create :
      (u : User) (body : NewTask) (owner : String) (db : Db)
      → Isolated u db (create c body owner db).1
  unfolding create
  Isolated-create u body owner db =
      let o : OwnedTask = record { task = body; user_id = owner } in
      Isolated-Writes u (Inserted tables o db) db _ _ (λ new h t i denied. rw (h.added) (inr i))
        (doc.insert_single o db)

  Isolated-update :
      (u : User) (id : String) (body : TaskPatch) (db : Db) (old : Task)
      → can_access u old ≡ true
      → rows_where (matches tables.same_uuid (by_id id)) (tables.tasks db) ≡ old ∷ []
      → Isolated u db (update_task c id body db).1
  unfolding update_task
  Isolated-update u id body db old granted found =
      Isolated-Writes u (Updated tables (by_id id) body db) db _ _
        (λ new h t i denied. rw (h.replaced) (
          In-replace_where (matches tables.same_uuid (by_id id)) t new (tables.tasks db) i (
            other_row (matches tables.same_uuid (by_id id)) u t old (tables.tasks db) i denied
              granted found)))
        (doc.update_single (by_id id) body db)

  Isolated-remove :
      (u : User) (id : String) (db : Db) (old : Task)
      → can_access u old ≡ true
      → rows_where (matches tables.same_uuid (by_id id)) (tables.tasks db) ≡ old ∷ []
      → Isolated u db (remove c id db).1
  unfolding remove
  Isolated-remove u id db old granted found =
      Isolated-Writes u (Removed tables (by_id id) db) db _ _
        (λ gone h t i denied. rw (h.gone) (
          In-remove_where (matches tables.same_uuid (by_id id)) t (tables.tasks db) i (
            other_row (matches tables.same_uuid (by_id id)) u t old (tables.tasks db) i denied
              granted found)))
        (doc.delete_single (by_id id) db)

module _ (s : Services) (c : TaskClient s.Db) (is_uuid : String → Bool) (tables : Tables s.Db)
    (doc : Documented tables c) where
  abbrev pub Keeps : Command → Request → World s → Type 0
  Keeps cmd req w = Isolated c tables doc req.user w.db (after s c is_uuid cmd req w).db

  -- The database of a request that looks a row up and may then change it.
  behind_lookup :
      (u : User) (id : String) (db final changed : s.Db)
      → (final ≡ db)
        ⊎ (final ≡ (find_by_id c id db).1)
        ⊎ (Granted u (find_by_id c id db).0 × (final ≡ changed))
      → ((old : Task)
          → can_access u old ≡ true
          → rows_where (matches tables.same_uuid (by_id id)) (tables.tasks (find_by_id c id db).1)
            ≡ old ∷ []
          → Isolated c tables doc u (find_by_id c id db).1 changed)
      → Isolated c tables doc u db final
  behind_lookup u id db final changed (inl e) f = λ t i denied. rw e i
  behind_lookup u id db final changed (inr (inl e)) f = rw e (Isolated-find c tables doc u id db)
  behind_lookup u id db final changed (inr (inr (g, e))) f =
      let (old, granted, found) = lookup_row c tables doc u id db g in
      rw e (
        Isolated-trans c tables doc u db (find_by_id c id db).1 changed
          (Isolated-find c tables doc u id db) (f old granted found))

  pub handle-Isolated : (cmd : Command) (req : Request) (w : World s) → Keeps cmd req w
  unfolding handle
  handle-Isolated (Command.create body) req w =
      rw (create_touches s c is_uuid req w body)
        (Isolated-create c tables doc req.user body req.user.id w.db)
  handle-Isolated Command.list req w =
      rw (list_touches s c is_uuid req w) (Isolated-find_all c tables doc req.user w.db)
  handle-Isolated Command.list_deleted req w =
      rw (list_deleted_touches s c is_uuid req w)
        (Isolated-find_all_deleted c tables doc req.user w.db)
  handle-Isolated (Command.get id) req w = elim (get_touches s c is_uuid req w id) [
    | inl e ↦ λ t i denied. rw e i
    | inr e ↦ rw e (Isolated-find c tables doc req.user id w.db)
  ]
  handle-Isolated (Command.update id body) req w =
      let db = (find_by_id c id w.db).1 in
      behind_lookup req.user id w.db _ (update_task c id body db).1
        (update_touches s c is_uuid req w id body)
        (Isolated-update c tables doc req.user id body db)
  handle-Isolated (Command.delete id) req w =
      let db = (find_by_id c id w.db).1 in
      behind_lookup req.user id w.db _ (remove c id db).1 (delete_touches s c is_uuid req w id)
        (Isolated-remove c tables doc req.user id db)

  -- Every request of the list was made by a user who may not access the task.
  abbrev pub AllDenied : Task → List (Command × Request) → Type 0
  AllDenied t [] = Unit
  AllDenied t ((cmd, req) ∷ rest) = (can_access req.user t ≡ false) × AllDenied t rest

  -- A task is still in the table, with every column as it was, after any requests of users who may
  -- not access it, whatever answers and exceptions the database gives.
  serve_isolated :
      (requests : List (Command × Request)) (w : World s) (t : Task)
      → In t (tables.tasks w.db)
      → AllDenied t requests
      → In t (tables.tasks (serve s c is_uuid requests w).db)
  unfolding serve
  serve_isolated [] w t i h = i
  serve_isolated ((cmd, req) ∷ rest) w t i h =
      serve_isolated rest (after s c is_uuid cmd req w) t (handle-Isolated cmd req w t i h.0) h.1
