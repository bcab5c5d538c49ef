-- ===== src/Task/Rules.antt =====
-- A rule for each handler of backend/src/controllers/task.controller.js as a process: it keeps a
-- predicate of the database and the audit chain if its queries do.
use task.Prelude.{String, ◌≡◌, some, Option, Bool, true}
use task.Http.{Request}
use task.Async.Steps.{AnyValue, Awaited, Steps, Steps-await, Steps-ended}
use task.Audit.Chain.{Chain}
use task.Service.Answer.{usable}
use task.Service.Effects.{Services, World, ask}
use task.Task.Types.{Task, NewTask, TaskPatch}
use task.Task.Model.{
  TaskClient, find_all, find_by_id, create, update_task, remove, find_all_deleted,
}
use task.Task.Controller.{Payload, can_access}
use task.Task.Calls.{
  Audits, Within, asked, return_if-Within, unless_error-Within, non_null-Within, audit_task-Within,
  publish-Within, deny_unless-Within, required-Within, reported-Within, answered-Within,
}
use task.Task.Concurrent.{Running, creating, listing, getting, updating, deleting, listing_deleted}

module _ (s : Services) (c : TaskClient s.Db) (is_uuid : String → Bool) (I : s.Db → Chain → Type 0)
    (audits : Audits s I) where
  abbrev Kept : World s → Type 0
  Kept = Within s c is_uuid I audits

  abbrev pub Keeps : Running s c is_uuid → Type 0
  Keeps = Steps Kept AnyValue

  -- What a lookup says is known of a row that the user may access, where the next query is made.
  module _ (req : Request) (id : String) (Says : Option Task × Option String → Type 0)
      (found : Awaited {R = Payload} Kept Says (ask s (find_by_id c id))) where
    abbrev Behind : Type 0 → Type 0
    Behind K =
        (r : Option Task × Option String) (old : Task)
        → Says r
        → usable r.0 r.1 ≡ some old
        → can_access req.user old ≡ true
        → K

    pub deleting-Keeps :
        Behind (Awaited {R = Payload} Kept AnyValue (ask s (remove c id)))
        → Keeps (deleting s c is_uuid id req)
    unfolding deleting
    deleting-Keeps removes = Steps-await Kept _ _ (return_if-Within s c is_uuid I audits _ _) λ _ _.
        Steps-await Kept _ _ found λ r says.
          Steps-await Kept _ _ (required-Within s c is_uuid I audits r _) λ old e.
            Steps-await Kept _ _ (deny_unless-Within s c is_uuid I audits _ _ _) λ _ granted.
              Steps-await Kept _ _ (removes r old says e granted) λ removed _.
                Steps-await Kept _ _ (return_if-Within s c is_uuid I audits _ _)
                  λ _ _. reported-Within s c is_uuid I audits _ _ _ _ _ req _

    pub updating-Keeps :
        (body : TaskPatch)
        → Behind (Awaited {R = Payload} Kept AnyValue (ask s (update_task c id body)))
        → Keeps (updating s c is_uuid id body req)
    unfolding updating
    updating-Keeps body updates =
        Steps-await Kept _ _ (return_if-Within s c is_uuid I audits _ _) λ _ _.
          Steps-await Kept _ _ found λ r says.
            Steps-await Kept _ _ (required-Within s c is_uuid I audits r _) λ old e.
              Steps-await Kept _ _ (deny_unless-Within s c is_uuid I audits _ _ _) λ _ granted.
                Steps-await Kept _ _ (return_if-Within s c is_uuid I audits _ _) λ _ _.
                  Steps-await Kept _ _ (updates r old says e granted) λ answered _.
                    Steps-await Kept _ _ (return_if-Within s c is_uuid I audits _ _) λ _ _.
                      Steps-await Kept _ _ (audit_task-Within s c is_uuid I audits _ _ _ req) λ _ _.
                        Steps-await Kept _ _ (non_null-Within s c is_uuid I audits answered.0)
                          λ _ _.
                            Steps-await Kept _ _ (publish-Within s c is_uuid I audits _ _ req)
                              λ _ _. Steps-ended Kept _

    pub getting-Keeps : Keeps (getting s c is_uuid id req)
    unfolding getting
    getting-Keeps = Steps-await Kept _ _ (return_if-Within s c is_uuid I audits _ _) λ _ _.
        Steps-await Kept _ _ found λ r _.
          Steps-await Kept _ _ (required-Within s c is_uuid I audits r _) λ old _.
            Steps-await Kept _ _ (return_if-Within s c is_uuid I audits _ _)
              λ _ _. Steps-ended Kept _

  module _ (req : Request) where
    pub creating-Keeps :
        (body : NewTask)
        → ((db : s.Db) (ch : Chain) → I db ch → I (create c body req.user.id db).1 ch)
        → Keeps (creating s c is_uuid body req)
    unfolding creating
    creating-Keeps body kept =
        Steps-await Kept _ _
          (asked s c is_uuid I audits AnyValue (create c body req.user.id) kept λ _ _ _ _ _ _. tt)
          λ answered _.
            Steps-await Kept _ _ (unless_error-Within s c is_uuid I audits answered _)
              λ _ _. reported-Within s c is_uuid I audits _ _ _ _ _ req _

    pub listing-Keeps :
        ((db : s.Db) (ch : Chain) → I db ch → I (find_all c req.user db).1 ch)
        → Keeps (listing s c is_uuid req)
    unfolding listing
    listing-Keeps = answered-Within s c is_uuid I audits (find_all c req.user) _ _ _

    pub listing_deleted-Keeps :
        ((db : s.Db) (ch : Chain) → I db ch → I (find_all_deleted c req.user db).1 ch)
        → Keeps (listing_deleted s c is_uuid req)
    unfolding listing_deleted
    listing_deleted-Keeps = answered-Within s c is_uuid I audits (find_all_deleted c req.user) _ _ _
