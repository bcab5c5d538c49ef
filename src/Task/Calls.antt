-- ===== src/Task/Calls.antt =====
-- The calls of backend/src/controllers/task.controller.js between which other requests may run, for a
-- predicate of the database and the audit chain that `audit` keeps.
use task.Prelude.{String, ◌≡◌, refl, none, some, Option, Bool, true, false, arith, if◌then◌else◌}
use task.Http.{Request, Outcome, go, stop, return_if}
use task.Async.{◌>>=◌, ◌>>◌, await, pure}
use task.Async.Steps.{Gives, AnyValue, Gives-AnyValue, Awaited, Steps, Steps-await, Steps-ended}
use task.Audit.Json.{Json}
use task.Prelude.Text.{Text, codes}
use task.Audit.Chain.{AuditResult, failure, Chain, Event, audit}
use task.Service.Answer.{Answer, answer, thrown, usable, Ask}
use task.Service.Effects.{Services, World, ask, record_audit, publish_event}
use task.Task.Model.{TaskClient}
use task.Task.Controller.{
  Payload, task_event, audit_task, publish, required, unless_error, non_null, deny_unless,
}

-- `audit` keeps the predicate.
abbrev pub Audits : (s : Services) → (s.Db → Chain → Type 0) → Type 0
Audits s I =
    (rid : Option Text) (e : Event) (db : s.Db) (ch : Chain)
    → I db ch
    → I db (audit s.hmac s.audit_key s.chain_id (s.clock ch.next_seq) rid e ch)

module _ (s : Services) (c : TaskClient s.Db) (is_uuid : String → Bool) (I : s.Db → Chain → Type 0)
    (audits : Audits s I) where
  abbrev pub Within : World s → Type 0
  Within w = I w.db w.chain

  -- Calls that leave the database as it is.
  pub return_if-Within : (b : Bool) (o : Outcome Payload) → Awaited Within AnyValue (return_if b o)
  return_if-Within b o = record { at = λ w h. (h, Gives-AnyValue (if b then stop o else go tt)) }

  pub audit_task-Within :
      (action : String) (result : AuditResult) (id : String) (req : Request)
      → Awaited Within AnyValue (audit_task s c is_uuid action result id req)
  unfolding record_audit
  audit_task-Within action result id req = record {
    at = λ w h.
        (audits (some (codes req.request_id)) (task_event action result id req) w.db w.chain h, tt);
  }

  pub publish-Within :
      (type : String) (payload : Json) (req : Request)
      → Awaited Within AnyValue (publish s c is_uuid type payload req)
  unfolding publish_event
  publish-Within type payload req = record { at = λ w h. ground arith }

  pub unless_error-Within :
      {A : Type 0} (r : Option A × Option String) (o : Outcome Payload)
      → Awaited Within AnyValue (unless_error s c is_uuid r o)
  unless_error-Within (d, some e) o = record { at = λ w h. (h, tt) }
  unless_error-Within (some a, none) o = record { at = λ w h. (h, tt) }
  unless_error-Within (none, none) o = record { at = λ w h. (h, tt) }

  pub non_null-Within :
      {A : Type 0} (a : Option A) → Awaited Within AnyValue (non_null s c is_uuid a)
  non_null-Within none = record { at = λ w h. (h, tt) }
  non_null-Within (some a) = record { at = λ w h. (h, tt) }

  pub deny_unless-Within :
      (b : Bool) (id : String) (req : Request)
      → Awaited Within (λ _. b ≡ true) (deny_unless s c is_uuid b id req)
  unfolding record_audit
  deny_unless-Within true id req = record { at = λ w h. (h, refl) }
  deny_unless-Within false id req = record {
    at = λ w h. (
      audits (some (codes req.request_id)) (task_event "authz.deny" failure id req) w.db w.chain h,
      tt,
    );
  }

  pub required-Within :
      {A : Type 0} (r : Option A × Option String) (o : Outcome Payload)
      → Awaited Within (λ a. usable r.0 r.1 ≡ some a) (required s c is_uuid r o)
  required-Within (d, some e) o = record { at = λ w h. (h, tt) }
  required-Within (some a, none) o = record { at = λ w h. (h, refl) }
  required-Within (none, none) o = record { at = λ w h. (h, tt) }

  asked_at :
      {A : Type 0} (Q : Option A × Option String → Type 0) (a : Answer A) (db : s.Db) (w : World s)
      → I db w.chain
      → ((d : Option A) (e : Option String) → a ≡ answer d e → Q (d, e))
      → let (r, w') = ask s {R = Payload} (λ _. (a, db)) w in Within w' × Gives Q r
  asked_at Q (answer d e) db w i h = (i, h d e refl)
  asked_at Q (thrown x) db w i h = (i, tt)

  -- A query after which the task is still there, and what its answer says.
  pub asked :
      {A : Type 0} (Q : Option A × Option String → Type 0) (q : Ask s.Db A)
      → ((db : s.Db) (ch : Chain) → I db ch → I (q db).1 ch)
      → ((db : s.Db) (ch : Chain)
          → I db ch
          → (d : Option A) (e : Option String) → (q db).0 ≡ answer d e
          → Q (d, e))
      → Awaited {R = Payload} Within Q (ask s q)
  asked Q q kept says = record {
    at = λ w i. asked_at Q (q w.db).0 (q w.db).1 w (kept w.db w.chain i) (says w.db w.chain i);
  }

  -- The last steps of a handler that has changed a task: the audit record, the event, the response.
  pub reported-Within :
      (action : String) (result : AuditResult) (id type : String) (payload : Json) (req : Request)
      (o : Outcome Payload)
      → Steps Within AnyValue (
          await (audit_task s c is_uuid action result id req)
          >> (await (publish s c is_uuid type payload req) >> pure o))
  reported-Within action result id type payload req o =
      Steps-await Within _ _ (audit_task-Within action result id req)
        λ _ _. Steps-await Within _ _ (publish-Within type payload req) λ _ _. Steps-ended Within _

  -- A query whose answer is checked and sent.
  pub answered-Within :
      {A : Type 0} (q : Ask s.Db A) (b : Option A × Option String → Bool) (o : Outcome Payload)
      (final : Option A × Option String → Outcome Payload)
      → ((db : s.Db) (ch : Chain) → I db ch → I (q db).1 ch)
      → Steps Within AnyValue (await (ask s q) >>= λ r. await (return_if (b r) o) >> pure (final r))
  answered-Within q b o final kept =
      Steps-await Within _ _ (asked AnyValue q kept λ _ _ _ _ _ _. tt)
        λ r _. Steps-await Within _ _ (return_if-Within (b r) o) λ _ _. Steps-ended Within _
