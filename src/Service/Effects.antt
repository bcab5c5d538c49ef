-- ===== src/Service/Effects.antt =====
-- The world of the API's controllers: the database, the event stream and the process's audit chain.
-- `publishEvent` of backend/src/events/eventStream.js.
use task.Prelude.{ℕ, String, Option, none, some}
use task.Prelude.Text.{Text, codes}
use task.Http.{Exception, Request, Handler, go, stop, next_error, User}
use task.Audit.Json.{Json, Fields, undefined, str, end, field}
use task.Audit.Chain.{Chain, Event, Context, from_request}
use task.Audit.Chain.{audit}
use task.Service.Answer.{answer, thrown, Ask}

-- The fields that `xadd` is given after the stream's key and its bound. `payload` is printed by
-- `JSON.stringify`.
pub record StreamEntry : Type 0 where
  pub type : String
  pub payload : Json
  pub actor_id : String
  pub request_id : String
  pub ts : Text

-- What `redis.xadd` gives back.
pub data Added : Type 0 where
  added : String → Added
  refused : Exception → Added

-- The services of the environment, and what a process reads from it: the HMAC and its key, the id
-- of the process's chain, and the time of its n-th audit record.
pub record Services : Type 1 where
  pub Db : Type 0
  pub Stream : Type 0
  pub xadd : StreamEntry → Stream → Added × Stream
  pub hmac : Text → Text → Text
  pub audit_key : Text
  pub chain_id : Text
  pub clock : ℕ → Text

module _ (s : Services) where
  open s use {Db, Stream, xadd, hmac, audit_key, chain_id, clock}

  pub record World : Type 0 where
    pub db : Db
    pub stream : Stream
    pub chain : Chain

  -- A query, as a step of a handler: an exception ends the handler.
  abbrev pub ask : {R A : Type 0} → Ask Db A → Handler World R (Option A × Option String)
  ask q w =
      let (a, db) = q w.db in
      elim a [
        | answer d e ↦ (go (d, e), record w { db = db })
        | thrown x ↦ (stop (next_error x), record w { db = db })
      ]

  -- `audit(e)` under the request with the given id.
  unfoldable pub record_audit : {R : Type 0} → Option Text → Event → Handler World R Unit
  unfolding audit
  record_audit rid e w = (
    go tt,
    record w { chain = audit hmac audit_key chain_id (clock w.chain.next_seq) rid e w.chain },
  )

  -- `publishEvent`: an exception is logged and swallowed, so the step always goes on; its value is
  -- the entry's id or null.
  unfoldable pub publish_event :
      {R : Type 0} → String → Json → String → String → Handler World R (Option String)
  publish_event type payload actor_id request_id w =
      let (a, stream) =
        xadd
          (record {
            type = type;
            payload = payload;
            actor_id = actor_id;
            request_id = request_id;
            ts = clock w.chain.next_seq;
          })
          w.stream in
      elim a [
        | added id ↦ (go (some id), record w { stream = stream })
        | refused x ↦ (go none, record w { stream = stream })
      ]

abbrev or_undefined : Option String → Json
or_undefined none = undefined
or_undefined (some t) = str (codes t)

-- `fromRequest(req)`
unfoldable pub audit_context : Request → Context
audit_context req =
    from_request (str (codes req.ip)) (str (codes req.method)) (str (codes req.original_url))
      (or_undefined req.user_agent)

-- `{ id: user.id, role: user.role }`
abbrev pub actor_of : User → Fields
actor_of u = field (codes "id") (str (codes u.id)) (field (codes "role") (str (codes u.role)) end)
