-- ===== src/Events/Consumer.antt =====
-- One round of the loop of `startConsumer` (backend/src/events/eventStream.js). Redis, the parser of
-- JSON and the handler are parameters, and the log lines are left out. The calls of the handler and
-- of XACK are kept in the order in which they are made, those of XACK with whether they threw.
use task.Prelude.{Option, none, some, List, [], ◌∷◌, if◌then◌else◌}
use task.Prelude.Text.{Text, codes, text_eq}
use task.Http.{Exception}

pub data Ended (A : Type 0) : Type 0 where
  returned : A → Ended A
  threw : Exception → Ended A

-- An entry of the stream: its id and the flat list of its fields and values.
pub record StreamItem : Type 0 where
  pub id : Text
  pub fields : List Text

pub record Delivered (J : Type 0) : Type 0 where
  pub stream_id : Text
  pub type : Option Text
  pub payload : Option J
  pub actor_id : Option Text
  pub request_id : Option Text
  pub ts : Option Text

pub data Call : Type 0 where
  handed : Text → Call
  acked : Text → Call
  unacked : Text → Call

-- `xreadgroup` gives null or the entries of the one stream that is asked for.
pub record Consumer (R W J : Type 0) : Type 0 where
  pub read_group : R → Ended (Option (List StreamItem)) × R
  pub ack : Text → R → Ended Unit × R
  pub parse : Text → Option J
  pub handler : Delivered J → W → Ended Unit × W

pub record Loop (R W : Type 0) : Type 0 where
  pub redis : R
  pub world : W
  pub calls : List Call

-- `e[name]` after `e[fields[i]] = fields[i + 1]` for each pair: the last pair with the name counts.
unfoldable pub field_of : Text → List Text → Option Text
unfolding text_eq
field_of name [] = none
field_of name (k ∷ []) = none
field_of name (k ∷ v ∷ rest) =
    let later = field_of name rest in
    elim later [ some x ↦ some x | none ↦ if text_eq k name then some v else none ]

-- `x || null`, and the test of `e.payload`.
unfoldable pub non_empty : Option Text → Option Text
non_empty none = none
non_empty (some []) = none
non_empty (some (c ∷ cs)) = some (c ∷ cs)

module _ {R W J : Type 0} (c : Consumer R W J) where
  open c use {read_group, ack, parse, handler}

  abbrev pub delivery : StreamItem → Option J → Delivered J
  delivery item payload = record {
    stream_id = item.id;
    type = field_of (codes "type") item.fields;
    payload = payload;
    actor_id = non_empty (field_of (codes "actorId") item.fields);
    request_id = non_empty (field_of (codes "requestId") item.fields);
    ts = field_of (codes "ts") item.fields;
  }

  abbrev pub with_payload : StreamItem → Option J → Option (Delivered J)
  with_payload item none = none
  with_payload item (some json) = some (delivery item (some json))

  abbrev pub payload_read : StreamItem → Option Text → Option (Delivered J)
  payload_read item none = some (delivery item none)
  payload_read item (some text) = with_payload item (parse text)

  -- The argument of the handler, or none where `JSON.parse` throws.
  unfoldable pub delivered_of : StreamItem → Option (Delivered J)
  unfolding field_of non_empty
  delivered_of item = payload_read item (non_empty (field_of (codes "payload") item.fields))

  abbrev pub xack_call : Text → Ended Unit → Call
  xack_call id (returned u) = acked id
  xack_call id (threw x) = unacked id

  -- XACK; that it throws is caught and logged.
  unfoldable pub acknowledge : Text → Loop R W → Loop R W
  acknowledge id l =
      let (answer, redis) = ack id l.redis in
      record l { redis = redis; calls = xack_call id answer ∷ l.calls }

  -- What follows the handler in the `try`.
  unfoldable pub after_handler : Text → Ended Unit → Loop R W → Loop R W
  unfolding acknowledge
  after_handler id (returned u) l = acknowledge id l
  after_handler id (threw x) l = l

  unfoldable pub hand : Text → Option (Delivered J) → Loop R W → Loop R W
  unfolding after_handler
  hand id none l = l
  hand id (some event) l =
      let (ended, world) = handler event l.world in
      after_handler id ended (record l { world = world; calls = handed id ∷ l.calls })

  -- The body of the loop over the entries.
  unfoldable pub consume_item : StreamItem → Loop R W → Loop R W
  unfolding hand delivered_of
  consume_item item l = hand item.id (delivered_of item) l

  unfoldable pub consume : List StreamItem → Loop R W → Loop R W
  unfolding consume_item
  consume [] l = l
  consume (item ∷ items) l = consume items (consume_item item l)

  -- The entries that a read gives, `if (!res) continue`, and what `catch` does.
  unfoldable pub entries_of : Ended (Option (List StreamItem)) → List StreamItem
  entries_of (returned (some items)) = items
  entries_of (returned none) = []
  entries_of (threw x) = []

  -- One round of `while (running)`.
  unfoldable pub round : Loop R W → Loop R W
  unfolding entries_of consume
  round l =
      let (answer, redis) = read_group l.redis in
      consume (entries_of answer) (record l { redis = redis })
