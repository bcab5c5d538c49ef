-- ===== src/Events/Reports.antt =====
-- The consumer of the reports service: `startConsumer` with `ensureGroup` of
-- backend/src/events/eventStream.js, and the handler of backend/src/events/reportsConsumer.js.
use task.Prelude.{ℕ, zero, suc, Option, none, some, List, if◌then◌else◌}
use task.Prelude.Text.{Text, codes, includes_text}
use task.Audit.Json.{Json, Fields, undefined, str, end, field}
use task.Audit.Chain.{Event, success, of_event, Chain, audit, id_or_null}
use task.Events.Consumer.{Ended, returned, threw, Delivered, Consumer, Loop, round, StreamItem}

-- The end of `ensureGroup`: that the group exists is no error.
unfoldable pub group_ensured : Ended Unit → Ended Unit
unfolding includes_text
group_ensured (returned u) = returned u
group_ensured (threw x) =
    if includes_text (codes "BUSYGROUP") (codes x.message) then returned tt else threw x

module _ {R W J : Type 0} (c : Consumer R W J) where
  -- The rounds that the loop makes before `stop()`.
  unfoldable pub rounds : ℕ → Loop R W → Loop R W
  unfolding round
  rounds zero l = l
  rounds (suc n) l = rounds n (round c l)

  -- What `startConsumer` does when the group is ensured, or not.
  unfoldable pub loop_started : Ended Unit → ℕ → Loop R W → Ended Unit × Loop R W
  unfolding rounds
  loop_started (returned u) n l = (returned u, rounds n l)
  loop_started (threw x) n l = (threw x, l)

  -- `startConsumer`, with XGROUP CREATE, and the loop for as many rounds as it makes.
  unfoldable pub start_consumer : (R → Ended Unit × R) → ℕ → Loop R W → Ended Unit × Loop R W
  unfolding group_ensured loop_started
  start_consumer create_group n l =
      let (answer, redis) = create_group l.redis in
      loop_started (group_ensured answer) n (record l { redis = redis })

abbrev text_or_undefined : Option Text → Json
text_or_undefined none = undefined
text_or_undefined (some t) = str t

abbrev actor_of : Option Text → Option Fields
actor_of none = none
actor_of (some id) = some (field (codes "id") (str id) end)

-- The audit record of an event that is consumed.
unfoldable pub consumed : {J : Type 0} → Delivered J → Event
consumed e = record {
  action = codes "event.consume";
  result = success;
  actor = actor_of e.actor_id;
  resource =
      some (field (codes "type") (str (codes "event")) (field (codes "id") (str e.stream_id) end));
  context = of_event (id_or_null e.request_id);
  metadata = some (field (codes "eventType") (text_or_undefined e.type) end);
}

module _ (hmac : Text → Text → Text) (key chain_id : Text) (clock : ℕ → Text) where
  -- `handleEvent`, less its log line; there is no request around it.
  unfoldable pub handle_event : {J : Type 0} → Delivered J → Chain → Ended Unit × Chain
  unfolding audit consumed
  handle_event e chain =
      (returned tt, audit hmac key chain_id (clock chain.next_seq) none (consumed e) chain)

  -- `startReportsConsumer`: the consumer with this handler.
  unfoldable pub reports_consumer :
      {R J : Type 0}
      → (R → Ended (Option (List StreamItem)) × R)
      → (Text → R → Ended Unit × R)
      → (Text → Option J)
      → Consumer R Chain J
  unfolding handle_event
  reports_consumer read_group ack parse = record {
    read_group = read_group;
    ack = ack;
    parse = parse;
    handler = handle_event;
  }
