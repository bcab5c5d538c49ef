-- ===== src/Events/Audited.antt =====
-- The reports service audits what it consumes (backend/src/events/reportsConsumer.js).
use task.Prelude.{
  ℕ, zero, suc, ◌≡◌, refl, ap, ◌∙◌, sym, Option, none, some, List, [], ◌∷◌, ◌++◌, map, arith,
}
use task.Prelude.Text.{Text, codes}
use task.Audit.Json.{Fields, str, end, field}
use task.Audit.Chain.{Chain, boot, audit}
use task.Audit.Emission.{AuditCall, run}
use task.Events.Consumer.{
  Ended, returned, threw, StreamItem, Delivered, Call, handed, acked, unacked, xack_call, Consumer,
  Loop, acknowledge, after_handler, hand, delivered_of, consume_item, with_payload, payload_read,
  field_of, non_empty, consume, entries_of, round,
}
use task.Events.Reports.{
  rounds, loop_started, start_consumer, group_ensured, consumed, handle_event, reports_consumer,
}

-- The entries that the handler was called with, and those that XACK was called for, in their order.
unfoldable pub handed_ids : List Call → List Text
handed_ids [] = []
handed_ids (handed id ∷ calls) = handed_ids calls ++ (id ∷ [])
handed_ids (acked id ∷ calls) = handed_ids calls
handed_ids (unacked id ∷ calls) = handed_ids calls

unfoldable pub xack_ids : List Call → List Text
xack_ids [] = []
xack_ids (handed id ∷ calls) = xack_ids calls
xack_ids (acked id ∷ calls) = xack_ids calls ++ (id ∷ [])
xack_ids (unacked id ∷ calls) = xack_ids calls ++ (id ∷ [])

abbrev pub resource_of_event : Text → Option Fields
resource_of_event id =
    some (field (codes "type") (str (codes "event")) (field (codes "id") (str id) end))

run-append :
    (hmac : Text → Text → Text) (key cid : Text) (c : Chain) (xs : List AuditCall) (x : AuditCall)
    → run hmac key cid c (xs ++ (x ∷ []))
      ≡ audit hmac key cid x.timestamp x.request_id x.event (run hmac key cid c xs)
unfolding run
run-append hmac key cid c [] x = refl
run-append hmac key cid c (y ∷ ys) x =
    run-append hmac key cid (audit hmac key cid y.timestamp y.request_id y.event c) ys x

map-append :
    {A B : Type 0} (f : A → B) (xs : List A) (x : A)
    → map f (xs ++ (x ∷ [])) ≡ map f xs ++ (f x ∷ [])
map-append f [] x = refl
map-append f (y ∷ ys) x = ap (λ zs. f y ∷ zs) (map-append f ys x)

abbrev id_of : {J : Type 0} → Option (Delivered J) → Text
id_of none = []
id_of (some d) = d.stream_id

module _ {R J : Type 0} (hmac : Text → Text → Text) (key cid : Text) (clock : ℕ → Text)
    (read_group : R → Ended (Option (List StreamItem)) × R) (ack : Text → R → Ended Unit × R)
    (parse : Text → Option J) where
  abbrev consumer : Consumer R Chain J
  consumer = reports_consumer hmac key cid clock read_group ack parse

  -- The process has audited one event for each entry that the handler was called with, in their order,
  -- and XACK was called for those entries, in the same order.
  pub record AuditsAll (l : Loop R Chain) : Type 0 where
    pub audited : List AuditCall
    pub chain : l.world ≡ run hmac key cid boot audited
    pub subjects : map (λ x. x.event.resource) audited ≡ map resource_of_event (handed_ids l.calls)
    pub sent : xack_ids l.calls ≡ handed_ids l.calls

  handed_ids-xack :
      (id : Text) (e : Ended Unit) (calls : List Call)
      → handed_ids (xack_call consumer id e ∷ calls) ≡ handed_ids calls
  unfolding handed_ids
  handed_ids-xack id (returned u) calls = refl
  handed_ids-xack id (threw x) calls = refl

  xack_ids-xack :
      (id : Text) (e : Ended Unit) (calls : List Call)
      → xack_ids (xack_call consumer id e ∷ calls) ≡ xack_ids calls ++ (id ∷ [])
  unfolding xack_ids
  xack_ids-xack id (returned u) calls = refl
  xack_ids-xack id (threw x) calls = refl

  hand-AuditsAll :
      (id : Text) (e : Option (Delivered J)) (l : Loop R Chain)
      → ((d : Delivered J) → e ≡ some d → d.stream_id ≡ id)
      → AuditsAll l
      → AuditsAll (hand consumer id e l)
  unfolding hand reports_consumer handle_event after_handler acknowledge handed_ids xack_ids
      consumed
  hand-AuditsAll id none l s h = h
  hand-AuditsAll id (some d) l s h =
      let x : AuditCall = record {
        timestamp = clock l.world.next_seq;
        request_id = none;
        event = consumed d;
      } in
      let sent = (ack id l.redis).0 in
      record {
        audited = h.audited ++ (x ∷ []);
        chain =
            ap (audit hmac key cid x.timestamp none x.event) h.chain
            ∙ sym (run-append hmac key cid boot h.audited x);
        subjects =
            map-append (λ y. y.event.resource) h.audited x
            ∙ ap (λ ys. ys ++ (resource_of_event d.stream_id ∷ [])) h.subjects
            ∙ sym (map-append resource_of_event (handed_ids l.calls) d.stream_id)
            ∙ ap (λ i. map resource_of_event (handed_ids l.calls ++ (i ∷ []))) (s d refl)
            ∙ ap (map resource_of_event) (sym (handed_ids-xack id sent (handed id ∷ l.calls)));
        sent =
            xack_ids-xack id sent (handed id ∷ l.calls)
            ∙ ap (λ ids. ids ++ (id ∷ [])) h.sent
            ∙ sym (handed_ids-xack id sent (handed id ∷ l.calls));
      }

  with_payload_lem :
      (item : StreamItem) (json : Option J) (d : Delivered J)
      → with_payload consumer item json ≡ some d
      → d.stream_id ≡ item.id
  with_payload_lem item none d e = absurd (ground arith)
  with_payload_lem item (some json) d e = ap id_of (sym e)

  payload_read_lem :
      (item : StreamItem) (payload : Option Text) (d : Delivered J)
      → payload_read consumer item payload ≡ some d
      → d.stream_id ≡ item.id
  payload_read_lem item none d e = ap id_of (sym e)
  payload_read_lem item (some text) d e = with_payload_lem item (consumer.parse text) d e

  delivered_of_lem :
      (item : StreamItem) (d : Delivered J)
      → delivered_of consumer item ≡ some d
      → d.stream_id ≡ item.id
  unfolding delivered_of
  delivered_of_lem item d e =
      payload_read_lem item (non_empty (field_of (codes "payload") item.fields)) d e

  consume-AuditsAll :
      (items : List StreamItem) (l : Loop R Chain)
      → AuditsAll l
      → AuditsAll (consume consumer items l)
  unfolding consume consume_item
  consume-AuditsAll [] l h = h
  consume-AuditsAll (item ∷ items) l h =
      consume-AuditsAll items (consume_item consumer item l)
        (hand-AuditsAll item.id (delivered_of consumer item) l (delivered_of_lem item) h)

  read-AuditsAll : (l : Loop R Chain) (r : R) → AuditsAll l → AuditsAll (record l { redis = r })
  read-AuditsAll l r h = record {
    audited = h.audited;
    chain = h.chain;
    subjects = h.subjects;
    sent = h.sent;
  }

  rounds-AuditsAll : (n : ℕ) (l : Loop R Chain) → AuditsAll l → AuditsAll (rounds consumer n l)
  unfolding rounds round
  rounds-AuditsAll zero l h = h
  rounds-AuditsAll (suc n) l h = rounds-AuditsAll n (round consumer l) (
      consume-AuditsAll (entries_of consumer (consumer.read_group l.redis).0) _
        (read-AuditsAll l (consumer.read_group l.redis).1 h))

  loop_started-AuditsAll :
      (e : Ended Unit) (n : ℕ) (l : Loop R Chain)
      → AuditsAll l
      → AuditsAll (loop_started consumer e n l).1
  unfolding loop_started
  loop_started-AuditsAll (returned u) n l h = rounds-AuditsAll n l h
  loop_started-AuditsAll (threw x) n l h = h

  -- However many rounds the reports service has made since its start, its chain of audit records is
  -- that of one record for each event that its handler was called with, in their order, and XACK has
  -- been called once for each such event, in the same order.
  pub start_consumer-AuditsAll :
      (create_group : R → Ended Unit × R) (n : ℕ) (redis : R)
      → AuditsAll
          (start_consumer consumer create_group n
            (record { redis = redis; world = boot; calls = [] })).1
  unfolding start_consumer run handed_ids xack_ids
  start_consumer-AuditsAll create_group n redis =
      loop_started-AuditsAll (group_ensured (create_group redis).0) n
        (record { redis = (create_group redis).1; world = boot; calls = [] })
        (record { audited = []; chain = refl; subjects = refl; sent = refl })
