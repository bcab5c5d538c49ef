-- ===== src/Events/Tests.antt =====
-- A round at a concrete stream: the first event fails, the second is acknowledged.
use task.Prelude.{Option, List, ℕ, ◌+◌, none, some, ◌≡◌, refl, [], ◌∷◌, if◌then◌else◌, ◌==◌}
use task.Prelude.Text.{Text, codes, text_eq, includes_text}
use task.Http.{Exception}
use task.Events.Consumer.{
  Ended, returned, threw, StreamItem, handed, acked, Consumer, Loop, field_of, non_empty,
  delivered_of, acknowledge, after_handler, hand, consume_item, consume, entries_of, round,
}
use task.Audit.Chain.{boot}
use task.Events.Reports.{group_ensured, start_consumer, reports_consumer}
use task.Events.Audited.{AuditsAll, start_consumer-AuditsAll}
use task.Events.Delivery.{AllServed, round-AllServed}

abbrev item : Text → StreamItem
item id = record { id = id; fields = codes "type" ∷ codes "task.created" ∷ [] }

abbrev down : Exception
down = record { message = "down"; status_code = none; errors = [] }

-- The handler counts its calls and throws at the first one.
abbrev consumer : Consumer Unit ℕ Unit
consumer = record {
  read_group = λ r. (returned (some (item (codes "1") ∷ item (codes "2") ∷ [])), r);
  ack = λ id r. (returned tt, r);
  parse = λ t. some tt;
  handler = λ e n. (if n == 0 then threw down else returned tt, n + 1);
}

abbrev start : Loop Unit ℕ
start = record { redis = tt; world = 0; calls = [] }

second_acked :
    (round consumer start).calls ≡ acked (codes "2") ∷ handed (codes "2") ∷ handed (codes "1") ∷ []
unfolding round entries_of consume consume_item hand after_handler acknowledge delivered_of field_of
    non_empty text_eq
second_acked = refl

round-AllServed_example :
    AllServed consumer
      (entries_of consumer (consumer.read_group start.redis).0)
      (record start { redis = (consumer.read_group start.redis).1 })
      (round consumer start)
round-AllServed_example = round-AllServed consumer start

-- The reports service after one round, its group being there before.
abbrev busy : Exception
busy = record {
  message = "BUSYGROUP Consumer Group name already exists";
  status_code = none;
  errors = [];
}

ensured : group_ensured (threw busy) ≡ returned tt
unfolding group_ensured includes_text
ensured = refl

abbrev read_two : ℕ → Ended (Option (List StreamItem)) × ℕ
read_two r = (returned (some (item (codes "1") ∷ item (codes "2") ∷ [])), r)

abbrev ack_all : Text → ℕ → Ended Unit × ℕ
ack_all id r = (returned tt, r)

abbrev no_json : Text → Option ℕ
no_json t = none

abbrev no_mac : Text → Text → Text
no_mac key m = m

abbrev frozen : ℕ → Text
frozen n = codes "t"

start_consumer-AuditsAll_example :
    AuditsAll no_mac
      (codes "k")
      (codes "c")
      frozen
      read_two
      ack_all
      no_json
      (start_consumer
        (reports_consumer no_mac (codes "k") (codes "c") frozen read_two ack_all no_json)
        (λ r. (threw busy, r))
        1
        (record { redis = 0; world = boot; calls = [] })).1
start_consumer-AuditsAll_example =
    start_consumer-AuditsAll no_mac (codes "k") (codes "c") frozen read_two ack_all no_json
      (λ r. (threw busy, r)) 1 0
