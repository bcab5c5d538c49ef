-- ===== src/Events/Delivery.antt =====
-- What the consumer promises (backend/src/events/eventStream.js): acknowledgements only after success,
-- and a failure stops no other event.
use task.Prelude.{◌≡◌, refl, Option, none, some, List, [], ◌∷◌}
use task.Http.{Exception}
use task.Events.Consumer.{
  Ended, returned, threw, StreamItem, Delivered, handed, acked, unacked, xack_call, Consumer, Loop,
  acknowledge, after_handler, hand, delivered_of, consume_item, consume, entries_of, round,
}

module _ {R W J : Type 0} (c : Consumer R W J) where
  -- How one entry is served, from one state to the next: its payload cannot be parsed and nothing is
  -- called; the handler is called and throws, and nothing is acknowledged; the handler returns and the
  -- entry is acknowledged; or the handler returns and the call of XACK throws.
  pub data Served (item : StreamItem) : Loop R W → Loop R W → Type 0 where
    unreadable : {l : Loop R W} → delivered_of c item ≡ none → Served item l l
    failed :
        {l l' : Loop R W} (event : Delivered J) (x : Exception)
        → delivered_of c item ≡ some event
        → (c.handler event l.world).0 ≡ threw x
        → l'.calls ≡ handed item.id ∷ l.calls
        → l'.redis ≡ l.redis
        → l'.world ≡ (c.handler event l.world).1
        → Served item l l'
    succeeded :
        {l l' : Loop R W} (event : Delivered J) (u v : Unit)
        → delivered_of c item ≡ some event
        → (c.handler event l.world).0 ≡ returned u
        → (c.ack item.id l.redis).0 ≡ returned v
        → l'.calls ≡ acked item.id ∷ handed item.id ∷ l.calls
        → l'.redis ≡ (c.ack item.id l.redis).1
        → l'.world ≡ (c.handler event l.world).1
        → Served item l l'
    unacknowledged :
        {l l' : Loop R W} (event : Delivered J) (u : Unit) (x : Exception)
        → delivered_of c item ≡ some event
        → (c.handler event l.world).0 ≡ returned u
        → (c.ack item.id l.redis).0 ≡ threw x
        → l'.calls ≡ unacked item.id ∷ handed item.id ∷ l.calls
        → l'.redis ≡ (c.ack item.id l.redis).1
        → l'.world ≡ (c.handler event l.world).1
        → Served item l l'

  -- The entries of a batch, each served once, in the order of the stream.
  pub data AllServed : List StreamItem → Loop R W → Loop R W → Type 0 where
    finished : {l : Loop R W} → AllServed [] l l
    then :
        {item : StreamItem} {items : List StreamItem} {l l' l'' : Loop R W}
        → Served item l l'
        → AllServed items l' l''
        → AllServed (item ∷ items) l l''

  acked_lem :
      (item : StreamItem) (event : Delivered J) (u : Unit) (sent : Ended Unit) (l : Loop R W)
      → delivered_of c item ≡ some event
      → (c.handler event l.world).0 ≡ returned u
      → (c.ack item.id l.redis).0 ≡ sent
      → Served item l (record {
        redis = (c.ack item.id l.redis).1;
        world = (c.handler event l.world).1;
        calls = xack_call c item.id sent ∷ handed item.id ∷ l.calls;
      })
  acked_lem item event u (returned v) l e h k = succeeded event u v e h k refl refl refl
  acked_lem item event u (threw x) l e h k = unacknowledged event u x e h k refl refl refl

  handed_lem :
      (item : StreamItem) (event : Delivered J) (ended : Ended Unit) (l : Loop R W)
      → delivered_of c item ≡ some event
      → (c.handler event l.world).0 ≡ ended
      → Served item l (
          after_handler c item.id ended
            (record l { world = (c.handler event l.world).1; calls = handed item.id ∷ l.calls }))
  unfolding after_handler acknowledge
  handed_lem item event (returned u) l e h = acked_lem item event u _ l e h refl
  handed_lem item event (threw x) l e h = failed event x e h refl refl refl

  hand-Served :
      (item : StreamItem) (event : Option (Delivered J)) (l : Loop R W)
      → delivered_of c item ≡ event
      → Served item l (hand c item.id event l)
  unfolding hand
  hand-Served item none l e = unreadable e
  hand-Served item (some event) l e = handed_lem item event (c.handler event l.world).0 l e refl

  consume-AllServed :
      (items : List StreamItem) (l : Loop R W) → AllServed items l (consume c items l)
  unfolding consume consume_item
  consume-AllServed [] l = finished
  consume-AllServed (item ∷ items) l =
      then (hand-Served item (delivered_of c item) l refl)
        (consume-AllServed items (consume_item c item l))

  -- A round serves every entry that it reads, each once and in order, whichever of them fail: XACK is
  -- called for an entry exactly where its handler has returned, after it has, and the entry is
  -- acknowledged exactly where that call returns.
  pub round-AllServed :
      (l : Loop R W)
      → AllServed
          (entries_of c (c.read_group l.redis).0)
          (record l { redis = (c.read_group l.redis).1 })
          (round c l)
  unfolding round
  round-AllServed l =
      consume-AllServed (entries_of c (c.read_group l.redis).0)
        (record l { redis = (c.read_group l.redis).1 })
