-- ===== src/Audit/Emission.antt =====
-- What `audit` of backend/src/utils/audit.js emits is a linked chain.
use task.Prelude.{
  ◌≡◌, refl, sym, ◌⊎◌, inl, inr, List, [], ◌∷◌, Option, none, some, arith, length, length-append,
}
use task.Prelude.Text.{Text, codes}
use task.Prelude.Sorting.{All, Any, All-snoc, Any-snoc}
use task.Audit.Json.{Json, Fields}
use task.Audit.Chain.{
  Entry, Event, Context, absent, from_request, of_event, Chain, boot, genesis, stripped, body_of,
  id_or_null, spread_context, spread_metadata, audit,
}
use task.Audit.Linked.{Linked, Linked-snoc, final_hash, final_hash-snoc}

-- One call of `audit`, with what it reads.
pub record AuditCall : Type 0 where
  pub timestamp : Text
  pub request_id : Option Text
  pub event : Event

stripped-spread_context :
    (rid : Json) (x : Context) (m : Option Fields)
    → stripped (spread_context rid x (spread_metadata m)) ≡ spread_context rid x (spread_metadata m)
unfolding stripped spread_context
stripped-spread_context rid absent none = refl
stripped-spread_context rid absent (some f) = refl
stripped-spread_context rid (from_request ip method path ua) none = refl
stripped-spread_context rid (from_request ip method path ua) (some f) = refl
stripped-spread_context rid (of_event own) none = refl
stripped-spread_context rid (of_event own) (some f) = refl

stripped-event :
    (t : Text) (rid : Option Text) (e : Event) → stripped (body_of t rid e) ≡ body_of t rid e
unfolding body_of stripped
stripped-event t rid e = cc (stripped-spread_context (id_or_null rid) e.context e.metadata)

-- The fields that `audit` writes include none that the logger adds.
pub stripped-body_of :
    (c : AuditCall)
    → stripped (body_of c.timestamp c.request_id c.event) ≡ body_of c.timestamp c.request_id c.event
stripped-body_of c = stripped-event c.timestamp c.request_id c.event

abbrev pub body : AuditCall → Fields
body x = body_of x.timestamp x.request_id x.event

module _ (hmac : Text → Text → Text) (key cid : Text) where
  -- The calls of one process, in order.
  unfoldable pub run : Chain → List AuditCall → Chain
  run c [] = c
  run c (x ∷ xs) = run (audit hmac key cid x.timestamp x.request_id x.event c) xs

  -- The state of the process is the end of the chain that it has emitted.
  pub record IsIntact (c : Chain) : Type 0 where
    pub linked : Linked hmac key cid genesis 0 c.emitted
    pub counted : c.next_seq ≡ length c.emitted
    pub ends : c.last_hash ≡ final_hash hmac key cid genesis c.emitted
    pub labelled : All (λ r. (r.category ≡ codes "AUDIT") × (r.chain_id ≡ cid)) c.emitted

  pub audit-IsIntact :
      (x : AuditCall) (c : Chain)
      → IsIntact c
      → IsIntact (audit hmac key cid x.timestamp x.request_id x.event c)
  unfolding audit
  audit-IsIntact x c h = record {
    linked =
        Linked-snoc hmac key cid genesis 0 c.next_seq c.emitted _ h.linked
          (omega (arith, h.counted))
          (record { numbered = refl; links = h.ends; signed = rw (stripped-body_of x) });
    counted = rw length-append (omega (arith, h.counted));
    ends = sym (final_hash-snoc hmac key cid genesis c.emitted _);
    labelled = All-snoc _ c.emitted _ h.labelled (refl, refl);
  }

  run-IsIntact : (c : Chain) (xs : List AuditCall) → IsIntact c → IsIntact (run c xs)
  unfolding run
  run-IsIntact c [] h = h
  run-IsIntact c (x ∷ xs) h =
      run-IsIntact (audit hmac key cid x.timestamp x.request_id x.event c) xs (audit-IsIntact x c h)

  -- Whatever a process audits from its start, its chain is intact.
  pub run-boot-IsIntact : (xs : List AuditCall) → IsIntact (run boot xs)
  run-boot-IsIntact xs =
      run-IsIntact boot xs (record { linked = tt; counted = refl; ends = refl; labelled = tt })

  run-All :
      (P : Fields → Type 0) (c : Chain) (xs : List AuditCall)
      → All (λ x. P (body x)) xs
      → All (λ r. P r.body) c.emitted
      → All (λ r. P r.body) (run c xs).emitted
  unfolding run audit
  run-All P c [] h k = k
  run-All P c (x ∷ xs) h k =
      run-All P (audit hmac key cid x.timestamp x.request_id x.event c) xs h.1
        (All-snoc (λ (r : Entry). P r.body) c.emitted _ k h.0)

  -- What holds of the fields of every call holds of those of every record.
  pub run-boot-All :
      (P : Fields → Type 0) (xs : List AuditCall)
      → All (λ x. P (body x)) xs
      → All (λ r. P r.body) (run boot xs).emitted
  run-boot-All P xs h = run-All P boot xs h tt

  run-Any :
      (P : Fields → Type 0) (c : Chain) (xs : List AuditCall)
      → Any (λ x. P (body x)) xs ⊎ Any (λ r. P r.body) c.emitted
      → Any (λ r. P r.body) (run c xs).emitted
  unfolding run audit
  run-Any P c [] (inl h) = absurd h
  run-Any P c [] (inr h) = h
  run-Any P c (x ∷ xs) (inl (inl h)) =
      run-Any P (audit hmac key cid x.timestamp x.request_id x.event c) xs
        (inr (Any-snoc (λ (r : Entry). P r.body) c.emitted _ (inr h)))
  run-Any P c (x ∷ xs) (inl (inr h)) =
      run-Any P (audit hmac key cid x.timestamp x.request_id x.event c) xs (inl h)
  run-Any P c (x ∷ xs) (inr h) =
      run-Any P (audit hmac key cid x.timestamp x.request_id x.event c) xs
        (inr (Any-snoc (λ (r : Entry). P r.body) c.emitted _ (inl h)))

  -- What holds of the fields of some call holds of those of some record.
  pub run-boot-Any :
      (P : Fields → Type 0) (xs : List AuditCall)
      → Any (λ x. P (body x)) xs
      → Any (λ r. P r.body) (run boot xs).emitted
  run-boot-Any P xs h = run-Any P boot xs (inl h)
