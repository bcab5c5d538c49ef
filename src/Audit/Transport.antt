-- ===== src/Audit/Transport.antt =====
-- The audit log as `scripts/verify-audit.js` reads it back: each record was printed as one line of
-- JSON by the logger that backend/src/utils/audit.js writes to, and is parsed again.
use task.Prelude.{
  ℕ, ◌+◌, ◌-◌, ◌≡◌, ◌≤◌, ◌<◌, inl, inr, ap, refl, sym, ◌∙◌, ◌≢◌, true, List, [], ◌∷◌, ◌++◌, Option,
  arith, length, map, length-append,
}
use task.Prelude.Text.{Text, codes}
use task.Prelude.Sorting.{Any, All, Shuffle, IsSorted, Below, sort-Shuffle}
use task.Audit.Json.{Fields, obj, field, str, num, canonical, stringify, without}
use task.Audit.Json.Size.{
  reparse_fields, HasUndefined, weight, weight-field, weight-without, weight-reparse_fields,
  length-canonical-obj,
}
use task.Audit.Chain.{Entry, boot, genesis, message, committed, stripped, seq_le, verify_chain}
use task.Audit.Linked.{Linked, Linked-IsSorted}
use task.Audit.Emission.{
  AuditCall, body, run-boot-All, run-boot-Any, run, run-boot-IsIntact, stripped-body_of,
}
use task.Audit.Grouping.{of_chain}
use task.Audit.Verify.{verify_chain_iff, verify_chain-Shuffle}
use task.Audit.Tamper.{Collision}

-- `undefined` stands nowhere in the fields, not even in an object or array among them.
abbrev pub IsDefined : Fields → Type 0
IsDefined fs = reparse_fields fs ≡ fs

weight-stripped : (fs : Fields) → weight (stripped fs) ≤ weight fs
unfolding stripped
weight-stripped fs = omega (
  arith,
  weight-without (codes "level") fs,
  weight-without (codes "message") (without (codes "level") fs),
)

message_lem :
    (r : Entry) (b : Fields) → message r b ≡ r.prev_hash ++ canonical (obj (committed r b))
unfolding message
message_lem r b = refl

-- The weight that the fields of the chain add.
base : Entry → ℕ
base r =
    length (stringify (codes "category"))
    + length (canonical (str r.category))
    + (length (stringify (codes "chainId")) + length (canonical (str r.chain_id)))
    + (length (stringify (codes "seq")) + length (canonical (num r.seq)))
    + (length (stringify (codes "prevHash")) + length (canonical (str r.prev_hash)))
    + 8

weight-committed : (r : Entry) (fs : Fields) → weight (committed r fs) ≡ base r + weight fs
unfolding base
weight-committed r fs = omega (
  arith,
  weight-field (codes "category") (str r.category) (
      field (codes "chainId") (str r.chain_id)
        (field (codes "seq") (num r.seq) (field (codes "prevHash") (str r.prev_hash) fs))),
  weight-field (codes "chainId") (str r.chain_id)
      (field (codes "seq") (num r.seq) (field (codes "prevHash") (str r.prev_hash) fs)),
  weight-field (codes "seq") (num r.seq) (field (codes "prevHash") (str r.prev_hash) fs),
  weight-field (codes "prevHash") (str r.prev_hash) fs,
)

base_pos : (r : Entry) → 8 ≤ base r
unfolding base
base_pos r = omega arith

length-message :
    (r : Entry) (b : Fields)
    → length (message r b) ≡ length r.prev_hash + (base r + weight b - 1 + 2)
length-message r b =
    ap length (message_lem r b)
    ∙ (omega (
      arith,
      length-append r.prev_hash (canonical (obj (committed r b))),
      length-canonical-obj (committed r b),
      weight-committed r b,
    ))

-- A record commits to different texts for fields of different weights.
message_ne : (r : Entry) (b c : Fields) → weight b < weight c → message r b ≢ message r c
message_ne r b c lt same =
    omega (arith, ap length same, length-message r b, length-message r c, base_pos r)

-- What is lost when a record without a `level` and a `message` is read back.
read_back-lt :
    (fs : Fields)
    → stripped fs ≡ fs
    → HasUndefined fs
    → weight (stripped (reparse_fields fs)) < weight (stripped fs)
read_back-lt fs e h =
    rw e (omega (arith, weight-stripped (reparse_fields fs), weight-reparse_fields fs h))

All-bodies : (calls : List AuditCall) → All (λ x. stripped (body x) ≡ body x) calls
All-bodies [] = tt
All-bodies (x ∷ xs) = (stripped-body_of x, All-bodies xs)

module _ (logged : Fields → Fields)
    (logged_lem : (fs : Fields) → stripped (logged fs) ≡ stripped (reparse_fields fs)) where
  -- A record as it is read back.
  abbrev pub read_back : Entry → Entry
  read_back r = record r { body = logged r.body }

  module _ (hmac : Text → Text → Text) (key cid : Text) where
    Linked-read_back :
        (p : Text) (s : ℕ) (xs : List Entry)
        → Linked hmac key cid p s xs
        → All (λ r. IsDefined r.body) xs
        → Linked hmac key cid p s (map read_back xs)
    unfolding message
    Linked-read_back p s [] h d = tt
    Linked-read_back p s (r ∷ rs) h d = (
      record {
        numbered = h.0.numbered;
        links = h.0.links;
        signed = rw (logged_lem r.body, d.0) (h.0.signed);
      },
      Linked-read_back r.hash (r.seq + 1) rs h.1 d.1,
    )

    read_back-above :
        (r : Entry) (xs : List Entry)
        → All (Below seq_le r) xs
        → All (Below seq_le (read_back r)) (map read_back xs)
    unfolding seq_le
    read_back-above r [] h = tt
    read_back-above r (x ∷ xs) h = (h.0, read_back-above r xs h.1)

    read_back-IsSorted : (xs : List Entry) → IsSorted seq_le xs → IsSorted seq_le (map read_back xs)
    read_back-IsSorted [] h = tt
    read_back-IsSorted (x ∷ xs) h = (read_back-above x xs h.0, read_back-IsSorted xs h.1)

    read_back_collides :
        (p q : Text) (s t : ℕ) (xs : List Entry)
        → Linked hmac key cid p s xs
        → Linked hmac key cid q t (map read_back xs)
        → All (λ r. stripped r.body ≡ r.body) xs
        → Any (λ r. HasUndefined r.body) xs
        → Collision hmac key
    unfolding message
    read_back_collides p q s t [] h k d a = absurd a
    read_back_collides p q s t (r ∷ rs) h k d (inr a) =
        read_back_collides r.hash r.hash (r.seq + 1) (r.seq + 1) rs h.1 k.1 d.1 a
    read_back_collides p q s t (r ∷ rs) h k d (inl a) = (
      message r (stripped (logged r.body)),
      message r (stripped r.body),
      message_ne r (stripped (logged r.body)) (stripped r.body)
          (rw (logged_lem r.body) (read_back-lt r.body d.0 a)),
      k.0.signed ∙ sym h.0.signed,
    )

  module _ (hmac : Text → Text → Text) (key : Text) where
    -- The log of any number of processes, the records in any order and the processes mixed, is
    -- accepted after it has been printed and read back, if no call of `audit` had a field that is
    -- `undefined`.
    pub read_back-verifies :
        (calls : Text → List AuditCall) (log : List (Option Entry))
        → ((cid : Text) → All (λ x. IsDefined (body x)) (calls cid))
        → ((cid : Text)
            → Shuffle
                (of_chain cid log)
                (map read_back (run hmac key cid boot (calls cid)).emitted))
        → (verify_chain hmac log key).ok ≡ true
    read_back-verifies calls log defined mixed =
        verify_chain-Shuffle hmac key log
          (λ cid. map read_back (run hmac key cid boot (calls cid)).emitted) mixed
          (λ cid.
            Linked-read_back hmac key cid genesis 0 _
              ((run-boot-IsIntact hmac key cid (calls cid)).linked)
              (run-boot-All hmac key cid IsDefined (calls cid) (defined cid)))

    -- If some call of `audit` had a field that is `undefined`, then a log that holds the records of
    -- its process as they are read back is accepted only where two messages have one HMAC.
    pub undefined_field_rejected :
        (cid : Text) (calls : List AuditCall) (log : List (Option Entry))
        → Any (λ x. HasUndefined (body x)) calls
        → Shuffle (of_chain cid log) (map read_back (run hmac key cid boot calls).emitted)
        → (verify_chain hmac log key).ok ≡ true
        → Collision hmac key
    undefined_field_rejected cid calls log some_undefined mixed ok =
        let xs = (run hmac key cid boot calls).emitted in
        let intact = run-boot-IsIntact hmac key cid calls in
        read_back_collides hmac key cid genesis genesis 0 0 xs intact.linked
          (rw
            (sort-Shuffle seq_le mixed (
              read_back-IsSorted hmac key cid xs
                (Linked-IsSorted hmac key cid genesis 0 xs intact.linked)))
            at ((verify_chain_iff hmac key log).0 ok cid))
          (run-boot-All hmac key cid (λ b. stripped b ≡ b) calls (All-bodies calls))
          (run-boot-Any hmac key cid HasUndefined calls some_undefined)
