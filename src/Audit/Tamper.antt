-- ===== src/Audit/Tamper.antt =====
-- Tamper evidence of the chain that `verifyChain` checks (backend/src/utils/audit.js).
use task.Prelude.{
  ℕ, ◌+◌, ◌≡◌, refl, sym, ◌∙◌, ◌≢◌, ◌⊎◌, inl, inr, true, Bool-cases, List, [], ◌∷◌, Option, arith,
  length, append_cancel,
}
use task.Prelude.Text.{Text, text_eq, text_eq_iff}
use task.Prelude.Sorting.{sort}
use task.Audit.Json.{obj, canonical}
use task.Audit.Chain.{Entry, genesis, message, stripped, committed, seq_le, verify_chain}
use task.Audit.Linked.{Follows, Linked, final_hash}
use task.Audit.Grouping.{of_chain}
use task.Audit.Verify.{verify_chain_iff}

-- The text that a record's hash commits to, besides the previous hash.
abbrev pub content : Entry → Text
content r = canonical (obj (committed r (stripped r.body)))

-- Two records agree in all that the chain protects.
pub record Agrees (x y : Entry) : Type 0 where
  pub hashes : x.hash ≡ y.hash
  pub links : x.prev_hash ≡ y.prev_hash
  pub contents : content x ≡ content y

abbrev pub AllAgree : List Entry → List Entry → Type 0
AllAgree [] ys = Unit
AllAgree (x ∷ xs) [] = Unit
AllAgree (x ∷ xs) (y ∷ ys) = Agrees x y × AllAgree xs ys

module _ (hmac : Text → Text → Text) (key : Text) where
  -- Two messages with one HMAC.
  abbrev pub Collision : Type 0
  Collision = (m n : Text) × (m ≢ n) × (hmac key m ≡ hmac key n)

  module _ (digest_length : (m : Text) → length (hmac key m) ≡ 64) (cid : Text) where
    -- Two records with one hash, each correctly signed.
    same_hash :
        (p q : Text) (s t : ℕ) (x y : Entry)
        → length p ≡ length q
        → Follows hmac key cid p s x
        → Follows hmac key cid q t y
        → x.hash ≡ y.hash
        → Collision ⊎ ((p ≡ q) × Agrees x y)
    unfolding message
    same_hash p q s t x y l f g e =
        elim (Bool-cases (text_eq (message x (stripped x.body)) (message y (stripped y.body)))) [
          | inl same ↦
              let (a, b) =
                append_cancel x.prev_hash y.prev_hash (content x) (content y)
                  (cc (f.links, g.links, l)) ((text_eq_iff _ _).0 same) in
              inr ((sym f.links ∙ a ∙ g.links, record { hashes = e; links = a; contents = b }))
          | inr other ↦ inl (
            message x (stripped x.body),
            message y (stripped y.body),
            (λ same. cc (other, (text_eq_iff _ _).1 same)),
            f.signed ∙ e ∙ sym g.signed,
          )
        ]

    signed_length : (p : Text) (s : ℕ) (x : Entry) → Follows hmac key cid p s x → length x.hash ≡ 64
    signed_length p s x f = rw (← f.signed) (digest_length (message x (stripped x.body)))

    agree :
        (p q : Text) (s t : ℕ) (xs ys : List Entry)
        → length p ≡ length q
        → length xs ≡ length ys
        → Linked hmac key cid p s xs
        → Linked hmac key cid q t ys
        → final_hash hmac key cid p xs ≡ final_hash hmac key cid q ys
        → Collision ⊎ ((p ≡ q) × AllAgree xs ys)
    agree p q s t [] [] l n h k e = inr (e, tt)
    agree p q s t [] (y ∷ ys) l n h k e = absurd (omega arith)
    agree p q s t (x ∷ xs) [] l n h k e = absurd (omega arith)
    agree p q s t (x ∷ xs) (y ∷ ys) l n h k e =
        elim (agree x.hash y.hash (x.seq + 1) (y.seq + 1) xs ys
          (signed_length p s x h.0 ∙ sym (signed_length q t y k.0)) (omega arith) h.1 k.1 e) [
            | inl c ↦ inl c
            | inr (same, rest) ↦ elim (same_hash p q s t x y l h.0 k.0 same) [
              | inl c ↦ inl c
              | inr (start, a) ↦ inr (start, (a, rest))
            ]
          ]

  -- For an HMAC whose digests have 64 digits: of two logs that `verifyChain` accepts and in which a
  -- chain has equally many records and the same last hash, the records of that chain agree one by
  -- one in their hash, the previous hash and the canonical text of all their fields, or two
  -- different messages with one HMAC are at hand.
  pub anchored_chains_agree :
      (digest_length : (m : Text) → length (hmac key m) ≡ 64) (cid : Text)
      (rs qs : List (Option Entry))
      → let xs = sort seq_le (of_chain cid rs) in
        let ys = sort seq_le (of_chain cid qs) in
        (verify_chain hmac rs key).ok ≡ true
        → (verify_chain hmac qs key).ok ≡ true
        → length xs ≡ length ys
        → final_hash hmac key cid genesis xs ≡ final_hash hmac key cid genesis ys
        → Collision ⊎ AllAgree xs ys
  anchored_chains_agree digest_length cid rs qs h k n e =
      elim (agree digest_length cid genesis genesis 0 0 (sort seq_le (of_chain cid rs))
        (sort seq_le (of_chain cid qs)) refl n ((verify_chain_iff hmac key rs).0 h cid)
        ((verify_chain_iff hmac key qs).0 k cid) e) [ inl c ↦ inl c | inr (_, a) ↦ inr a ]
