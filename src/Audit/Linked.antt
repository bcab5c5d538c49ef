-- ===== src/Audit/Linked.antt =====
-- Chains that are linked as `audit` links them, and what `verifyChain` finds in one chain
-- (backend/src/utils/audit.js).
use task.Prelude.{
  ℕ, ◌+◌, ◌≤◌, ◌≡◌, refl, ◌∙◌, ◌↔◌, List, [], ◌∷◌, ◌++◌, arith, length, append-eq-nil,
}
use task.Prelude.Text.{Text, text_eq_iff}
use task.Prelude.Sorting.{All, IsSorted, Below}
use task.Audit.Chain.{Entry, message, stripped, seq_le, check_record, check_records}

module _ (hmac : Text → Text → Text) (key cid : Text) where
  -- One record follows on a hash and a number.
  pub record Follows (prev : Text) (seq : ℕ) (r : Entry) : Type 0 where
    pub numbered : r.seq ≡ seq
    pub links : r.prev_hash ≡ prev
    pub signed : hmac key (message r (stripped r.body)) ≡ r.hash

  -- Each record follows on the one before it.
  abbrev pub Linked : Text → ℕ → List Entry → Type 0
  Linked prev seq [] = Unit
  Linked prev seq (r ∷ rs) = Follows prev seq r × Linked r.hash (r.seq + 1) rs

  check_record-Follows :
      (prev : Text) (seq : ℕ) (r : Entry)
      → Follows prev seq r
      → check_record hmac key cid prev seq r ≡ []
  unfolding check_record
  check_record-Follows prev seq r h = ground (
    arith,
    text_eq_iff r.prev_hash prev,
    text_eq_iff (hmac key (message r (stripped r.body))) r.hash,
  )

  Follows-check_record :
      (prev : Text) (seq : ℕ) (r : Entry)
      → check_record hmac key cid prev seq r ≡ []
      → Follows prev seq r
  unfolding check_record
  Follows-check_record prev seq r h = ground (
    arith,
    text_eq_iff r.prev_hash prev,
    text_eq_iff (hmac key (message r (stripped r.body))) r.hash,
  )

  check_records-Linked :
      (prev : Text) (seq : ℕ) (rs : List Entry)
      → Linked prev seq rs
      → check_records hmac key cid prev seq rs ≡ []
  unfolding check_records
  check_records-Linked prev seq [] h = refl
  check_records-Linked prev seq (r ∷ rs) h =
      rw (check_record-Follows prev seq r h.0) (check_records-Linked r.hash (r.seq + 1) rs h.1)

  Linked-check_records :
      (prev : Text) (seq : ℕ) (rs : List Entry)
      → check_records hmac key cid prev seq rs ≡ []
      → Linked prev seq rs
  unfolding check_records
  Linked-check_records prev seq [] h = tt
  Linked-check_records prev seq (r ∷ rs) h =
      let (p, q) = append-eq-nil (check_record hmac key cid prev seq r) _ h in
      (Follows-check_record prev seq r p, Linked-check_records r.hash (r.seq + 1) rs q)

  -- The checks of one chain find nothing exactly when it is linked.
  pub check_records_iff :
      (prev : Text) (seq : ℕ) (rs : List Entry)
      → (check_records hmac key cid prev seq rs ≡ []) ↔ Linked prev seq rs
  check_records_iff prev seq rs =
      (Linked-check_records prev seq rs, check_records-Linked prev seq rs)

  Linked-above :
      (prev : Text) (seq n : ℕ) (rs : List Entry)
      → n ≤ seq
      → Linked prev seq rs
      → All (λ r. n ≤ r.seq) rs
  Linked-above prev seq n [] le h = tt
  Linked-above prev seq n (r ∷ rs) le h =
      let eq = h.0.numbered in (omega arith, Linked-above r.hash (r.seq + 1) n rs (omega arith) h.1)

  above-Below :
      (r : Entry) (rs : List Entry) → All (λ e. r.seq + 1 ≤ e.seq) rs → All (Below seq_le r) rs
  unfolding seq_le
  above-Below r [] h = tt
  above-Below r (e ∷ rs) h = ((ground arith, ground arith), above-Below r rs h.1)

  pub Linked-IsSorted :
      (prev : Text) (seq : ℕ) (rs : List Entry) → Linked prev seq rs → IsSorted seq_le rs
  Linked-IsSorted prev seq [] h = tt
  Linked-IsSorted prev seq (r ∷ rs) h = (
    above-Below r rs (Linked-above r.hash (r.seq + 1) (r.seq + 1) rs (omega arith) h.1),
    Linked-IsSorted r.hash (r.seq + 1) rs h.1,
  )

  -- A linked chain stays linked when its tail is cut off.
  pub Linked-prefix :
      (prev : Text) (seq : ℕ) (xs ys : List Entry) → Linked prev seq (xs ++ ys) → Linked prev seq xs
  Linked-prefix prev seq [] ys h = tt
  Linked-prefix prev seq (x ∷ xs) ys h = (h.0, Linked-prefix x.hash (x.seq + 1) xs ys h.1)

  abbrev pub final_hash : Text → List Entry → Text
  final_hash prev [] = prev
  final_hash prev (r ∷ rs) = final_hash r.hash rs

  pub Linked-snoc :
      (prev : Text) (seq n : ℕ) (xs : List Entry) (r : Entry)
      → Linked prev seq xs
      → n ≡ seq + length xs
      → Follows (final_hash prev xs) n r
      → Linked prev seq (xs ++ r ∷ [])
  Linked-snoc prev seq n [] r h e f =
      (record { numbered = f.numbered ∙ omega arith; links = f.links; signed = f.signed }, tt)
  Linked-snoc prev seq n (x ∷ xs) r h e f =
      let eq = h.0.numbered in (h.0, Linked-snoc x.hash (x.seq + 1) n xs r h.1 (omega arith) f)

  pub final_hash-snoc :
      (prev : Text) (xs : List Entry) (r : Entry) → final_hash prev (xs ++ r ∷ []) ≡ r.hash
  final_hash-snoc prev [] r = refl
  final_hash-snoc prev (x ∷ xs) r = final_hash-snoc x.hash xs r
