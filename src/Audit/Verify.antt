-- ===== src/Audit/Verify.antt =====
-- What it means that `verifyChain` (backend/src/utils/audit.js) accepts a log.
use mathlib.Core.Path.{subst}
use task.Prelude.{
  ◌≡◌, refl, ◌↔◌, inl, inr, true, false, Bool-cases, List, [], ◌∷◌, Option, append-eq-nil,
}
use task.Prelude.Text.{Text, text_eq, text_eq_iff}
use task.Prelude.Sorting.{All, sort, Shuffle, sort-Shuffle}
use task.Audit.Chain.{
  Entry, Problem, genesis, seq_le, check_records, check_groups, group_from, verify_chain,
  no_problems,
}
use task.Audit.Linked.{Linked, check_records_iff, Linked-IsSorted}
use task.Audit.Grouping.{Groups, of_chain, group_from_lem, of_chain_missing}

no_problems_iff : (ps : List Problem) → (no_problems ps ≡ true) ↔ (ps ≡ [])
no_problems_iff [] = (λ h. refl, λ h. refl)
no_problems_iff (p ∷ ps) = (λ h. cc, λ h. cc)

module _ (hmac : Text → Text → Text) (key : Text) where
  -- The records of every group, in the order of their numbers, are linked.
  abbrev GroupsLinked : Groups → Type 0
  GroupsLinked = All (λ g. Linked hmac key g.0 genesis 0 (sort seq_le g.1))

  check_groups_iff : (gs : Groups) → ((check_groups hmac key gs).1 ≡ []) ↔ GroupsLinked gs
  unfolding check_groups
  check_groups_iff [] = (λ h. tt, λ h. refl)
  check_groups_iff ((c, rs) ∷ gs) =
      let own = check_records_iff hmac key c genesis 0 (sort seq_le rs) in
      let rest = check_groups_iff gs in
      (
        λ h.
            let (p, q) = append-eq-nil (check_records hmac key c genesis 0 (sort seq_le rs)) _ h in
            (own.0 p, rest.0 q),
        λ h. rw (own.1 h.0) (rest.1 h.1),
      )

  -- Each chain's records, taken in the order of their numbers, are linked.
  abbrev pub IsVerified : List (Option Entry) → Type 0
  IsVerified rs = (c : Text) → Linked hmac key c genesis 0 (sort seq_le (of_chain c rs))

  GroupsLinked-IsVerified :
      (gs : Groups) (c : Text) (rs : List (Option Entry))
      → All (λ (g : Text × List Entry). g.1 ≡ of_chain g.0 rs) gs
      → GroupsLinked gs
      → (All (λ (g : Text × List Entry). text_eq g.0 c ≡ false) gs → of_chain c rs ≡ [])
      → Linked hmac key c genesis 0 (sort seq_le (of_chain c rs))
  unfolding sort
  GroupsLinked-IsVerified [] c rs e h m = rw (m tt) tt
  GroupsLinked-IsVerified ((d, es) ∷ gs) c rs e h m = elim (Bool-cases (text_eq d c)) [
    | inl same ↦
        subst (λ x. Linked hmac key x genesis 0 (sort seq_le (of_chain x rs)))
          ((text_eq_iff d c).0 same)
          (subst (λ x. Linked hmac key d genesis 0 (sort seq_le x)) e.0 h.0)
    | inr other ↦ GroupsLinked-IsVerified gs c rs e.1 h.1 (λ k. m (other, k))
  ]

  IsVerified-GroupsLinked :
      (gs : Groups) (rs : List (Option Entry))
      → All (λ (g : Text × List Entry). g.1 ≡ of_chain g.0 rs) gs
      → IsVerified rs
      → GroupsLinked gs
  IsVerified-GroupsLinked [] rs e h = tt
  IsVerified-GroupsLinked (g ∷ gs) rs e h = (rw (e.0) (h g.0), IsVerified-GroupsLinked gs rs e.1 h)

  -- `ok` says that there is no problem.
  ok-errors :
      (rs : List (Option Entry))
      → ((verify_chain hmac rs key).ok ≡ true) ↔ ((check_groups hmac key (group_from rs [])).1 ≡ [])
  unfolding verify_chain
  ok-errors rs = no_problems_iff (check_groups hmac key (group_from rs [])).1

  -- A log is accepted exactly when, for every chain id, the AUDIT records of that chain in the order
  -- of their numbers are numbered 0, 1, 2, …, each holds the hash of the one before it, the first
  -- the genesis value, and each holds the HMAC of its own content.
  pub verify_chain_iff :
      (rs : List (Option Entry)) → ((verify_chain hmac rs key).ok ≡ true) ↔ IsVerified rs
  verify_chain_iff rs =
      let gs = group_from rs [] in
      let own = group_from_lem rs in
      (
        λ h c.
            GroupsLinked-IsVerified gs c rs own ((check_groups_iff gs).0 ((ok-errors rs).0 h))
              (of_chain_missing c rs),
        λ h. (ok-errors rs).1 ((check_groups_iff gs).1 (IsVerified-GroupsLinked gs rs own h)),
      )

  -- A log is accepted if the AUDIT records of every chain, in whatever order they were collected
  -- and however the chains are mixed, are those of a linked chain.
  pub verify_chain-Shuffle :
      (rs : List (Option Entry)) (history : Text → List Entry)
      → ((c : Text) → Shuffle (of_chain c rs) (history c))
      → ((c : Text) → Linked hmac key c genesis 0 (history c))
      → (verify_chain hmac rs key).ok ≡ true
  verify_chain-Shuffle rs history mixed linked = (verify_chain_iff rs).1 (λ c.
      rw
        (sort-Shuffle seq_le (mixed c)
          (Linked-IsSorted hmac key c genesis 0 (history c) (linked c)))
        (linked c))
