-- ===== src/Audit/Grouping.antt =====
-- The first loop of `verifyChain` (backend/src/utils/audit.js) groups the records by chain.
use task.Prelude.{
  ◌≡◌, refl, sym, ◌∙◌, inl, inr, Bool-cases, true, false, List, [], ◌∷◌, ◌++◌, Option, none, some,
  arith, if◌then◌else◌,
}
use task.Prelude.Text.{Text, codes, text_eq, text_eq_iff}
use task.Prelude.Sorting.{All, All-map}
use task.Audit.Chain.{Entry, push_group, group_from}
use mathlib.Core.List.{append_assoc, append-nil}

abbrev pub Groups : Type 0
Groups = List (Text × List Entry)

-- The AUDIT records of one chain, in the order in which they stand.
unfoldable pub of_chain : Text → List (Option Entry) → List Entry
unfolding text_eq
of_chain c [] = []
of_chain c (none ∷ rs) = of_chain c rs
of_chain c (some r ∷ rs) =
    let rest = of_chain c rs in
    if text_eq r.category (codes "AUDIT")
    then if text_eq r.chain_id c then r ∷ rest else rest
    else rest

-- `byChain.get(c)`, and no records where there is no such key
pub members : Text → Groups → List Entry
members c [] = []
members c ((d, rs) ∷ gs) = if text_eq d c then rs else members c gs

-- No key twice.
abbrev pub HasDistinctKeys : Groups → Type 0
HasDistinctKeys [] = Unit
HasDistinctKeys ((c, rs) ∷ gs) =
    All (λ (g : Text × List Entry). text_eq c g.0 ≡ false) gs × HasDistinctKeys gs

members-push_group :
    (c : Text) (r : Entry) (gs : Groups)
    → members c (push_group r gs)
      ≡ (if text_eq r.chain_id c then members c gs ++ r ∷ [] else members c gs)
unfolding members push_group
members-push_group c r [] = ground arith
members-push_group c r ((d, rs) ∷ gs) = ground (
  arith,
  members-push_group c r gs,
  text_eq_iff r.chain_id c,
  text_eq_iff r.chain_id d,
  text_eq_iff d c,
)

push_group-keys :
    (d : Text) (r : Entry) (gs : Groups)
    → text_eq d r.chain_id ≡ false
    → All (λ (g : Text × List Entry). text_eq d g.0 ≡ false) gs
    → All (λ (g : Text × List Entry). text_eq d g.0 ≡ false) (push_group r gs)
unfolding push_group
push_group-keys d r [] e h = (e, tt)
push_group-keys d r ((c, rs) ∷ gs) e h = ground (arith, push_group-keys d r gs e h.1)

push_group-HasDistinctKeys :
    (r : Entry) (gs : Groups) → HasDistinctKeys gs → HasDistinctKeys (push_group r gs)
unfolding push_group
push_group-HasDistinctKeys r [] h = (tt, tt)
push_group-HasDistinctKeys r ((c, rs) ∷ gs) h = ground (
  arith,
  push_group-HasDistinctKeys r gs h.1,
  push_group-keys c r gs,
  text_eq_iff c r.chain_id,
  text_eq_iff r.chain_id c,
)

group_from-HasDistinctKeys :
    (rs : List (Option Entry)) (gs : Groups)
    → HasDistinctKeys gs
    → HasDistinctKeys (group_from rs gs)
unfolding group_from
group_from-HasDistinctKeys [] gs h = h
group_from-HasDistinctKeys (none ∷ rs) gs h = group_from-HasDistinctKeys rs gs h
group_from-HasDistinctKeys (some r ∷ rs) gs h =
    group_from-HasDistinctKeys rs
      (if text_eq r.category (codes "AUDIT") then push_group r gs else gs)
      (elim (text_eq r.category (codes "AUDIT"))
        as (λ b. HasDistinctKeys (if b then push_group r gs else gs)) [
          | true ↦ push_group-HasDistinctKeys r gs h
          | false ↦ h
        ])

push_group-append :
    (c : Text) (r : Entry) (gs : Groups) (rest : List Entry)
    → members c (push_group r gs) ++ rest
      ≡ members c gs ++ (if text_eq r.chain_id c then r ∷ rest else rest)
push_group-append c r gs rest = elim (Bool-cases (text_eq r.chain_id c)) [
  | inl e ↦ rw (members-push_group c r gs, e) (append_assoc (members c gs) (r ∷ []) rest)
  | inr e ↦ rw (members-push_group c r gs, e)
]

members-group_from :
    (c : Text) (rs : List (Option Entry)) (gs : Groups)
    → members c (group_from rs gs) ≡ members c gs ++ of_chain c rs
unfolding group_from of_chain
members-group_from c [] gs = sym (append-nil (members c gs))
members-group_from c (none ∷ rs) gs = members-group_from c rs gs
members-group_from c (some r ∷ rs) gs = elim (Bool-cases (text_eq r.category (codes "AUDIT"))) [
  | inl e ↦
      rw e (members-group_from c rs (push_group r gs) ∙ push_group-append c r gs (of_chain c rs))
  | inr e ↦ rw e (members-group_from c rs gs)
]

members-later :
    (c : Text) (rs : List Entry) (gs hs : Groups)
    → All (λ (g : Text × List Entry). text_eq c g.0 ≡ false) hs
    → All (λ (g : Text × List Entry). g.1 ≡ members g.0 gs) hs
    → All (λ (g : Text × List Entry). g.1 ≡ members g.0 ((c, rs) ∷ gs)) hs
unfolding members
members-later c rs gs [] d h = tt
members-later c rs gs (g ∷ hs) d h = (rw (d.0) (h.0), members-later c rs gs hs d.1 h.1)

All-members :
    (gs : Groups) → HasDistinctKeys gs → All (λ (g : Text × List Entry). g.1 ≡ members g.0 gs) gs
unfolding members
All-members [] h = tt
All-members ((c, rs) ∷ gs) h =
    (rw ((text_eq_iff c c).1 refl), members-later c rs gs gs h.0 (All-members gs h.1))

-- Each group holds the records of its chain.
pub group_from_lem :
    (rs : List (Option Entry))
    → All (λ (g : Text × List Entry). g.1 ≡ of_chain g.0 rs) (group_from rs [])
unfolding members
group_from_lem rs =
    All-map (λ (g : Text × List Entry). g.1 ≡ members g.0 (group_from rs []))
      (λ (g : Text × List Entry). g.1 ≡ of_chain g.0 rs) (group_from rs [])
      (λ g e. e ∙ members-group_from g.0 rs [])
      (All-members (group_from rs []) (group_from-HasDistinctKeys rs [] tt))

members_missing :
    (c : Text) (gs : Groups)
    → All (λ (g : Text × List Entry). text_eq g.0 c ≡ false) gs
    → members c gs ≡ []
unfolding members
members_missing c [] h = refl
members_missing c ((d, rs) ∷ gs) h = rw (h.0) (members_missing c gs h.1)

-- A chain that has no group has no record.
pub of_chain_missing :
    (c : Text) (rs : List (Option Entry))
    → All (λ (g : Text × List Entry). text_eq g.0 c ≡ false) (group_from rs [])
    → of_chain c rs ≡ []
unfolding members
of_chain_missing c rs h = sym (members-group_from c rs []) ∙ members_missing c (group_from rs []) h
