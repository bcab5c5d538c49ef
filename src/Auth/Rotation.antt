-- ===== src/Auth/Rotation.antt =====
-- Refresh tokens (backend/src/controllers/auth.controller.js): which ones are accepted, and that one
-- that has been revoked is of no more use.
use mathlib.Core.Path.{subst}
use task.Prelude.{
  String, Option, none, some, true, false, ◌≡◌, ◌⊎◌, inl, inr, refl, sym, List, arith,
}
use task.Prelude.Text.{Text}
use task.Http.{User, Request, Outcome, Flow, go, stop, run_handler, send_success}
use task.Service.Answer.{Answer, answer, Missing, answer_cases}
use task.Auth.Accounts.{StoredToken, UserClient, find_refresh_token, revoke_refresh_token}
use task.Auth.Secrets.{Claims, Verified, valid, expired, invalid, verify_refresh_token, hash_token}
use task.Auth.Steps.{AuthReply, AuthServices, AuthWorld, query, issue_tokens, with_db}
use task.Auth.Controller.{refresh, holder_of, claims_of, claims_from, is_expired}
use task.Auth.Requests.{AuthCommand, serve_auth}
use task.Auth.Stable.{Closed, OnDb, issue_tokens-Keeps, serve_auth-OnDb}

-- What PostgREST documents of the table `refresh_tokens`, whose column `token_hash` is unique: once a
-- revocation has given back its row, each row with that hash that a query gives is revoked, and stays
-- so whatever query is made.
pub record TokensTable {Db : Type 0} (c : UserClient Db) : Type 1 where
  pub Revoked : Text → Db → Type 0
  pub revoked_by :
      (h : Text) (db : Db) (row : StoredToken)
      → (revoke_refresh_token c h db).0 ≡ answer (some row) none
      → Revoked h (revoke_refresh_token c h db).1
  pub read_as_revoked :
      (h : Text) (db : Db) (t : StoredToken) (e : Option String)
      → Revoked h db
      → (find_refresh_token c h db).0 ≡ answer (some t) e
      → t.revoked ≡ true
  pub stays : (h : Text) → Closed c (Revoked h)

module _ (s : AuthServices) (token : Text) (req : Request) where
  abbrev digest : Text
  digest = hash_token s.jwt token

  -- What `refresh` finds under the digest of the token.
  abbrev stored : AuthWorld s → Answer StoredToken
  stored w = (find_refresh_token s.client digest w.api.db).0

  abbrev Accepts : AuthWorld s → Type 0
  Accepts w =
      (t : StoredToken) × (stored w ≡ answer (some t) none)
      × (t.revoked ≡ false)
      × (is_expired s w.now t ≡ false)

  abbrev run : AuthWorld s → Outcome AuthReply × AuthWorld s
  run = run_handler (refresh s token req)

  abbrev Verifies : Type 0
  Verifies = (claims : Claims) × (verify_refresh_token s.config s.jwt token ≡ valid claims)

  verified_cases :
      (v : Verified) → ((claims : Claims) × (v ≡ valid claims)) ⊎ ((v ≡ expired) ⊎ (v ≡ invalid))
  verified_cases (valid claims) = inl (claims, refl)
  verified_cases expired = inr (inl refl)
  verified_cases invalid = inr (inr refl)

  unverified_lem :
      (w : AuthWorld s) (reply : AuthReply)
      → ((verify_refresh_token s.config s.jwt token ≡ expired)
          ⊎ (verify_refresh_token s.config s.jwt token ≡ invalid))
      → ¬ ((run w).0 ≡ send_success reply 200)
  unfolding refresh query holder_of claims_of claims_from
  unverified_lem w reply v h = ground arith

  missing_lem :
      (w : AuthWorld s) (claims : Claims) (reply : AuthReply)
      → verify_refresh_token s.config s.jwt token ≡ valid claims
      → Missing (stored w)
      → ¬ ((run w).0 ≡ send_success reply 200)
  unfolding Missing refresh query holder_of claims_of claims_from
  missing_lem w claims reply v n h = elim n [
    | inl e ↦ ground arith
    | inr (inl (d, x, e)) ↦ ground arith
    | inr (inr (x, e)) ↦ ground arith
  ]

  stored_lem :
      (w : AuthWorld s) (claims : Claims) (t : StoredToken) (reply : AuthReply)
      → verify_refresh_token s.config s.jwt token ≡ valid claims
      → stored w ≡ answer (some t) none
      → (run w).0 ≡ send_success reply 200
      → (t.revoked ≡ false) × (is_expired s w.now t ≡ false)
  unfolding refresh query holder_of claims_of claims_from
  stored_lem w claims t reply v e h = ground arith

  -- A session is given only for a token whose signature is good, which is stored, not revoked and not
  -- expired.
  pub refresh_sound :
      (w : AuthWorld s) (reply : AuthReply)
      → (run_handler (refresh s token req) w).0 ≡ send_success reply 200
      → ((claims : Claims) × (verify_refresh_token s.config s.jwt token ≡ valid claims))
        × ((t : StoredToken) × ((find_refresh_token s.client (hash_token s.jwt token) w.api.db).0
              ≡ answer (some t) none)
            × (t.revoked ≡ false)
            × (is_expired s w.now t ≡ false))
  refresh_sound w reply h = elim (verified_cases (verify_refresh_token s.config s.jwt token)) [
    | inr v ↦ absurd (unverified_lem w reply v h)
    | inl (claims, v) ↦ elim (answer_cases (stored w)) [
      | inr n ↦ absurd (missing_lem w claims reply v n h)
      | inl (t, e) ↦ let (r, x) = stored_lem w claims t reply v e h in ((claims, v), (t, e, r, x))
    ]
  ]

  module _ (table : TokensTable s.client) where
    open table use {Revoked, revoked_by, read_as_revoked, stays}

    refused :
        (w : AuthWorld s) (reply : AuthReply)
        → Revoked digest w.api.db
        → ¬ ((run w).0 ≡ send_success reply 200)
    refused w reply r h =
        let (v, (t, e, live, x)) = refresh_sound w reply h in
        let dead = read_as_revoked digest w.api.db t none r e in ground arith

    -- What the rest of `refresh` leaves behind, once it knows the user.
    holder_lem :
        (r : Flow AuthReply User) (w w' : AuthWorld s) (reply : AuthReply)
        → holder_of s token w ≡ (r, w')
        → (run w).0 ≡ send_success reply 200
        → (u : User) × (r ≡ go u)
    unfolding refresh query holder_of claims_of claims_from
    holder_lem (go u) w w' reply e h = (u, refl)
    holder_lem (stop o) w w' reply e h = absurd (ground arith)

    abbrev revoked_at : AuthWorld s → AuthWorld s
    revoked_at w = with_db s (revoke_refresh_token s.client digest w.api.db).1 w

    run_lem :
        (u : User) (w : AuthWorld s) (row : StoredToken)
        → (holder_of s token w).0 ≡ go u
        → (revoke_refresh_token s.client digest (holder_of s token w).1.api.db).0
          ≡ answer (some row) none
        → (run w).1.api.db ≡ (issue_tokens s u (revoked_at (holder_of s token w).1)).1.api.db
    unfolding refresh query
    run_lem u w row e a = ground arith

    spent :
        (w : AuthWorld s) (row : StoredToken) (reply : AuthReply)
        → (revoke_refresh_token s.client digest (holder_of s token w).1.api.db).0
          ≡ answer (some row) none
        → (run w).0 ≡ send_success reply 200
        → Revoked digest (run w).1.api.db
    unfolding OnDb
    spent w row reply works h =
        let (u, e) = holder_lem (holder_of s token w).0 w (holder_of s token w).1 reply refl h in
        let w1 = revoked_at (holder_of s token w).1 in
        let r : Revoked digest w1.api.db =
          revoked_by digest (holder_of s token w).1.api.db row works in
        let kept = (issue_tokens-Keeps s (Revoked digest) (stays digest) u).at w1 r in
        subst (λ db. Revoked digest db) (sym (run_lem u w row e works)) kept

    -- A token that a session has been given for is of no more use, whatever requests follow, if the
    -- revocation that `refresh` asks for, once it knows the holder, has given back its row.
    pub refresh_once :
        (w : AuthWorld s) (row : StoredToken) (reply again : AuthReply)
        (cs : List (AuthCommand × Request))
        → (revoke_refresh_token s.client (hash_token s.jwt token) (holder_of s token w).1.api.db).0
          ≡ answer (some row) none
        → (run_handler (refresh s token req) w).0 ≡ send_success reply 200
        → ¬ (
            (run_handler
              (refresh s token req)
              (serve_auth s cs (run_handler (refresh s token req) w).1)).0
            ≡ send_success again 200)
    refresh_once w row reply again cs works h =
        refused (serve_auth s cs (run w).1) again (
          serve_auth-OnDb s (Revoked digest) (stays digest) cs (run w).1
            (spent w row reply works h))
