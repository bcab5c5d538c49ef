-- ===== src/Auth/Stable.antt =====
-- A property of the database that the queries of the handlers keep is kept by every request.
use task.Prelude.{String, Option, none, some, Bool, true, false, List, [], ◌∷◌, ◌≡◌}
use task.Prelude.Text.{Text}
use task.Http.{
  User, Request, Outcome, Handler, run_handler, Keeps, Keeps-bind, Keeps-then, Keeps-pure,
  return_if, finish,
}
use task.Audit.Chain.{Event}
use task.Service.Answer.{Ask, Answer, answer, thrown}
use task.Service.Effects.{record_audit}
use task.Auth.Accounts.{
  NewAccount, NewToken, Account, UserClient, find_by_email, find_user, create_user,
  store_refresh_token, find_refresh_token, revoke_refresh_token,
}
use task.Auth.Secrets.{Vault, Verified, valid, expired, invalid}
use task.Auth.Steps.{
  AuthReply, SignupBody, LoginBody, AuthServices, AuthWorld, query, audit_auth, issue_tokens,
  settled, when, branch, in_vault, required, draw_uuid, read_now,
}
use task.Auth.Controller.{
  admin_refused, unknown_email, logged_in, wrong_password, login_found, signup, login, claims_from,
  claims_of, holder_of, refresh, revoke_given, logout, me,
}
use task.Auth.Requests.{AuthCommand, handle_auth, serve_auth}

-- The queries keep a property of the database; the accounts that are created have the role USER.
pub record Closed {ℓ} {Db : Type 0} (c : UserClient Db) (Q : Db → Type ℓ) : Type ℓ where
  pub by_email : (e : String) (db : Db) → Q db → Q (find_by_email c e db).1
  pub by_id : (id : String) (db : Db) → Q db → Q (find_user c id db).1
  pub creates : (a : NewAccount) (db : Db) → a.role ≡ "USER" → Q db → Q (create_user c a db).1
  pub stores : (t : NewToken) (db : Db) → Q db → Q (store_refresh_token c t db).1
  pub finds : (h : Text) (db : Db) → Q db → Q (find_refresh_token c h db).1
  pub revokes : (h : Text) (db : Db) → Q db → Q (revoke_refresh_token c h db).1

module _ {ℓ} (s : AuthServices) (Q : s.base.Db → Type ℓ) where
  unfoldable pub OnDb : AuthWorld s → Type ℓ
  OnDb w = Q w.api.db

  settled_lem :
      {A : Type 0} (a : Answer A) (db : s.base.Db) (w : AuthWorld s)
      → Q db
      → Q (settled s a db w).1.api.db
  settled_lem (answer d e) db w h = h
  settled_lem (thrown x) db w h = h

  query-Keeps :
      {A : Type 0} (q : Ask s.base.Db A)
      → ((db : s.base.Db) → Q db → Q (q db).1)
      → Keeps OnDb (query s q)
  unfolding OnDb query
  query-Keeps q k = record {
    at = λ w h. settled_lem (q w.api.db).0 (q w.api.db).1 w (k w.api.db h);
  }

  when-Keeps :
      (b : Bool) {m : Handler (AuthWorld s) AuthReply Unit} → Keeps OnDb m → Keeps OnDb (when s b m)
  when-Keeps false h = Keeps-pure OnDb tt
  when-Keeps true h = h

  branch-Keeps :
      {A : Type 0} (b : Bool) {m n : Handler (AuthWorld s) AuthReply A}
      → Keeps OnDb m
      → Keeps OnDb n
      → Keeps OnDb (branch s b m n)
  branch-Keeps true h k = h
  branch-Keeps false h k = k

  audit_auth-Keeps : (e : Event) (req : Request) → Keeps OnDb (audit_auth s e req)
  unfolding OnDb audit_auth record_audit
  audit_auth-Keeps e req = record { at = λ w h. h }

  in_vault-Keeps : {A : Type 0} (f : Vault → A × Vault) → Keeps OnDb (in_vault s f)
  unfolding OnDb
  in_vault-Keeps f = record { at = λ w h. h }

  finish-Keeps : {A : Type 0} (o : Outcome AuthReply) → Keeps {A = A} OnDb (finish o)
  finish-Keeps o = record { at = λ w h. h }

  return_if-Keeps : (b : Bool) (o : Outcome AuthReply) → Keeps OnDb (return_if b o)
  return_if-Keeps b o = record { at = λ w h. h }

  required-Keeps : {A : Type 0} (a : Option A) (o : Outcome AuthReply) → Keeps OnDb (required s a o)
  required-Keeps none o = finish-Keeps o
  required-Keeps (some a) o = Keeps-pure OnDb a

  draw_uuid-Keeps : Keeps OnDb (draw_uuid s)
  unfolding OnDb
  draw_uuid-Keeps = record { at = λ w h. h }

  read_now-Keeps : Keeps OnDb (read_now s)
  unfolding OnDb
  read_now-Keeps = record { at = λ w h. h }

  ruleset steps = (
    Keeps-bind, Keeps-then, Keeps-pure, draw_uuid-Keeps, read_now-Keeps, query-Keeps,
    audit_auth-Keeps, in_vault-Keeps, finish-Keeps, return_if-Keeps, required-Keeps, when-Keeps,
    branch-Keeps,
  )

  module _ (k : Closed s.client Q) where
    pub issue_tokens-Keeps : (u : User) → Keeps OnDb (issue_tokens s u)
    unfolding issue_tokens
    issue_tokens-Keeps u = search (steps, k.stores) depth 16

    admin_refused-Keeps : (b : SignupBody) (req : Request) → Keeps OnDb (admin_refused s b req)
    unfolding admin_refused
    admin_refused-Keeps b req = search (steps) depth 16

    signup-Keeps : (b : SignupBody) (req : Request) → Keeps OnDb (signup s b req)
    unfolding signup
    signup-Keeps b req =
        search (steps, admin_refused-Keeps, k.by_email, k.creates, issue_tokens-Keeps) depth 16

    unknown_email-Keeps : (b : LoginBody) (req : Request) → Keeps OnDb (unknown_email s b req)
    unfolding unknown_email
    unknown_email-Keeps b req = search (steps) depth 16

    logged_in-Keeps : (u : User) (req : Request) → Keeps OnDb (logged_in s u req)
    unfolding logged_in
    logged_in-Keeps u req = search (steps, issue_tokens-Keeps) depth 16

    wrong_password-Keeps : (b : LoginBody) (req : Request) → Keeps OnDb (wrong_password s b req)
    unfolding wrong_password
    wrong_password-Keeps b req = search (steps) depth 16

    login_found-Keeps :
        (a : Option Account) (b : LoginBody) (req : Request) → Keeps OnDb (login_found s a b req)
    unfolding login_found
    login_found-Keeps none b req = unknown_email-Keeps b req
    login_found-Keeps (some a) b req =
        search (steps, logged_in-Keeps, wrong_password-Keeps) depth 16

    login-Keeps : (b : LoginBody) (req : Request) → Keeps OnDb (login s b req)
    unfolding login
    login-Keeps b req = search (steps, k.by_email, login_found-Keeps) depth 16

    claims_from-Keeps : (v : Verified) → Keeps OnDb (claims_from s v)
    unfolding claims_from
    claims_from-Keeps (valid c) = Keeps-pure OnDb c
    claims_from-Keeps expired = finish-Keeps _
    claims_from-Keeps invalid = finish-Keeps _

    holder_of-Keeps : (t : Text) → Keeps OnDb (holder_of s t)
    unfolding holder_of claims_of
    holder_of-Keeps t = search (steps, claims_from-Keeps, k.finds, k.by_id) depth 16

    refresh-Keeps : (t : Text) (req : Request) → Keeps OnDb (refresh s t req)
    unfolding refresh
    refresh-Keeps t req = search (steps, holder_of-Keeps, k.revokes, issue_tokens-Keeps) depth 16

    revoke_given-Keeps : (t : Option Text) → Keeps OnDb (revoke_given s t)
    unfolding revoke_given
    revoke_given-Keeps none = Keeps-pure OnDb tt
    revoke_given-Keeps (some []) = Keeps-pure OnDb tt
    revoke_given-Keeps (some (x ∷ t)) = search (steps, k.revokes) depth 16

    me-Keeps : (req : Request) → Keeps OnDb (me s req)
    unfolding me
    me-Keeps req = search (steps, k.by_id) depth 16

    pub handle_auth-Keeps : (c : AuthCommand) (req : Request) → Keeps OnDb (handle_auth s c req)
    unfolding handle_auth logout
    handle_auth-Keeps (AuthCommand.signup b) req = signup-Keeps b req
    handle_auth-Keeps (AuthCommand.login b) req = login-Keeps b req
    handle_auth-Keeps (AuthCommand.refresh t) req = refresh-Keeps t req
    handle_auth-Keeps (AuthCommand.logout t) req = search (steps, revoke_given-Keeps) depth 16
    handle_auth-Keeps AuthCommand.me req = me-Keeps req

    pub serve_auth-OnDb :
        (cs : List (AuthCommand × Request)) (w : AuthWorld s)
        → Q w.api.db
        → Q (serve_auth s cs w).api.db
    unfolding serve_auth OnDb
    serve_auth-OnDb [] w h = h
    serve_auth-OnDb ((c, req) ∷ cs) w h =
        serve_auth-OnDb cs (run_handler (handle_auth s c req) w).1
          ((handle_auth-Keeps c req).at w h)
