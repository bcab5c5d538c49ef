-- ===== src/Auth/Controller.antt =====
-- The handlers of backend/src/controllers/auth.controller.js. Their application's log lines are left
-- out.
use text.Mathlib.Text.{◌==◌}
use task.Prelude.{ℕ, String, Option, none, some, Bool, false, ◌||◌, [], ◌∷◌, ltb}
use task.Prelude.Text.{Text, codes}
use task.Http.{
  User, Request, Outcome, ◌>>=◌, ◌>>◌, pure, finish, return_if, send_success, send_error,
}
use task.Audit.Json.{str, end, field}
use task.Audit.Chain.{success, failure}
use task.Service.Answer.{is_some}
use task.Service.Effects.{audit_context, actor_of}
use task.Auth.Accounts.{
  Account, StoredToken, find_by_email, find_user, create_user, find_refresh_token,
  revoke_refresh_token,
}
use task.Auth.Secrets.{
  Verified, valid, expired, invalid, Claims, verify_refresh_token, hash_token, hash_password,
  verify_password, fake_verify,
}
use task.Auth.Steps.{
  AuthReply, SignupBody, LoginBody, AuthServices, Step, query, when, branch, audit_auth, in_vault,
  read_now, issue_tokens, failed_login, has_error, required, invalid_refresh, invalid_login,
  session, profile, note, email_metadata, create_failed,
}

module _ (s : AuthServices) where
  open s use {base, client, config, jwt, bcrypt, iso, time_of}

  -- `role && role === 'ADMIN'`
  unfoldable pub asks_for_admin : Option String → Bool
  asks_for_admin none = false
  asks_for_admin (some role) = role == "ADMIN"

  -- The refusal of a client that asks for the role ADMIN.
  unfoldable pub admin_refused : SignupBody → Request → Step s Unit
  unfolding audit_auth
  admin_refused body req = do
    audit_auth s
        (record {
          action = codes "auth.signup";
          result = failure;
          actor = none;
          resource = none;
          context = audit_context req;
          metadata = some (
              email_metadata s body.email
                (field (codes "reason") (str (codes "admin-self-assign")) end));
        })
        req
    finish (send_error "Cannot self-assign the ADMIN role" [] 403)

  unfoldable pub signup : SignupBody → Request → Step s (Outcome AuthReply)
  unfolding query audit_auth issue_tokens asks_for_admin admin_refused
  signup body req = do
    when s (asks_for_admin body.role) (admin_refused body req)
    existing ← query s (find_by_email client body.email)
    return_if (has_error s existing) (create_failed s)
    return_if (is_some existing.0) (send_error "An account with this email already exists" [] 409)
    password_hash ← in_vault s (hash_password config bcrypt body.password)
    created ← query s (
        create_user client
          (record { email = body.email; password_hash = password_hash; role = "USER" }))
    return_if (has_error s created) (create_failed s)
    user ← required s created.0 (create_failed s)
    tokens ← issue_tokens s user
    audit_auth s
        (record {
          action = codes "auth.signup";
          result = success;
          actor = some (
              field (codes "id") (str (codes user.id)) (
                field (codes "role") (str (codes user.role))
                  (field (codes "email") (str (codes user.email)) end)));
          resource = none;
          context = audit_context req;
          metadata = none;
        })
        req
    pure (send_success (session user tokens.0 tokens.1) 201)

  -- The branch of `login` for an email that no account has.
  unfoldable pub unknown_email : LoginBody → Request → Step s (Outcome AuthReply)
  unfolding audit_auth
  unknown_email body req = do
    in_vault s (fake_verify config bcrypt)
    audit_auth s (failed_login s body.email req) req
    finish (invalid_login s)

  unfoldable pub logged_in : User → Request → Step s (Outcome AuthReply)
  unfolding audit_auth issue_tokens
  logged_in user req = do
    tokens ← issue_tokens s user
    audit_auth s
        (record {
          action = codes "auth.login";
          result = success;
          actor = some (actor_of user);
          resource = none;
          context = audit_context req;
          metadata = none;
        })
        req
    pure (send_success (session user tokens.0 tokens.1) 200)

  unfoldable pub wrong_password : LoginBody → Request → Step s (Outcome AuthReply)
  unfolding audit_auth
  wrong_password body req = do
    audit_auth s (failed_login s body.email req) req
    finish (invalid_login s)

  -- The part of `login` behind the query.
  unfoldable pub login_found : Option Account → LoginBody → Request → Step s (Outcome AuthReply)
  unfolding unknown_email logged_in wrong_password
  login_found none body req = unknown_email body req
  login_found (some account) body req = do
    ok ← in_vault s (verify_password config bcrypt body.password account.password_hash)
    branch s ok (logged_in account.profile req) (wrong_password body req)

  unfoldable pub login : LoginBody → Request → Step s (Outcome AuthReply)
  unfolding query login_found
  login body req = do
    found ← query s (find_by_email client body.email)
    return_if (has_error s found) (send_error "Failed to log in" [] 500)
    login_found found.0 body req

  -- `new Date(stored.expires_at) < new Date()`, false for a text that is no date.
  unfoldable pub is_expired : ℕ → StoredToken → Bool
  is_expired now t = elim (time_of t.expires_at) [ none ↦ false | some at ↦ ltb at now ]

  -- `verifyRefreshToken`, and what `catch` does.
  unfoldable pub claims_from : Verified → Step s Claims
  claims_from (valid claims) = pure claims
  claims_from expired = finish (invalid_refresh s)
  claims_from invalid = finish (invalid_refresh s)

  unfoldable pub claims_of : Text → Step s Claims
  unfolding claims_from
  claims_of token = claims_from (verify_refresh_token config jwt token)

  -- The part of `refresh` up to the user: the token must be stored, not revoked and not expired.
  unfoldable pub holder_of : Text → Step s User
  unfolding query claims_of is_expired
  holder_of token = do
    claims ← claims_of token
    found ← query s (find_refresh_token client (hash_token jwt token))
    return_if (has_error s found) (send_error "Failed to refresh token" [] 500)
    stored ← required s found.0 (invalid_refresh s)
    now ← read_now s
    return_if (stored.revoked || is_expired now stored) (invalid_refresh s)
    user ← query s (find_user client claims.sub)
    return_if (has_error s user) (invalid_refresh s)
    required s user.0 (invalid_refresh s)

  -- The answer of the revocation is not looked at.
  unfoldable pub refresh : Text → Request → Step s (Outcome AuthReply)
  unfolding query issue_tokens holder_of
  refresh token req = do
    user ← holder_of token
    query s (revoke_refresh_token client (hash_token jwt token))
    tokens ← issue_tokens s user
    pure (send_success (session user tokens.0 tokens.1) 200)

  -- A token that is missing or empty is not revoked.
  unfoldable pub revoke_given : Option Text → Step s Unit
  unfolding query
  revoke_given none = pure tt
  revoke_given (some []) = pure tt
  revoke_given (some (x ∷ rest)) =
      query s (revoke_refresh_token client (hash_token jwt (x ∷ rest))) >> pure tt

  unfoldable pub logout : Option Text → Request → Step s (Outcome AuthReply)
  unfolding revoke_given
  logout token req = do revoke_given token; pure (send_success (note "Logged out successfully") 200)

  unfoldable pub me : Request → Step s (Outcome AuthReply)
  unfolding query
  me req = do
    user ← query s (find_user client req.user.id)
    return_if (has_error s user) (send_error "User not found" [] 404)
    found ← required s user.0 (send_error "User not found" [] 404)
    pure (send_success (profile found) 200)
