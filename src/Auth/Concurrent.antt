-- ===== src/Auth/Concurrent.antt =====
-- `refresh` of backend/src/controllers/auth.controller.js as a process: each awaited call is a step,
-- after which other requests may run.
use task.Prelude.{◌+◌, ◌*◌, ◌||◌, [], arith}
use task.Prelude.Text.{Text}
use task.Http.{Request, Outcome, return_if, send_success, send_error}
use task.Async.{Process, ◌>>=◌, ◌>>◌, await, pure, run}
use task.Async.Serial.{Runs}
use task.Auth.Accounts.{find_refresh_token, find_user, revoke_refresh_token, store_refresh_token}
use task.Auth.Secrets.{hash_token, sign_access_token, sign_refresh_token}
use task.Auth.Steps.{
  AuthReply, AuthServices, AuthWorld, session, query, required, has_error, invalid_refresh,
  draw_uuid, read_now, issue_tokens,
}
use task.Auth.Controller.{refresh, holder_of, claims_of, is_expired}

module _ (s : AuthServices) where
  open s use {client, config, jwt, iso}

  unfoldable pub refreshing : Text → Request → Process (AuthWorld s) AuthReply (Outcome AuthReply)
  refreshing token req = do
    claims ← await (claims_of s token)
    found ← await (query s (find_refresh_token client (hash_token jwt token)))
    await (return_if (has_error s found) (send_error "Failed to refresh token" [] 500))
    stored ← await (required s found.0 (invalid_refresh s))
    now ← await (read_now s)
    await (return_if (stored.revoked || is_expired s now stored) (invalid_refresh s))
    holder ← await (query s (find_user client claims.sub))
    await (return_if (has_error s holder) (invalid_refresh s))
    user ← await (required s holder.0 (invalid_refresh s))
    await (query s (revoke_refresh_token client (hash_token jwt token)))
    n ← await (draw_uuid s)
    issued_at ← await (read_now s)
    await (
        query s (
          store_refresh_token client (record {
            user_id = user.id;
            token_hash = hash_token jwt (sign_refresh_token config jwt n user);
            expires_at = iso (issued_at + config.refresh_expiry_days * 24 * 60 * 60 * 1000);
          })))
    pure (
        send_success
          (session user (sign_access_token config jwt user) (sign_refresh_token config jwt n user))
          200)

  -- A refresh that nothing interrupts does what the handler does.
  pub refreshing-Runs :
      (token : Text) (req : Request) → Runs (refreshing token req) (refresh s token req)
  unfolding refreshing refresh query holder_of issue_tokens run ◌>>=◌
  refreshing-Runs token req w = ground arith
