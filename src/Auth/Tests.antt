-- ===== src/Auth/Tests.antt =====
-- Tests of authentication, and the theorems at concrete inputs.
mod Races
use task.Auth.Memory.{AuthDb, account_of, memory, memory-UsersTable, memory-TokensTable}
use task.Prelude.{String, Option, none, some, true, false, ◌≡◌, refl, List, [], ◌∷◌}
use task.Prelude.Text.{Text, codes, text_eq}
use task.Http.{Request, run_handler, send_success, send_error}
use task.Service.Answer.{answer}
use task.Service.Sample.{sample_services, sample_world, alice, request_of}
use task.Auth.Accounts.{
  Account, StoredToken, find_by_email, find_user, store_refresh_token, find_refresh_token,
  revoke_refresh_token,
}
use task.Auth.Secrets.{
  Claims, valid, comparing, verify_refresh_token, hash_token, verify_password, sign_access_token,
  sign_refresh_token, impl,
}
use task.Auth.Steps.{session, LoginBody, AuthServices, AuthWorld, query, issue_tokens, audit_auth}
use task.Auth.Controller.{
  login, refresh, holder_of, is_expired, login_found, logged_in, claims_of, claims_from,
}
use task.Auth.Requests.{AuthCommand, serve_auth}
use task.Auth.Roles.{administrators, serve_auth-administrators}
use task.Auth.Login.{login-uniform, login_sound}
use task.Auth.Rotation.{refresh_sound, refresh_once}

-- Every token of one kind is the same text, and every signature is good.
abbrev services : AuthServices
services = record {
  base = sample_services AuthDb;
  client = memory;
  config = record {
    jwt_access_secret = codes "a";
    jwt_refresh_secret = codes "r";
    jwt_access_expiry = "15m";
    jwt_refresh_expiry = "7d";
    refresh_expiry_days = 7;
    bcrypt_rounds = 12;
    native_hash = false;
  };
  jwt = record {
    sign = λ claims secret expiry. codes claims.type;
    verify = λ token secret algorithms.
        valid (record { sub = "alice"; type = "refresh"; email = none; role = none; jti = none });
    sha256 = λ t. t;
    random_uuid = λ n. "u";
  };
  bcrypt = record {
    installed = false;
    hash = λ l n plain rounds. plain;
    compare = λ l plain h. text_eq plain h;
  };
  iso = λ n. "later";
  time_of = λ t. some 100;
}

abbrev live : StoredToken
live = record { user_id = "alice"; token_hash = codes "tok"; expires_at = "later"; revoked = false }

abbrev world_of : List StoredToken → Option Text → AuthWorld services
world_of ts dummy = record {
  api = sample_world (record { users = alice ∷ []; tokens = ts });
  vault = record { dummy_hash = dummy; salts = 0; work = [] };
  uuids = 0;
  now = 50;
}

abbrev start : AuthWorld services
start = world_of (live ∷ []) (some (codes "d"))

abbrev requests : List (AuthCommand × Request)
requests =
    (
      AuthCommand.signup
          (record { email = "m@x"; password = codes "password"; role = some "USER" }),
      request_of alice,
    )
    ∷ (AuthCommand.refresh (codes "tok"), request_of alice)
    ∷ []

serve_auth-administrators_example :
    administrators (memory-UsersTable.users (serve_auth services requests start).api.db)
    ≡ administrators (memory-UsersTable.users start.api.db)
serve_auth-administrators_example =
    serve_auth-administrators services memory-UsersTable requests start

abbrev body_for : String → LoginBody
body_for email = record { email = email; password = codes "pw" }

abbrev nobody : AuthWorld services
nobody = record start { api = sample_world (record { users = []; tokens = [] }) }

abbrev wrong : LoginBody
wrong = record { email = "a@x"; password = codes "no" }

login-uniform_example :
    ((run_handler (login services wrong (request_of alice)) nobody).0
      ≡ (run_handler (login services wrong (request_of alice)) start).0)
    × ((run_handler (login services wrong (request_of alice)) nobody).0
        ≡ send_error "Invalid email or password" [] 401)
    × ((run_handler (login services wrong (request_of alice)) nobody).1.vault.work ≡ comparing ∷ [])
    × ((run_handler (login services wrong (request_of alice)) start).1.vault.work ≡ comparing ∷ [])
unfolding find_by_email impl text_eq
login-uniform_example =
    login-uniform services wrong (request_of alice) nobody start 100 [] (account_of alice) refl refl
      refl refl

alice_logs_in :
    (run_handler (login services (body_for "a@x") (request_of alice)) start).0
    ≡ send_success (session alice (codes "access") (codes "refresh")) 200
unfolding login query find_by_email login_found logged_in issue_tokens verify_password audit_auth
    text_eq hash_token sign_access_token sign_refresh_token store_refresh_token
alice_logs_in = refl

login_sound_example :
    (a : Account) × ((find_by_email memory "a@x" start.api.db).0 ≡ answer (some a) none)
    × (services.bcrypt.compare (impl services.config services.bcrypt) (codes "pw") a.password_hash
        ≡ true)
    × (a.profile ≡ alice)
login_sound_example =
    login_sound services (body_for "a@x") (request_of alice) start alice (codes "access")
      (codes "refresh") alice_logs_in

alice_refreshes :
    (run_handler (refresh services (codes "tok") (request_of alice)) start).0
    ≡ send_success (session alice (codes "access") (codes "refresh")) 200
unfolding refresh query holder_of claims_of claims_from verify_refresh_token find_refresh_token
    find_user revoke_refresh_token issue_tokens store_refresh_token hash_token text_eq
    sign_access_token sign_refresh_token is_expired
alice_refreshes = refl

refresh_sound_example :
    ((claims : Claims) × (verify_refresh_token services.config services.jwt (codes "tok")
        ≡ valid claims))
    × ((t : StoredToken) × ((find_refresh_token memory
            (hash_token services.jwt (codes "tok"))
            start.api.db).0
          ≡ answer (some t) none)
        × (t.revoked ≡ false)
        × (is_expired services start.now t ≡ false))
refresh_sound_example =
    refresh_sound services (codes "tok") (request_of alice) start
      (session alice (codes "access") (codes "refresh")) alice_refreshes

revoked_row :
    (revoke_refresh_token memory
      (hash_token services.jwt (codes "tok"))
      (holder_of services (codes "tok") start).1.api.db).0
    ≡ answer (some (record live { revoked = true })) none
unfolding query holder_of claims_of claims_from verify_refresh_token find_refresh_token find_user
    revoke_refresh_token hash_token text_eq is_expired
revoked_row = refl

refresh_once_example : ¬ (
    (run_handler (refresh services (codes "tok") (request_of alice)) (
      serve_auth services requests
        (run_handler (refresh services (codes "tok") (request_of alice)) start).1)).0
    ≡ send_success (session alice (codes "access") (codes "refresh")) 200)
refresh_once_example =
    refresh_once services (codes "tok") (request_of alice) memory-TokensTable start
      (record live { revoked = true }) (session alice (codes "access") (codes "refresh"))
      (session alice (codes "access") (codes "refresh")) requests revoked_row alice_refreshes
