-- ===== src/Auth/Steps.antt =====
-- What the handlers of backend/src/controllers/auth.controller.js are made of: their world, their
-- queries and audit records, and `issueTokens`.
use task.Prelude.{ℕ, ◌+◌, ◌*◌, String, Option, none, some, Bool, true, false, []}
use task.Prelude.Text.{Text, codes}
use task.Http.{
  User, Request, Flow, go, stop, Outcome, Handler, ◌>>=◌, ◌>>◌, pure, finish, send_error,
  next_error,
}
use task.Audit.Json.{str, end, field, Fields}
use task.Audit.Chain.{Event, failure}
use task.Service.Answer.{Ask, Answer, is_some, answer, thrown}
use task.Service.Effects.{Services, World, record_audit, audit_context}
use task.Auth.Accounts.{UserClient, store_refresh_token}
use task.Auth.Secrets.{
  AuthConfig, Jwt, Bcrypt, Vault, sign_access_token, sign_refresh_token, hash_token,
}

pub data AuthReply : Type 0 where
  session : User → Text → Text → AuthReply
  profile : User → AuthReply
  note : String → AuthReply

pub record SignupBody : Type 0 where
  pub email : String
  pub password : Text
  pub role : Option String

pub record LoginBody : Type 0 where
  pub email : String
  pub password : Text

-- The environment of the handlers. `iso` is `new Date(ms).toISOString()` and `time_of` the time of a
-- date, if it is one.
pub record AuthServices : Type 1 where
  pub base : Services
  pub client : UserClient base.Db
  pub config : AuthConfig
  pub jwt : Jwt
  pub bcrypt : Bcrypt
  pub iso : ℕ → String
  pub time_of : String → Option ℕ

module _ (s : AuthServices) where
  open s use {base, client, config, jwt, bcrypt, iso, time_of}

  -- The world of the API, the state of password.js, the random ids drawn, and `Date.now()`.
  pub record AuthWorld : Type 0 where
    pub api : World base
    pub vault : Vault
    pub uuids : ℕ
    pub now : ℕ

  abbrev pub Step : Type 0 → Type 0
  Step A = Handler AuthWorld AuthReply A

  abbrev pub with_db : base.Db → AuthWorld → AuthWorld
  with_db db w = record w { api = record w.api { db = db } }

  abbrev pub settled :
      {A : Type 0}
      → Answer A
      → base.Db
      → AuthWorld
      → Flow AuthReply (Option A × Option String) × AuthWorld
  settled (answer d e) db w = (go (d, e), with_db db w)
  settled (thrown x) db w = (stop (next_error x), with_db db w)

  unfoldable pub query : {A : Type 0} → Ask base.Db A → Step (Option A × Option String)
  query q w = let (a, db) = q w.api.db in settled a db w

  -- `if (test) { ... }` and `if (test) ... else ...` around steps.
  abbrev pub when : Bool → Step Unit → Step Unit
  when false m = pure tt
  when true m = m

  abbrev pub branch : {A : Type 0} → Bool → Step A → Step A → Step A
  branch true m n = m
  branch false m n = n

  unfoldable pub audit_auth : Event → Request → Step Unit
  unfolding record_audit
  audit_auth e req w =
      let (r, api) = record_audit base (some (codes req.request_id)) e w.api in
      (r, record w { api = api })

  abbrev pub in_vault : {A : Type 0} → (Vault → A × Vault) → Step A
  in_vault f w = let (a, v) = f w.vault in (go a, record w { vault = v })

  abbrev pub draw_uuid : Step ℕ
  draw_uuid w = (go w.uuids, record w { uuids = w.uuids + 1 })

  abbrev pub read_now : Step ℕ
  read_now w = (go w.now, w)

  -- `issueTokens`. The answer of the insertion is not looked at.
  unfoldable pub issue_tokens : User → Step (Text × Text)
  unfolding query
  issue_tokens user = do
    n ← draw_uuid
    now ← read_now
    query (
        store_refresh_token client (record {
          user_id = user.id;
          token_hash = hash_token jwt (sign_refresh_token config jwt n user);
          expires_at = iso (now + config.refresh_expiry_days * 24 * 60 * 60 * 1000);
        }))
    pure (sign_access_token config jwt user, sign_refresh_token config jwt n user)

  abbrev pub email_metadata : String → Fields → Fields
  email_metadata email rest = field (codes "email") (str (codes email)) rest

  abbrev pub failed_login : String → Request → Event
  failed_login email req = record {
    action = codes "auth.login";
    result = failure;
    actor = none;
    resource = none;
    context = audit_context req;
    metadata = some (email_metadata email end);
  }

  abbrev pub has_error : {A : Type 0} → Option A × Option String → Bool
  has_error r = is_some r.1

  -- `if (!data) return outcome`, and the row that is there otherwise.
  abbrev pub required : {A : Type 0} → Option A → Outcome AuthReply → Step A
  required none o = finish o
  required (some a) o = pure a

  abbrev pub invalid_refresh : Outcome AuthReply
  invalid_refresh = send_error "Invalid or expired refresh token" [] 401

  abbrev pub invalid_login : Outcome AuthReply
  invalid_login = send_error "Invalid email or password" [] 401

  abbrev pub create_failed : Outcome AuthReply
  create_failed = send_error "Failed to create account" [] 500
