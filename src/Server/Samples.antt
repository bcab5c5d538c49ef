-- ===== src/Server/Samples.antt =====
-- A process with services in memory for the tests of the whole API.
use text.Mathlib.Text.{◌==◌ as str_eq}
use task.Prelude.{
  ℕ, ◌+◌, String, Option, none, some, true, false, refl, List, [], ◌∷◌, if◌then◌else◌,
}
use task.Prelude.Text.{Text, codes, text_eq}
use task.Http.{User}
use task.Service.Answer.{answer}
use task.Service.Sample.{sample_services, sample_world, alice, bob}
use task.Task.Memory.{Memory, memory_client}
use task.Auth.Accounts.{
  UserClient, find_by_email, find_user, create_user, store_refresh_token, find_refresh_token,
  revoke_refresh_token,
}
use task.Auth.Memory.{by, by_email, only}
use task.Auth.Secrets.{Claims, Verified, valid, invalid}
use task.Auth.Steps.{AuthServices}
use task.Report.Jobs.{StoredJob}
use task.Report.Samples.{queue}
use task.Limits.Limiter.{allowed, RateLimit}
use task.Server.Routes.{Segment, exact, param, Registration}
use task.Server.Validate.{parsed, rejected}
use task.Server.App.{body, HttpRequest, AppEnvironment, AppWorld}
use task.Task.Memory.{memory_tables}
use task.Server.EndToEnd.{LeavesTasks}

abbrev people : List User
people = alice ∷ bob ∷ []

-- The accounts are fixed; a table without tokens is beside them.
abbrev users : UserClient Memory
users = record {
  accounts_maybe_single = λ q db. (answer (by_email (only q.eq) people) none, db);
  users_maybe_single = λ q db. (answer (by (only q.eq) people) none, db);
  users_single = λ q db. (answer none (some "23505"), db);
  insert_token = λ q db. (answer none (some "23505"), db);
  select_token = λ q db. (answer none none, db);
  update_token = λ q db. (answer none none, db);
}

pub users-LeavesTasks : LeavesTasks memory_tables users
unfolding find_by_email find_user create_user store_refresh_token find_refresh_token
    revoke_refresh_token
users-LeavesTasks = record {
  by_email = λ e db. refl;
  by_id = λ id db. refl;
  creates = λ a db. refl;
  stores = λ t db. refl;
  finds = λ h db. refl;
  revokes = λ h db. refl;
}

abbrev claims_for : User → Claims
claims_for u = record {
  sub = u.id;
  type = "access";
  email = some u.email;
  role = some u.role;
  jti = none;
}

abbrev verify : Text → Verified
verify token =
    if text_eq token (codes "bob")
    then valid (claims_for bob)
    else if text_eq token (codes "alice")
    then valid (claims_for alice)
    else invalid

abbrev auth : AuthServices
auth = record {
  base = sample_services Memory;
  client = users;
  config = record {
    jwt_access_secret = codes "a";
    jwt_refresh_secret = codes "r";
    jwt_access_expiry = "15m";
    jwt_refresh_expiry = "7d";
    refresh_expiry_days = 7;
    bcrypt_rounds = 12;
    native_hash = false;
  };
  jwt = record {
    sign = λ claims secret expiry. codes claims.sub;
    verify = λ token secret algorithms. verify token;
    sha256 = λ t. t;
    random_uuid = λ n. "u";
  };
  bcrypt = record {
    installed = false;
    hash = λ l n plain rounds. plain;
    compare = λ l plain h. text_eq plain h;
  };
  iso = λ n. "later";
  time_of = λ t. some 100;
}

abbrev match_path : List Segment → List String → Option String
match_path [] [] = some ""
match_path [] (x ∷ xs) = none
match_path (s ∷ p) [] = none
match_path (exact l ∷ p) (x ∷ xs) = let rest = match_path p xs in if str_eq l x then rest else none
match_path (param n ∷ p) (x ∷ xs) = elim (match_path p xs) [ none ↦ none | some r ↦ some x ]

abbrev first : {A : Type 0} → List (Registration A) → String → List String → Option (A × String)
first [] method path = none
first (r ∷ rs) method path =
    let rest = first rs method path in
    elim (match_path r.path path) [
      | none ↦ rest
      | some x ↦ if str_eq r.method method then some (r.endpoint, x) else rest
    ]

abbrev strip : List String → List String → Option (List String)
strip [] path = some path
strip (p ∷ ps) [] = none
strip (p ∷ ps) (x ∷ xs) = let rest = strip ps xs in if str_eq p x then rest else none

abbrev generous : RateLimit
generous = record {
  Memory = ℕ;
  Redis = ℕ;
  memory_hit = λ o key m. (true, m + 1);
  redis_hit = λ o prefix key r. (allowed, r + 1);
}

abbrev pub env : AppEnvironment
env = record {
  auth = auth;
  tasks = memory_client;
  is_uuid = λ id. true;
  Queue = List StoredJob;
  jobs = queue;
  limits = generous;
  limit_config = record {
    is_test = false;
    rate_limit_window_ms = 1000;
    rate_limit_max = 100;
    auth_rate_limit_max = 20;
  };
  express = record { strip = strip; first_match = λ rs m p. first rs m p };
  Body = Unit;
  schemas = record {
    create_task_schema = λ b. rejected [];
    update_task_schema = λ b.
        parsed (record { title = some "mine"; description = none; due_date = none; status = none });
    signup_schema = λ b. rejected [];
    login_schema = λ b. rejected [];
    refresh_schema = λ b. rejected [];
    refresh_token_of = λ b. none;
  };
  is_production = true;
  service_role = "all";
  new_uuid = λ n. "uuid";
  iso_now = "now";
  select_id = λ db. (answer (some []) none, db);
}

abbrev pub world : Memory → AppWorld env
world db = record {
  world = record {
    api = sample_world db;
    vault = record { dummy_hash = none; salts = 0; work = [] };
    uuids = 0;
    now = 50;
  };
  queue = [];
  limiters = record {
    global_memory = 0;
    auth_memory = 0;
    tasks_memory = 0;
    reports_memory = 0;
    redis = 0;
  };
  redis_healthy = true;
  drawn = 0;
}

abbrev pub asking : String → List String → Option Text → HttpRequest Unit
asking method segments authorization = record {
  method = method;
  segments = segments;
  original_url = "/";
  ip = "::1";
  authorization = authorization;
  idempotency_key = none;
  x_request_id = none;
  user_agent = none;
  payload = body tt;
}
