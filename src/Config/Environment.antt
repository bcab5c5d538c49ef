-- ===== src/Config/Environment.antt =====
-- The part of `getConfig` (backend/src/config/env.js) that reads credentials, secrets, the proxy
-- setting and the role of the process. A variable that is not set is `none`. The other settings are in
-- Settings.
use text.Mathlib.Text.{◌==◌}
use task.Prelude.{
  ℕ, ◌+◌, ◌-◌, ◌*◌, String, Option, none, some, Bool, true, false, ◌&&◌, ◌||◌, [], ◌∷◌,
  if◌then◌else◌, leb,
}
use task.Prelude.Text.{Text, codes}

pub record Environment : Type 0 where
  pub node_env : Option String
  pub supabase_url : Option String
  pub service_role_key : Option String
  pub anon_key : Option String
  pub jwt_access_secret : Option String
  pub jwt_refresh_secret : Option String
  pub trust_proxy : Option String
  pub service_role : Option String
  pub audit_hmac_key : Option String

-- `parseInt(raw, 10)` for digits, `'true'` or `'false'`, or another text.
pub data TrustProxy : Type 0 where
  hops : ℕ → TrustProxy
  flag : Bool → TrustProxy
  other : String → TrustProxy

pub record Config : Type 0 where
  pub is_production : Bool
  pub is_test : Bool
  pub trust_proxy : TrustProxy
  pub service_role : String
  pub supabase_url : String
  pub supabase_key : String
  pub jwt_access_secret : String
  pub jwt_refresh_secret : String
  pub audit_hmac_key : Option String

pub data Loaded : Type 0 where
  loaded : Config → Loaded
  missing : String → Loaded

-- A variable that is set and not empty.
unfoldable pub truthy : Option String → Option String
truthy none = none
truthy (some v) = if v == "" then none else some v

-- `x || y`
unfoldable pub or_else : Option String → Option String → Option String
unfolding truthy
or_else x y = elim (truthy x) [ none ↦ y | some v ↦ some v ]

unfoldable pub or_default : Option String → String → String
unfolding truthy
or_default x d = elim (truthy x) [ none ↦ d | some v ↦ v ]

-- The choice of `supabaseKey`, or the error's message; the warning is left out.
unfoldable pub supabase_key_of : Bool → Environment → Option String
unfolding truthy
supabase_key_of is_production env = elim (truthy env.service_role_key) [
  | some key ↦ some key
  | none ↦ if is_production then none else truthy env.anon_key
]

abbrev is_digit : ℕ → Bool
is_digit c = leb 48 c && leb c 57

abbrev all_digits : Text → Bool
all_digits [] = true
all_digits (c ∷ cs) = is_digit c && all_digits cs

-- `/^\d+$/.test(raw)`
unfoldable pub is_number : Text → Bool
is_number [] = false
is_number (c ∷ cs) = all_digits (c ∷ cs)

-- `parseInt` of digits, as the number that they write.
unfoldable pub number_of : ℕ → Text → ℕ
number_of n [] = n
number_of n (c ∷ cs) = number_of (10 * n + (c - 48)) cs

unfoldable pub trust_proxy_of : Bool → Option String → TrustProxy
unfolding is_number number_of
trust_proxy_of is_production none = if is_production then hops 1 else flag false
trust_proxy_of is_production (some raw) =
    if is_number (codes raw)
    then hops (number_of 0 (codes raw))
    else if raw == "true" || raw == "false"
    then flag (raw == "true")
    else other raw

abbrev secret_of : Bool → Option String → String → Option String
secret_of is_test v test_only = or_else v (if is_test then some test_only else none)

-- The last part: every value that is required is there. `lower` is `toLowerCase`.
unfoldable pub config_of :
    (String → String)
    → Bool
    → Bool
    → Environment
    → String
    → String
    → Option String
    → Option String
    → Loaded
unfolding trust_proxy_of or_default truthy
config_of lower is_production is_test env url key none refresh =
    missing "JWT_ACCESS_SECRET and JWT_REFRESH_SECRET are required (set strong random values)"
config_of lower is_production is_test env url key (some access) none =
    missing "JWT_ACCESS_SECRET and JWT_REFRESH_SECRET are required (set strong random values)"
config_of lower is_production is_test env url key (some access) (some refresh) = loaded (record {
  is_production = is_production;
  is_test = is_test;
  trust_proxy = trust_proxy_of is_production env.trust_proxy;
  service_role = lower (or_default env.service_role "all");
  supabase_url = url;
  supabase_key = key;
  jwt_access_secret = access;
  jwt_refresh_secret = refresh;
  audit_hmac_key = truthy env.audit_hmac_key;
})

unfoldable pub get_config : (String → String) → Environment → Loaded
unfolding truthy or_else or_default supabase_key_of config_of
get_config lower env =
    let node_env = or_default env.node_env "development" in
    let is_production = node_env == "production" in
    let is_test = node_env == "test" in
    elim (truthy env.supabase_url) [
      | none ↦ missing "Missing required environment variable: SUPABASE_URL"
      | some url ↦ elim (supabase_key_of is_production env) [
        | none ↦ missing (
            if is_production
            then "SUPABASE_SERVICE_ROLE_KEY is required in production — never run the backend on the anon key"
            else "Missing Supabase credentials: set SUPABASE_SERVICE_ROLE_KEY")
        | some key ↦
            config_of lower is_production is_test env url key
              (secret_of is_test env.jwt_access_secret "test-only-access-secret")
              (secret_of is_test env.jwt_refresh_secret "test-only-refresh-secret")
      ]
    ]
