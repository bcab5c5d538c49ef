-- ===== src/Config/Settings.antt =====
-- The numeric settings of `getConfig` and its texts with defaults (backend/src/config/env.js). The rate
-- of injected failures, a fraction, is left out.
use task.Prelude.{
  ℕ, zero, suc, ◌+◌, ◌-◌, ◌*◌, String, Option, none, some, Bool, ◌&&◌, [], ◌∷◌, if◌then◌else◌, leb,
  ◌==◌,
}
use task.Prelude.Text.{Text, codes}
use task.Forms.Trim.{trim_start}
use task.Config.Environment.{or_default}

-- A whole number of JavaScript; `minus n` is -(n + 1).
pub data Whole : Type 0 where
  plus minus : ℕ → Whole

abbrev is_digit : ℕ → Bool
is_digit c = leb 48 c && leb c 57

-- The digits in front of a text, as a number, behind those that have been read; none where there are
-- none at all.
unfoldable pub digits_of : Option ℕ → Text → Option ℕ
digits_of n [] = n
digits_of none (c ∷ cs) =
    let rest = digits_of (some (c - 48)) cs in if is_digit c then rest else none
digits_of (some n) (c ∷ cs) =
    let rest = digits_of (some (10 * n + (c - 48))) cs in if is_digit c then rest else some n

abbrev negated : Option ℕ → Option Whole
negated none = none
negated (some zero) = some (plus 0)
negated (some (suc n)) = some (minus n)

abbrev unsigned : Option ℕ → Option Whole
unsigned none = none
unsigned (some n) = some (plus n)

abbrev signed : Text → Option Whole
signed [] = none
signed (c ∷ cs) =
    if c == 45
    then negated (digits_of none cs)
    else if c == 43
    then unsigned (digits_of none cs)
    else unsigned (digits_of none (c ∷ cs))

-- `parseInt(text, 10)`; NaN is none.
unfoldable pub parse_int : Text → Option Whole
unfolding trim_start digits_of
parse_int t = signed (trim_start t)

abbrev nonzero_or : Option Whole → ℕ → Whole
nonzero_or none d = plus d
nonzero_or (some (plus zero)) d = plus d
nonzero_or (some (plus (suc n))) d = plus (suc n)
nonzero_or (some (minus n)) d = minus n

-- `parseInt(process.env.X, 10) || d`
unfoldable pub int_or : Option String → ℕ → Whole
unfolding parse_int
int_or none d = plus d
int_or (some v) d = nonzero_or (parse_int (codes v)) d

pub record Variables : Type 0 where
  pub port : Option String
  pub cors_origin : Option String
  pub jwt_access_expiry : Option String
  pub jwt_refresh_expiry : Option String
  pub refresh_expiry_days : Option String
  pub bcrypt_rounds : Option String
  pub password_hash : Option String
  pub redis_url : Option String
  pub worker_metrics_port : Option String
  pub report_queue_attempts : Option String
  pub report_worker_concurrency : Option String
  pub report_processing_delay_ms : Option String
  pub smtp_url : Option String
  pub email_from : Option String
  pub rate_limit_window_ms : Option String
  pub rate_limit_max : Option String
  pub auth_rate_limit_max : Option String
  pub log_level : Option String

pub record Settings : Type 0 where
  pub port : Whole
  pub cors_origin : String
  pub jwt_access_expiry : String
  pub jwt_refresh_expiry : String
  pub refresh_expiry_days : Whole
  pub bcrypt_rounds : Whole
  pub password_hash_impl : String
  pub redis_url : String
  pub worker_metrics_port : Whole
  pub report_queue_attempts : Whole
  pub report_concurrency : Whole
  pub report_processing_delay_ms : Whole
  pub smtp_url : String
  pub email_from : String
  pub rate_limit_window_ms : Whole
  pub rate_limit_max : Whole
  pub auth_rate_limit_max : Whole
  pub log_level : String

-- `lower` is `toLowerCase`.
unfoldable pub settings_of : (String → String) → Variables → Settings
unfolding int_or or_default
settings_of lower v = record {
  port = int_or v.port 3001;
  cors_origin = or_default v.cors_origin "http://localhost:5173";
  jwt_access_expiry = or_default v.jwt_access_expiry "15m";
  jwt_refresh_expiry = or_default v.jwt_refresh_expiry "7d";
  refresh_expiry_days = int_or v.refresh_expiry_days 7;
  bcrypt_rounds = int_or v.bcrypt_rounds 10;
  password_hash_impl = lower (or_default v.password_hash "bcryptjs");
  redis_url = or_default v.redis_url "redis://localhost:6379";
  worker_metrics_port = int_or v.worker_metrics_port 9101;
  report_queue_attempts = int_or v.report_queue_attempts 3;
  report_concurrency = int_or v.report_worker_concurrency 2;
  report_processing_delay_ms = int_or v.report_processing_delay_ms 3000;
  smtp_url = or_default v.smtp_url "";
  email_from = or_default v.email_from "TaskFlow <no-reply@taskflow.local>";
  rate_limit_window_ms = int_or v.rate_limit_window_ms (15 * 60 * 1000);
  rate_limit_max = int_or v.rate_limit_max 100;
  auth_rate_limit_max = int_or v.auth_rate_limit_max 10;
  log_level = or_default v.log_level "info";
}
