-- ===== src/Limits/Limiter.antt =====
-- The limiters of backend/src/middleware/rateLimiter.js. `express-rate-limit` with its two kinds of
-- store is a parameter.
use task.Prelude.{ℕ, String, Option, none, some, Bool, ◌++◌, [], if◌then◌else◌}
use task.Prelude.Text.{Text, codes}
use task.Http.{Exception, Outcome, send_error}

-- `{ windowMs, max }` and the prefix of the keys in Redis.
pub record Options : Type 0 where
  pub window_ms : ℕ
  pub max : ℕ
  pub prefix : String

-- What a limiter makes of a visit. An error of the store goes to `next`, which is what
-- express-rate-limit documents for `passOnStoreError: false`, its default.
pub data Visit : Type 0 where
  allowed : Visit
  exceeded : Visit
  store_failed : Exception → Visit

abbrev pub visit_of : Bool → Visit
visit_of ok = if ok then allowed else exceeded

-- A visit of the key to a limiter with a store: what becomes of it, and the store behind it. The store
-- in memory does not fail.
pub record RateLimit : Type 1 where
  pub Memory : Type 0
  pub Redis : Type 0
  pub memory_hit : Options → Text → Memory → Bool × Memory
  pub redis_hit : Options → Text → Text → Redis → Visit × Redis

pub record LimitConfig : Type 0 where
  pub is_test : Bool
  pub rate_limit_window_ms : ℕ
  pub rate_limit_max : ℕ
  pub auth_rate_limit_max : ℕ

-- `req.user ? 'user:' + req.user.id : req.ip`
unfoldable pub key_generator : Option String → String → Text
key_generator none ip = codes ip
key_generator (some user_id) ip = codes "user:" ++ codes user_id

-- `rl:${prefix}:`
unfoldable pub redis_prefix : Options → Text
redis_prefix o = codes "rl:" ++ (codes o.prefix ++ codes ":")

-- `message` of `baseOptions`, which the library sends with the status 429.
abbrev pub too_many : {A : Type 0} → Outcome A
too_many = send_error "Too many requests, please try again later" [] 429

unfoldable pub global_options : LimitConfig → Options
global_options c = record {
  window_ms = c.rate_limit_window_ms;
  max = c.rate_limit_max;
  prefix = "global";
}

unfoldable pub auth_options : LimitConfig → Options
auth_options c = record {
  window_ms = c.rate_limit_window_ms;
  max = c.auth_rate_limit_max;
  prefix = "auth";
}

unfoldable pub user_options : LimitConfig → Options
user_options c = record {
  window_ms = c.rate_limit_window_ms;
  max = c.rate_limit_max;
  prefix = "user";
}

module _ (l : RateLimit) where
  open l use {Memory, Redis, memory_hit, redis_hit}

  -- A limiter keeps its own memory; Redis is shared by all.
  pub record Stores : Type 0 where
    pub memory : Memory
    pub redis : Redis

  unfoldable pub hit_memory : Options → Text → Stores → Visit × Stores
  hit_memory o key s =
      let (ok, m) = memory_hit o key s.memory in (visit_of ok, record s { memory = m })

  unfoldable pub hit_redis : Options → Text → Stores → Visit × Stores
  unfolding redis_prefix
  hit_redis o key s =
      let (visit, r) = redis_hit o (redis_prefix o) key s.redis in (visit, record s { redis = r })

  -- The middleware that `createRateLimiter` returns, for a request with the given key; `healthy` is
  -- `isRedisHealthy()` at that time.
  unfoldable pub limiter : Bool → Options → Bool → Text → Stores → Visit × Stores
  unfolding hit_memory hit_redis
  limiter is_test o healthy key s =
      if is_test
      then hit_memory o key s
      else if healthy
      then hit_redis o key s
      else hit_memory o key s
