-- ===== src/Limits/Health.antt =====
-- The Redis client of backend/src/config/redis.js: its singleton, its health, and the one warning of
-- an outage. The client itself is a parameter; `info` lines are left out.
use task.Prelude.{
  ℕ, ◌*◌, String, Option, none, some, Bool, true, false, List, [], ◌∷◌, if◌then◌else◌, ltb,
}

-- The events of ioredis that the code listens to.
pub data RedisEvent : Type 0 where
  ready end close reconnecting : RedisEvent
  error : String → RedisEvent

-- The module's variables, and the errors that were logged by `logger.warn`.
pub record Connection (Client : Type 0) : Type 0 where
  pub client : Option Client
  pub healthy : Bool
  pub logged_down : Bool
  pub warnings : List String

-- `retryStrategy`: `Math.min(times * 200, 5000)`
unfoldable pub retry_delay : ℕ → ℕ
retry_delay times = if ltb (times * 200) 5000 then times * 200 else 5000

module _ {Client : Type 0} where
  abbrev pub unconnected : Connection Client
  unconnected = record { client = none; healthy = false; logged_down = false; warnings = [] }

  -- `getRedisClient`, where `create` is `new Redis(config.redisUrl, ...)`.
  unfoldable pub get_redis_client : Client → Connection Client → Client × Connection Client
  get_redis_client create c = elim c.client [
    | some client ↦ (client, c)
    | none ↦ (create, record c { client = some create })
  ]

  abbrev mark_down : Connection Client → Connection Client
  mark_down c = record c { healthy = false }

  -- The listeners.
  unfoldable pub on_event : RedisEvent → Connection Client → Connection Client
  on_event ready c = record c { healthy = true; logged_down = false }
  on_event end c = mark_down c
  on_event close c = mark_down c
  on_event reconnecting c = mark_down c
  on_event (error message) c =
      if c.logged_down
      then mark_down c
      else record c { healthy = false; logged_down = true; warnings = message ∷ c.warnings }

  unfoldable pub is_redis_healthy : Connection Client → Bool
  is_redis_healthy c = c.healthy

  -- `closeRedis`, once `quit` has resolved.
  unfoldable pub close_redis : Connection Client → Connection Client
  close_redis c = elim c.client [
    | none ↦ c
    | some client ↦ record c { client = none; healthy = false }
  ]

  unfoldable pub listen : List RedisEvent → Connection Client → Connection Client
  unfolding on_event
  listen [] c = c
  listen (e ∷ es) c = listen es (on_event e c)
