-- ===== src/Limits/Watch.antt =====
-- What the listeners of backend/src/config/redis.js keep track of.
use task.Prelude.{
  ℕ, ◌+◌, ◌≤◌, ◌≡◌, refl, Bool, true, false, List, [], ◌∷◌, arith, length, if◌then◌else◌,
}
use task.Limits.Health.{RedisEvent, ready, Connection, on_event, listen, is_redis_healthy}

abbrev pub is_ready : RedisEvent → Bool
is_ready ready = true
is_ready _ = false

-- Whether the last event was `ready`.
unfoldable pub last_ready : Bool → List RedisEvent → Bool
last_ready before [] = before
last_ready before (e ∷ es) = last_ready (is_ready e) es

unfoldable pub readies : List RedisEvent → ℕ
readies [] = 0
readies (e ∷ es) = (if is_ready e then 1 else 0) + readies es

abbrev pub owed : Bool → ℕ
owed true = 0
owed false = 1

module _ {Client : Type 0} where
  healthy_lem : (e : RedisEvent) (c : Connection Client) → (on_event e c).healthy ≡ is_ready e
  unfolding on_event
  healthy_lem e c = ground arith

  warnings_lem :
      (e : RedisEvent) (c : Connection Client)
      → length (on_event e c).warnings + owed (on_event e c).logged_down
        ≤ length c.warnings + owed c.logged_down + (if is_ready e then 1 else 0)
  unfolding on_event
  warnings_lem e c = ground arith

  listen-healthy :
      (es : List RedisEvent) (c : Connection Client)
      → (listen es c).healthy ≡ last_ready c.healthy es
  unfolding listen last_ready
  listen-healthy [] c = refl
  listen-healthy (e ∷ es) c = ground (arith, listen-healthy es (on_event e c), healthy_lem e c)

  listen-warnings :
      (es : List RedisEvent) (c : Connection Client)
      → length (listen es c).warnings + owed (listen es c).logged_down
        ≤ length c.warnings + owed c.logged_down + readies es
  unfolding listen readies
  listen-warnings [] c = omega arith
  listen-warnings (e ∷ es) c = omega (arith, warnings_lem e c, listen-warnings es (on_event e c))

  -- After any events Redis counts as healthy exactly where the last of them was `ready`, and the
  -- outages have been logged at most once for each `ready`, and once more.
  pub listen_lem :
      (es : List RedisEvent) (c : Connection Client)
      → (is_redis_healthy (listen es c) ≡ last_ready (is_redis_healthy c) es)
        × (length (listen es c).warnings ≤ length c.warnings + readies es + 1)
  unfolding is_redis_healthy
  listen_lem es c =
      (listen-healthy es c, omega (arith, listen-warnings es c, owed_le c.logged_down))
    where
      owed_le : (b : Bool) → owed b ≤ 1
      owed_le true = omega arith
      owed_le false = omega arith
