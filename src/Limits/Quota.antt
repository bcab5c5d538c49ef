-- ===== src/Limits/Quota.antt =====
-- How many requests a limiter lets through in one window (backend/src/middleware/rateLimiter.js).
use task.Prelude.{ℕ, ◌+◌, ◌-◌, ◌≤◌, ◌≡◌, ◌⊎◌, Bool, List, [], ◌∷◌, ltb}
use task.Prelude.Text.{Text}
use task.Http.{Exception}
use task.Limits.Limiter.{
  Options, RateLimit, Visit, allowed, exceeded, store_failed, visit_of, Stores, limiter,
  redis_prefix,
}

-- What express-rate-limit documents of one window: a visit of a key is counted, and is let through
-- where the limit has not been reached. Where Redis fails, the visit may have been counted or not.
pub record WindowCounts (l : RateLimit) (o : Options) (key : Text) : Type 0 where
  pub in_memory : l.Memory → ℕ
  pub in_redis : l.Redis → ℕ
  pub memory_counts :
      (m : l.Memory)
      → ((l.memory_hit o key m).0 ≡ ltb (in_memory m) o.max)
        × (in_memory (l.memory_hit o key m).1 ≡ in_memory m + 1)
  pub redis_counts :
      (r : l.Redis)
      → let (visit, r') = l.redis_hit o (redis_prefix o) key r in
        ((visit ≡ visit_of (ltb (in_redis r) o.max)) × (in_redis r' ≡ in_redis r + 1))
        ⊎ ((x : Exception) × (visit ≡ store_failed x) × (in_redis r ≤ in_redis r'))

abbrev one_if_allowed : Visit → ℕ
one_if_allowed allowed = 1
one_if_allowed exceeded = 0
one_if_allowed (store_failed x) = 0

abbrev one_if_failed : Visit → ℕ
one_if_failed allowed = 0
one_if_failed exceeded = 0
one_if_failed (store_failed x) = 1

-- How many of the visits of a key are let through, where each finds Redis healthy or not.
unfoldable pub admitted : (l : RateLimit) → Bool → Options → Text → List Bool → Stores l → ℕ
admitted l is_test o key [] s = 0
admitted l is_test o key (healthy ∷ visits) s =
    let (visit, s') = limiter l is_test o healthy key s in
    one_if_allowed visit + admitted l is_test o key visits s'

-- How many of them end by an error of the store.
unfoldable pub failures : (l : RateLimit) → Bool → Options → Text → List Bool → Stores l → ℕ
failures l is_test o key [] s = 0
failures l is_test o key (healthy ∷ visits) s =
    let (visit, s') = limiter l is_test o healthy key s in
    one_if_failed visit + failures l is_test o key visits s'

abbrev pub left : ℕ → ℕ → ℕ
left max used = max - used

module _ (l : RateLimit) (o : Options) (key : Text) (counts : WindowCounts l o key) where
  open counts use {in_memory, in_redis, memory_counts, redis_counts}

  abbrev memory_left : Stores l → ℕ
  memory_left s = left o.max (in_memory s.memory)

  abbrev redis_left : Stores l → ℕ
  redis_left s = left o.max (in_redis s.redis)
