-- ===== src/Limits/Tests.antt =====
-- Tests of the rate limiting, with stores that count.
use task.Prelude.{inl, ℕ, ◌+◌, ◌≡◌, refl, true, false, none, List, [], ◌∷◌, ltb, replicate}
use task.Prelude.Text.{codes}
use task.Limits.Health.{
  RedisEvent, ready, end, error, Connection, unconnected, on_event, listen, get_redis_client,
  close_redis, retry_delay,
}
use task.Limits.Limiter.{Options, RateLimit, Stores, visit_of, limiter, hit_memory, hit_redis}
use task.Limits.Quota.{WindowCounts, admitted, failures}

abbrev outage : List RedisEvent
outage = ready ∷ error "refused" ∷ end ∷ error "refused" ∷ ready ∷ error "gone" ∷ []

logged : listen outage (unconnected {Client = Unit}) ≡ record {
  client = none;
  healthy = false;
  logged_down = true;
  warnings = "gone" ∷ "refused" ∷ [];
}
unfolding listen on_event
logged = refl

closes_and_reconnects :
    let c : Connection ℕ = (get_redis_client 1 unconnected).1 in
    let n : ℕ = 2 in (get_redis_client n (close_redis c)).0 ≡ n
unfolding get_redis_client close_redis
closes_and_reconnects = refl

backs_off : (retry_delay 3 ≡ 600) × (retry_delay 40 ≡ 5000)
unfolding retry_delay
backs_off = (refl, refl)

abbrev counting : RateLimit
counting = record {
  Memory = ℕ;
  Redis = ℕ;
  memory_hit = λ o key m. (ltb m o.max, m + 1);
  redis_hit = λ o prefix key r. (visit_of (ltb r o.max), r + 1);
}

abbrev two : Options
two = record { window_ms = 1000; max = 2; prefix = "user" }

abbrev counts : WindowCounts counting two (codes "user:1")
counts = record {
  in_memory = λ m. m;
  in_redis = λ r. r;
  memory_counts = λ m. (refl, refl);
  redis_counts = λ r. inl (refl, refl);
}

abbrev empty : Stores counting
empty = record { memory = 0; redis = 0 }

-- An outage in the middle of a window gives the key a second quota.
twice :
    admitted counting false two (codes "user:1") (true ∷ true ∷ true ∷ false ∷ false ∷ []) empty ≡ 4
unfolding admitted limiter hit_memory hit_redis
twice = refl

answered : failures counting false two (codes "user:1") (replicate 3 true) empty ≡ 0
unfolding failures limiter hit_redis
answered = refl
