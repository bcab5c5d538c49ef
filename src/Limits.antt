-- ===== src/Limits.antt =====
-- Rate limiting: backend/src/middleware/rateLimiter.js, and the health of the Redis connection that
-- it goes by, backend/src/config/redis.js.
pub mod Health
pub mod Limiter
pub mod Watch
pub mod Quota
mod Tests
