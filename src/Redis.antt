-- ===== src/Redis.antt =====
-- pkg/redis: the key builders, the lifetimes, the cache and the sliding-window rate limiter.
pub mod Keys
pub mod RateLimiter
pub mod Cache
