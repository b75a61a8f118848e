-- ===== src/RateLimit.antt =====
-- internal/pkg/ratelimiter/memory/limiter.go and the middlewares of
-- internal/api/middleware/rate_limit.go and ip_rate_limit.go in front of it.
pub mod Limiter
pub mod Quota
pub mod Middleware
pub mod ClientIp
