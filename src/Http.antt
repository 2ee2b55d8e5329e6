-- ===== src/Http.antt =====
-- The middleware of pkg/httpkit/middleware.go.
pub mod RateLimit
pub mod RedisLimiter
pub mod Cors
pub mod Recovery
