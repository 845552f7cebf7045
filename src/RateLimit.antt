-- ===== src/RateLimit.antt =====
-- ratelimit.go: pacing of requests. A `time.Time` is the number of nanoseconds since Go's zero
-- time, so that 0 is the zero `Time` of `IsZero`; a `time.Duration` that is not negative is a
-- number of nanoseconds.
pub mod Window
pub mod Rules
pub mod Bucket
pub mod Limiter
mod Tests
