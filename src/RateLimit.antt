-- ===== src/RateLimit.antt =====
-- apps/cms/server/utils/rateLimit.ts: the sliding-window limiter of requests.
pub mod Store
mod Sweep
pub mod Window
pub mod Retry
mod Tests
