-- ===== src/FullFeed.antt =====
-- The full-feed subscription workflow (src/operations/full_feed_subscription.py).
pub mod Limiter
pub mod Selection
pub mod Reasons
pub mod Workflow
pub mod Request
pub mod Connection
