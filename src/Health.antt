-- ===== src/Health.antt =====
-- The subscription health check (src/operations/check_feed_health.py).
pub mod Records
pub mod Evaluate
pub mod Sorted
pub mod Totals
pub mod Exit
pub mod Remediation
pub mod Ignored
pub mod Catalogue
