-- ===== src/Service.antt =====
-- `MarketDataService` (src/application/services.py).
pub mod RateLimit
pub mod State
pub mod Lifecycle
pub mod Latency
pub mod Feed
pub mod Topic
