-- ===== src/Adapter.antt =====
-- The CTP adapter (src/infrastructure/ctp_adapter.py) and the live connector that it drives
-- (src/infrastructure/ctp_live_connector.py).
pub mod Live
pub mod Subscriptions
pub mod Supervisor
pub mod Ticks
pub mod Translate
