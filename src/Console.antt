-- ===== src/Console.antt =====
-- The operations console (src/application/ops_console.py).
pub mod Records
pub mod Reports
pub mod State
pub mod Service
pub mod Metrics
pub mod Prometheus
pub mod Api
