-- ===== src/Publisher.antt =====
-- The NATS publisher (src/infrastructure/nats_publisher.py): its circuit breaker, the retry loop
-- and the publisher's own state.
pub mod Breaker
pub mod Retry
pub mod Client
pub mod Options
