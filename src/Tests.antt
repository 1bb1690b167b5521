-- ===== src/Tests.antt =====
-- Inputs on which the theorems are applied, and runs of the definitions.
mod RateLimits
mod Publishing
mod Feeds
mod Flows
mod Threads
mod Symbols
mod Console
mod Settings
mod External
mod Startup
mod Connector
mod Guards
mod Metrics
mod Topics
mod Requests
