-- ===== src/Automation.antt =====
-- The durable automation backbone: services/internal/automation and services/cmd/automation.
pub mod Picking
pub mod Outbox
pub mod Contract
pub mod Bus
