-- ===== src/Events.antt =====
-- Outgoing events, src/events: the outbox, the enqueueing of events, and their delivery.
pub mod Outbox
pub mod Intake
pub mod Delivery
pub mod History
