-- ===== src/Outbox.antt =====
-- server/fleet/outbox.go: the transactional outbox. `Table` has its operations, `Delivery` what holds
-- of them.
pub mod Table
pub mod Delivery
