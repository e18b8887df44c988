-- ===== src/Authority.antt =====
-- server/fleet/durable_authority.go: the control authority, whose truth is in PostgreSQL. `Data` has
-- the tables, `Guards` the queries that admit a takeover, `Publish` the signed message to the
-- vehicle, and the other modules the operations, then their proofs.
pub mod Data
pub mod Guards
pub mod Publish
pub mod Operations
pub mod Tables
pub mod Shapes
pub mod Invariant
pub mod Revocation
