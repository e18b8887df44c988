-- ===== src/Maps.antt =====
-- server/fleet/map_publication.go: the publication of maps to vehicles. `Data` has the tables and the
-- check of compatibility, `Request` and `Approve` what an operator does, `Ack` what the vehicle's answer does, `Flow`
-- their order; the other modules prove what holds of them.
pub mod Data
pub mod Ack
pub mod Request
pub mod Approve
pub mod Flow
pub mod Rows
pub mod Active
pub mod Taken
pub mod Lifecycle
pub mod Approval
pub mod Unapproved
