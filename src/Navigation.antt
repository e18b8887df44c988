-- ===== src/Navigation.antt =====
-- server/fleet/nav.go and nav_ack.go: the life of a navigation route. `Ack` has the transitions that a
-- vehicle's acknowledgement makes, `Route` the parts of the operations,
-- `World` their interleavings, `Onwards` and `Life` what holds of them.
pub mod Ack
pub mod Route
pub mod World
pub mod Onwards
pub mod Life
