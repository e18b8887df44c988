-- ===== src/OpenApi.antt =====
-- server/fleet/openapi.go: the signed interface for other platforms. `Store` has its data, `Locks` the
-- lock-out after failures, `Authenticate` the check of a request, `Keys` the life of a key; the other
-- modules prove what holds of them.
pub mod Store
pub mod Locks
pub mod Authenticate
pub mod Admission
pub mod Replay
pub mod Keys
pub mod Lifetime
