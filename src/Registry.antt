-- ===== src/Registry.antt =====
-- server/fleet/vehicle_registry.go: `Cursor` has the gate on inbound sequence numbers, `Enrollment` the
-- life of a gateway from its enrolment to its revocation, `Calls` its calls in sequence; `Ordering`,
-- `Identity` and `History` prove what they do.
pub mod Cursor
pub mod Ordering
pub mod Enrollment
pub mod Calls
pub mod History
pub mod Identity
