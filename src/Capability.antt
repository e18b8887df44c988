-- ===== src/Capability.antt =====
-- protocols/platform/v1/capability_validation.go and server/fleet/capabilities.go: which gateways may
-- monitor and control a vehicle.
pub mod Assess
pub mod Safety
pub mod Persist
pub mod Admission
