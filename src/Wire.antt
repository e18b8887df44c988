-- ===== src/Wire.antt =====
-- protocols/platform/v1: the messages that cross the boundaries, as protobuf decodes them, and the
-- code that is linked in from outside the repository (protobuf, HMAC, Ed25519) as a parameter.
-- A Go pointer that may be nil is an `Option`; an enum keeps the numbers it does not know.
pub mod GoTime
pub mod Envelope
pub mod Codec
pub mod Auth
pub mod Tags
pub mod Signals
