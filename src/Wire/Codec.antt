-- ===== src/Wire/Codec.antt =====
-- What the control path links in from outside the repository: protobuf's deterministic Marshal and
-- its Unmarshal, HMAC-SHA256 and Ed25519. `Lawful` states the documented behaviour that some
-- theorems rely on; what a MAC or a signature proves about its maker is not stated.
use manage_robot.Common.{String, ◌≡◌, Bool, Option, length}
use manage_robot.Wire.Envelope.{Bytes, Envelope, LeaseGrant, ControlCommand}

pub record Codec (F : Type 0) : Type 0 where
  pub marshal_envelope : Envelope → Option Bytes
  pub marshal_command : ControlCommand F → Option Bytes
  pub unmarshal_command : Bytes → Option (ControlCommand F)
  pub marshal_grant : LeaseGrant → Option Bytes
  pub unmarshal_grant : Bytes → Option LeaseGrant
  -- key, message
  pub hmac : Bytes → Bytes → Bytes
  -- public key, message, signature
  -- SHA-256, in hexadecimal.
  pub digest : Bytes → String
  pub verify : Bytes → Bytes → Bytes → Bool
  -- private key, message
  pub sign : Bytes → Bytes → Bytes

pub record Lawful {F : Type 0} (c : Codec F) : Type 0 where
  -- SHA-256 has 32 bytes.
  pub length-hmac : (key message : Bytes) → length (c.hmac key message) ≡ 32
