-- ===== src/Wire/Envelope.antt =====
-- protocols/platform/v1/envelope.pb.go and control.pb.go: the messages of the control path. `F` is
-- the type of a float64.
use manage_robot.Common.{ℕ, ℤ, String, Bool, Option, List}

abbrev pub Bytes : Type 0
Bytes = List ℕ

pub record Envelope : Type 0 where
  pub schema_major : ℕ
  pub schema_minor : ℕ
  pub message_type : String
  pub vehicle_id : String
  pub gateway_id : String
  pub session_id : String
  pub sequence : ℕ  -- uint64
  pub utc_time_ns : ℤ  -- int64
  pub monotonic_time_ns : ℕ  -- uint64
  pub ttl_ms : ℕ  -- uint32
  pub trace_id : String
  pub payload : Bytes
  pub auth_tag : Bytes

pub data LeaseAction : Type 0 where
  action_unspecified grant revoke : LeaseAction
  unknown_action : ℤ → LeaseAction

pub record LeaseGrant : Type 0 where
  pub version : ℕ
  pub action : LeaseAction
  pub vehicle_id : String
  pub gateway_id : String
  pub lease_id : String
  pub driver_id : String
  pub device_id : String
  pub fencing_token : ℕ  -- uint64
  pub valid_until_unix_ns : ℤ
  pub issued_at_unix_ns : ℤ
  pub authority_key_id : String
  pub authority_signature : Bytes

pub data ControlMode : Type 0 where
  mode_unspecified direct_actuation target_motion trajectory minimal_risk : ControlMode
  unknown_mode : ℤ → ControlMode

pub data RiskReason : Type 0 where
  reason_unspecified link_loss lease_expired driver_request system_fault : RiskReason
  unknown_reason : ℤ → RiskReason

pub record Motion (F : Type 0) : Type 0 where
  pub target_speed : F
  pub target_acceleration : F
  pub target_curvature : F
  pub target_yaw_rate : F

-- The oneof of ControlCommand. What `direct` and `trajectory` carry is never read.
pub data Body (F : Type 0) : Type 0 where
  no_body direct_body trajectory_body : Body F
  motion_body : Motion F → Body F
  risk_body : RiskReason → Body F

pub record ControlCommand (F : Type 0) : Type 0 where
  pub control_session_id : String
  pub lease_id : String
  pub fencing_token : ℕ  -- uint64
  pub command_sequence : ℕ  -- uint64
  pub issued_monotonic_ns : ℕ
  pub ttl_ms : ℕ  -- uint32
  pub mode : ControlMode
  pub body : Body F
  pub end_to_end_mac : Bytes

-- GetMotion: nil unless the oneof holds a motion.
abbrev pub get_motion : {F : Type 0} → Body F → Option (Motion F)
get_motion (motion_body m) = Option.some m
get_motion _ = Option.none

-- GetMinimalRisk().GetReason(): the zero reason of a nil message.
abbrev pub get_reason : {F : Type 0} → Body F → RiskReason
get_reason (risk_body r) = r
get_reason _ = reason_unspecified

abbrev pub is_unspecified_reason : RiskReason → Bool
is_unspecified_reason reason_unspecified = Bool.true
is_unspecified_reason _ = Bool.false
