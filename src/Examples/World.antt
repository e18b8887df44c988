-- ===== src/Examples/World.antt =====
-- A small world for the examples: floats with a NaN, a codec whose payloads are single numbers, an
-- actuator, and two vehicles.
use manage_robot.Common.{
  ℕ, suc, ◌≡◌, refl, Bool, true, false, Option, none, some, [], ◌∷◌, String, ltb, leb, ℤ, pos,
  arith,
}
use manage_robot.Wire.GoTime.{unix_ns}
use manage_robot.Wire.Envelope.{
  Bytes, Envelope, LeaseGrant, grant, ControlCommand, target_motion, motion_body,
}
use manage_robot.Wire.Codec.{Codec, Lawful}
use manage_robot.Arbiter.State.{Float, Config, Arbiter, Actuator}
use manage_robot.Arbiter.Run.{Clocks}
use manage_robot.Arbiter.Odd.{Ieee}

-- `none` is the NaN.
abbrev pub F : Type 0
F = Option ℕ

abbrev pub lt : F → F → Bool
lt (some a) (some b) = ltb a b
lt (some a) none = false
lt none b = false

abbrev pub le : F → F → Bool
le (some a) (some b) = leb a b
le (some a) none = false
le none b = false

abbrev pub is_nan : F → Bool
is_nan none = true
is_nan (some a) = false

abbrev pub floats : Float F
floats = record {
  zero = some 0;
  lt = lt;
  le = le;
  is_nan = is_nan;
  is_inf = λ x. false;
  abs = λ x. x;
}

pub le_of_not_lt_lem :
    (x y : F) → is_nan x ≡ false → is_nan y ≡ false → lt x y ≡ false → le y x ≡ true
le_of_not_lt_lem x y h k l = ground arith

pub abs_within_lem : (x m : F) → le x m ≡ true → (le (some 0) x ≡ true) × (le x m ≡ true)
abs_within_lem x m h = ground arith

pub lt-nan_lem : (x m : F) → is_nan m ≡ true → lt m x ≡ false
lt-nan_lem x m h = ground arith

abbrev pub ieee : Ieee floats
ieee = record {
  minus = λ x. some 0;
  le_of_not_lt = le_of_not_lt_lem;
  abs-nan = λ x h. h;
  abs_within = abs_within_lem;
  lt-nan = lt-nan_lem;
}

abbrev pub zeros : ℕ → Bytes
zeros ℕ.zero = []
zeros (suc n) = 0 ∷ zeros n

abbrev pub drive : ℕ → ControlCommand F
drive n = record {
  control_session_id = "s1";
  lease_id = "lease-1";
  fencing_token = 5;
  command_sequence = n;
  issued_monotonic_ns = 1;
  ttl_ms = 200;
  mode = target_motion;
  body = motion_body (record {
    target_speed = some 1;
    target_acceleration = some 0;
    target_curvature = some 0;
    target_yaw_rate = some 0;
  });
  end_to_end_mac = zeros 32;
}

abbrev pub lease_grant : LeaseGrant
lease_grant = record {
  version = 1;
  action = grant;
  vehicle_id = "v1";
  gateway_id = "g1";
  lease_id = "lease-1";
  driver_id = "d1";
  device_id = "dev1";
  fencing_token = 5;
  valid_until_unix_ns = pos 50000000000;
  issued_at_unix_ns = pos 1000000000;
  authority_key_id = "k1";
  authority_signature = zeros 64;
}

abbrev read_drive : Bytes → Option (ControlCommand F)
read_drive [] = none
read_drive (n ∷ ns) = some (drive n)

abbrev pub codec : Codec F
codec = record {
  marshal_envelope = λ e. some (e.sequence ∷ []);
  marshal_command = λ m. some (m.command_sequence ∷ []);
  unmarshal_command = read_drive;
  marshal_grant = λ g. some (g.fencing_token ∷ []);
  unmarshal_grant = λ b. some lease_grant;
  hmac = λ key message. zeros 32;
  digest = λ message. "0";
  verify = λ key message signature. true;
  sign = λ key message. zeros 64;
}

abbrev pub lawful : Lawful codec
lawful = record { length-hmac = λ key message. refl }

abbrev pub config : Config F
config = record {
  vehicle_id = "v1";
  gateway_id = "g1";
  authority_keys = ("k1", zeros 32) ∷ [];
  command_mac_key = zeros 32;
  require_mac = true;
  watchdog = pos 500000000;
  max_clock_skew = pos 2000000000;
  limits = record {
    max_speed = some 2;
    max_acceleration = some 1;
    max_curvature = some 1;
    max_yaw_rate = some 1;
  };
}

abbrev pub start : Arbiter F
start = record { cfg = config; last_fencing = pos 0; lease = none; minimal_risk = "" }

abbrev pub actuator : Actuator F
actuator = record {
  apply_motion = λ m. record { applied_ns = pos 7; failed = false };
  minimal_risk = λ r. record { applied_ns = pos 8; failed = false };
}

abbrev pub at : ℕ → Clocks
at ns = record { now = unix_ns (pos ns); clock = unix_ns (pos ns); later = unix_ns (pos ns) }

abbrev pub envelope : String → ℕ → Envelope
envelope kind n = record {
  schema_major = 1;
  schema_minor = 0;
  message_type = kind;
  vehicle_id = "v1";
  gateway_id = "g1";
  session_id = "s1";
  sequence = n;
  utc_time_ns = pos 1000000000;
  monotonic_time_ns = 1;
  ttl_ms = 200;
  trace_id = "t1";
  payload = n ∷ [];
  auth_tag = zeros 32;
}

abbrev pub number : ℤ → String
number n = "?"
