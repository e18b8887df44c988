-- ===== src/Arbiter/State.antt =====
-- vehicle/safety-arbiter/arbiter.go: the arbiter's data, its construction and the limits.
use manage_robot.Common.{
  Bool, true, false, not, ◌&&◌, ◌||◌, Option, none, List, [], ◌∷◌, String, ltb, ◌==◌, if◌then◌else◌,
  length, any, ℤ, pos, leb_ℤ, Result, ok, ◌>>◌, refuse_if,
}
use manage_robot.Wire.GoTime.{Time}
use manage_robot.Wire.Envelope.{Bytes, Motion}
use manage_robot.Wire.Auth.{EnvelopeError, is_empty}

-- The float64 operations that the arbiter uses: `<`, `<=`, math.IsNaN, math.IsInf and math.Abs.
pub record Float (F : Type 0) : Type 0 where
  pub zero : F
  pub lt : F → F → Bool
  pub le : F → F → Bool
  pub is_nan : F → Bool
  pub is_inf : F → Bool
  pub abs : F → F

-- `Result`, the decision's code.
pub data Verdict : Type 0 where
  accepted rejected_stale rejected_fencing rejected_lease rejected_limit : Verdict
  rejected_auth failed : Verdict

-- One constructor for each text that a decision carries; a `String` is the actuator's error.
pub data Detail : Type 0 where
  no_detail no_lease healthy : Detail
  expired_risk expired_risk_failed watchdog_risk watchdog_risk_failed : Detail
  envelope_missing bad_auth_tag bad_payload bad_fields issue_skew missing_driver : Detail
  untrusted_key bad_signature expired_grant stale_grant changed_grant renewed_grant : Detail
  new_grant stale_revoke revoked revoked_failed unknown_action_detail : Detail
  bad_body bad_mac command_expired no_monotonic lease_mismatch bad_fencing : Detail
  session_switch stale_sequence no_motion not_finite out_of_limits applied_motion : Detail
  actuator_refused no_reason risk_done risk_failed unsupported_mode : Detail
  bad_envelope : EnvelopeError → Detail

pub record Decision (F : Type 0) : Type 0 where
  pub result : Verdict
  pub detail : Detail
  pub minimal_risk : Bool
  pub risk_reason : String
  pub applied_speed : F
  pub applied_monotonic_ns : ℤ

pub record Limits (F : Type 0) : Type 0 where
  pub max_speed : F
  pub max_acceleration : F
  pub max_curvature : F
  pub max_yaw_rate : F

-- `Actuator` and `Now` are arguments of the operations.
pub record Config (F : Type 0) : Type 0 where
  pub vehicle_id : String
  pub gateway_id : String
  pub authority_keys : List (String × Bytes)
  pub command_mac_key : Bytes
  pub require_mac : Bool
  pub watchdog : ℤ
  pub max_clock_skew : ℤ
  pub limits : Limits F

pub record ActiveLease : Type 0 where
  pub lease_id : String
  pub fencing : ℤ
  pub valid_until : Time
  pub last_command : Time
  pub last_seq : ℤ
  pub session_id : String

pub record Arbiter (F : Type 0) : Type 0 where
  pub cfg : Config F
  pub last_fencing : ℤ
  pub lease : Option ActiveLease
  pub minimal_risk : String

-- What the actuator answers: the time of application, and an error.
pub record Reply : Type 0 where
  pub applied_ns : ℤ
  pub failed : Bool

-- The actuator during one call of the arbiter.
pub record Actuator (F : Type 0) : Type 0 where
  pub apply_motion : Motion F → Reply
  pub minimal_risk : String → Reply

-- A call that the arbiter made of its actuator.
pub data Effect (F : Type 0) : Type 0 where
  moved : Motion F → Effect F
  risked : String → Effect F

pub record Outcome (F : Type 0) : Type 0 where
  pub arbiter : Arbiter F
  pub decision : Decision F
  pub effects : List (Effect F)

pub data SetupError : Type 0 where
  missing_identity short_mac_key missing_limits missing_actuator : SetupError

-- a.lease, a.minimalRisk = nil, reason
abbrev pub drop_lease : {F : Type 0} → Arbiter F → String → Arbiter F
drop_lease a reason = record a { lease = none; minimal_risk = reason }

module _ {F : Type 0} (fl : Float F) where
  abbrev pub decide : Verdict → Detail → Decision F
  decide r d = record {
    result = r;
    detail = d;
    minimal_risk = false;
    risk_reason = "";
    applied_speed = fl.zero;
    applied_monotonic_ns = pos 0;
  }

  abbrev pub decide_risk : Verdict → Detail → String → ℤ → Decision F
  decide_risk r d reason applied = record (decide r d) {
    minimal_risk = true;
    risk_reason = reason;
    applied_monotonic_ns = applied;
  }

  -- A decision that neither changes the arbiter nor calls the actuator.
  abbrev pub refuse : Arbiter F → Decision F → Outcome F
  refuse a d = record { arbiter = a; decision = d; effects = [] }

  with_defaults : Config F → Config F
  with_defaults cfg = record cfg {
    watchdog = if leb_ℤ cfg.watchdog (pos 0) then pos 500000000 else cfg.watchdog;
    max_clock_skew =
        if leb_ℤ cfg.max_clock_skew (pos 0) then pos 2000000000 else cfg.max_clock_skew;
  }

  -- `x <= 0` is false of a NaN.
  limits_missing : Limits F → Bool
  limits_missing l =
      fl.le l.max_speed fl.zero
      || fl.le l.max_acceleration fl.zero
      || fl.le l.max_curvature fl.zero
      || fl.le l.max_yaw_rate fl.zero

  unfoldable pub new_arbiter : Config F → Bool → Result SetupError (Arbiter F)
  unfolding with_defaults limits_missing
  new_arbiter cfg has_actuator = do
    refuse_if (is_empty cfg.vehicle_id || is_empty cfg.gateway_id || length cfg.authority_keys == 0)
        missing_identity
    refuse_if (cfg.require_mac && ltb (length cfg.command_mac_key) 32) short_mac_key
    refuse_if (limits_missing cfg.limits) missing_limits
    refuse_if (not has_actuator) missing_actuator
    ok (record { cfg = with_defaults cfg; last_fencing = pos 0; lease = none; minimal_risk = "" })

  unfoldable pub check_limits : Limits F → Motion F → Result Detail (Unit {0})
  check_limits l m = do
    refuse_if
        (any (λ v. fl.is_nan v || fl.is_inf v)
          (m.target_speed ∷ m.target_acceleration ∷ m.target_curvature ∷ m.target_yaw_rate ∷ []))
        not_finite
    refuse_if
        (fl.lt m.target_speed fl.zero
          || fl.lt l.max_speed m.target_speed
          || fl.lt l.max_acceleration (fl.abs m.target_acceleration)
          || fl.lt l.max_curvature (fl.abs m.target_curvature)
          || fl.lt l.max_yaw_rate (fl.abs m.target_yaw_rate))
        out_of_limits
    ok tt
