-- ===== src/Arbiter/Command.antt =====
-- vehicle/safety-arbiter/proto_kernel.go: HandleProtoCommand. The checks before the lock are
-- `admit_command`; what the lock guards is `apply_command`.
use manage_robot.Common.{
  Bool, true, false, not, ◌&&◌, ◌||◌, Option, none, some, is_some, [], ◌∷◌, String, str_eq, ltb,
  ◌==◌, if◌then◌else◌, length, ℤ, pos, ltb_ℤ, leb_ℤ, eqb_ℤ, to_int64, ◌+ℤ◌, Result, ok, err, ◌>>=◌,
  ◌>>◌, refuse_if, or_fail,
}
use manage_robot.Wire.GoTime.{Time, unix_ns, time_sub, after, neg, wrap64}
use manage_robot.Wire.Envelope.{
  Envelope, ControlMode, mode_unspecified, target_motion, minimal_risk, RiskReason,
  reason_unspecified, link_loss, lease_expired, driver_request, system_fault, unknown_reason,
  Motion, Body, ControlCommand, get_motion, get_reason, is_unspecified_reason,
}
use manage_robot.Wire.Codec.{Codec}
use manage_robot.Wire.Auth.{
  is_empty, ttl_ns, validate_envelope, verify_envelope_auth, verify_control_command_mac,
}
use manage_robot.Arbiter.State.{
  Float, Detail, accepted, rejected_stale, rejected_fencing, rejected_lease, rejected_limit,
  rejected_auth, failed, expired_risk, expired_risk_failed, bad_envelope, envelope_missing,
  bad_auth_tag, bad_payload, bad_fields, bad_body, bad_mac, command_expired, no_monotonic,
  lease_mismatch, bad_fencing, session_switch, stale_sequence, no_motion, applied_motion,
  actuator_refused, no_reason, risk_done, risk_failed, unsupported_mode, Config, ActiveLease,
  Arbiter, Actuator, moved, risked, Outcome, decide, decide_risk, refuse, check_limits, drop_lease,
}
use manage_robot.Arbiter.Lease.{wrap_error}

abbrev is_unspecified_mode : ControlMode → Bool
is_unspecified_mode mode_unspecified = true
is_unspecified_mode _ = false

-- RiskReason.String()
unfoldable pub reason_name : (ℤ → String) → RiskReason → String
reason_name number reason_unspecified = "MINIMAL_RISK_REASON_UNSPECIFIED"
reason_name number link_loss = "MINIMAL_RISK_REASON_LINK_LOSS"
reason_name number lease_expired = "MINIMAL_RISK_REASON_LEASE_EXPIRED"
reason_name number driver_request = "MINIMAL_RISK_REASON_DRIVER_REQUEST"
reason_name number system_fault = "MINIMAL_RISK_REASON_SYSTEM_FAULT"
reason_name number (unknown_reason n) = number n

module _ {F : Type 0} where
  command_fields_bad : Envelope → ControlCommand F → Bool
  command_fields_bad env cmd =
      is_empty cmd.control_session_id
      || not (str_eq cmd.control_session_id env.session_id)
      || is_empty cmd.lease_id
      || cmd.fencing_token == 0
      || cmd.command_sequence == 0
      || not (cmd.command_sequence == env.sequence)
      || cmd.issued_monotonic_ns == 0
      || cmd.ttl_ms == 0
      || not (cmd.ttl_ms == env.ttl_ms)
      || ltb 1000 cmd.ttl_ms
      || is_unspecified_mode cmd.mode
      || not (length cmd.end_to_end_mac == 32)

  body_missing : ControlMode → Body F → Bool
  body_missing target_motion b = not (is_some (get_motion b))
  body_missing minimal_risk b = is_unspecified_reason (get_reason b)
  body_missing _ b = false

  unfoldable pub validate_proto_command : Envelope → ControlCommand F → Result Detail (Unit {0})
  unfolding command_fields_bad body_missing
  validate_proto_command env cmd = do
    refuse_if (command_fields_bad env cmd) bad_fields
    refuse_if (body_missing cmd.mode cmd.body) bad_body
    ok tt

  unfoldable pub proto_command_fresh :
      Envelope → ControlCommand F → Time → ℤ → Result Detail (Unit {0})
  proto_command_fresh env cmd now skew = do
    let age = time_sub now (unix_ns env.utc_time_ns)
    refuse_if (ltb_ℤ age (neg skew) || ltb_ℤ (wrap64 (ttl_ns env.ttl_ms +ℤ skew)) age)
        command_expired
    refuse_if (cmd.issued_monotonic_ns == 0) no_monotonic
    ok tt

module _ {F : Type 0} (c : Codec F) where
  -- `now` is cfg.Now() and `clock` what time.Now() returns, both before the lock is taken.
  unfoldable pub admit_command :
      Config F → Envelope → Time → Time → Result Detail (ControlCommand F)
  admit_command cfg env now clock = do
    wrap_error bad_envelope (
        validate_envelope (some env) "platform.v1.ControlCommand" cfg.vehicle_id cfg.gateway_id now
          clock)
    cmd ← or_fail (c.unmarshal_command env.payload) bad_payload
    validate_proto_command env cmd
    refuse_if (not (verify_envelope_auth c (some env) cfg.command_mac_key)) bad_auth_tag
    refuse_if
        (cfg.require_mac
          && not (verify_control_command_mac c (some env) (some cmd) cfg.command_mac_key))
        bad_mac
    ok cmd

module _ {F : Type 0} (fl : Float F) where
  unfoldable pub expire_lease_locked : Arbiter F → Actuator F → String → Outcome F
  expire_lease_locked a act reason =
      let reply = act.minimal_risk reason in
      record {
        arbiter = drop_lease a reason;
        decision =
            decide_risk fl rejected_lease
              (if reply.failed then expired_risk_failed else expired_risk) reason reply.applied_ns;
        effects = risked reason ∷ [];
      }

  unfoldable pub move :
      Arbiter F → ActiveLease → Actuator F → ControlCommand F → Motion F → Time → Outcome F
  move a l act cmd m now =
      let reply = act.apply_motion m in
      if reply.failed
      then record {
        arbiter = drop_lease a "actuator_failure";
        decision = decide_risk fl failed actuator_refused "actuator_failure" (pos 0);
        effects = moved m ∷ risked "actuator_failure" ∷ [];
      }
      else record {
        arbiter = record a {
          lease = some (record l {
            session_id = cmd.control_session_id;
            last_seq = to_int64 cmd.command_sequence;
            last_command = now;
          });
        };
        decision = record (decide fl accepted applied_motion) {
          applied_speed = m.target_speed;
          applied_monotonic_ns = reply.applied_ns;
        };
        effects = moved m ∷ [];
      }

  unfoldable pub checked_move :
      Result Detail (Unit {0})
      → Arbiter F
      → ActiveLease
      → Actuator F
      → ControlCommand F
      → Motion F
      → Time
      → Outcome F
  unfolding move
  checked_move (err d) a l act cmd m now = refuse fl a (decide fl rejected_limit d)
  checked_move (ok _) a l act cmd m now = move a l act cmd m now

  unfoldable pub motion_command :
      Option (Motion F) → Arbiter F → ActiveLease → Actuator F → ControlCommand F → Time → Outcome F
  unfolding checked_move
  motion_command none a l act cmd now = refuse fl a (decide fl rejected_limit no_motion)
  motion_command (some m) a l act cmd now =
      checked_move (check_limits fl a.cfg.limits m) a l act cmd m now

  unfoldable pub risk_command : (ℤ → String) → Arbiter F → Actuator F → RiskReason → Outcome F
  risk_command number a act reason =
      if is_unspecified_reason reason
      then refuse fl a (decide fl rejected_limit no_reason)
      else (let name = reason_name number reason in
          let reply = act.minimal_risk name in
          record {
            arbiter = drop_lease a name;
            decision =
                if reply.failed
                then decide_risk fl failed risk_failed name (pos 0)
                else decide_risk fl accepted risk_done name reply.applied_ns;
            effects = risked name ∷ [];
          })

  unfoldable pub mode_command :
      (ℤ → String)
      → ControlMode
      → Arbiter F
      → ActiveLease
      → Actuator F
      → ControlCommand F
      → Time
      → Outcome F
  unfolding motion_command risk_command
  mode_command number target_motion a l act cmd now =
      motion_command (get_motion cmd.body) a l act cmd now
  mode_command number minimal_risk a l act cmd now = risk_command number a act (get_reason cmd.body)
  mode_command number _ a l act cmd now = refuse fl a (decide fl rejected_limit unsupported_mode)

  -- The checks of a command against the lease in force.
  unfoldable pub leased_command :
      (ℤ → String) → Arbiter F → ActiveLease → Actuator F → ControlCommand F → Time → Outcome F
  unfolding mode_command expire_lease_locked
  leased_command number a l act cmd now =
      let fencing = to_int64 cmd.fencing_token in
      if not (str_eq cmd.lease_id l.lease_id)
      then refuse fl a (decide fl rejected_lease lease_mismatch)
      else if not (eqb_ℤ fencing l.fencing) || not (eqb_ℤ fencing a.last_fencing)
      then refuse fl a (decide fl rejected_fencing bad_fencing)
      else if not (after l.valid_until now)
      then expire_lease_locked a act "lease_expired"
      else if not (is_empty l.session_id) && not (str_eq l.session_id cmd.control_session_id)
      then refuse fl a (decide fl rejected_auth session_switch)
      else if leb_ℤ (to_int64 cmd.command_sequence) l.last_seq
      then refuse fl a (decide fl rejected_stale stale_sequence)
      else mode_command number cmd.mode a l act cmd now

  unfoldable pub lookup_lease :
      (ℤ → String)
      → Arbiter F
      → Option ActiveLease
      → Actuator F
      → ControlCommand F
      → Time
      → Outcome F
  unfolding leased_command
  lookup_lease number a none act cmd now = refuse fl a (decide fl rejected_lease lease_mismatch)
  lookup_lease number a (some l) act cmd now = leased_command number a l act cmd now

  -- What the arbiter does under its lock. `number` prints an enum's number.
  unfoldable pub apply_command :
      (ℤ → String) → Arbiter F → Actuator F → Envelope → ControlCommand F → Time → Outcome F
  unfolding lookup_lease
  apply_command number a act env cmd now =
      elim (proto_command_fresh env cmd now a.cfg.max_clock_skew) [
        | err d ↦ refuse fl a (decide fl rejected_stale d)
        | ok _ ↦ lookup_lease number a a.lease act cmd now
      ]

module _ {F : Type 0} (fl : Float F) (c : Codec F) (number : ℤ → String) where
  -- `now` and `clock` are read before the lock is taken, `later` after.
  unfoldable pub handle_proto_command :
      Arbiter F → Actuator F → Option Envelope → Time → Time → Time → Outcome F
  handle_proto_command a act none now clock later =
      refuse fl a (decide fl rejected_auth envelope_missing)
  handle_proto_command a act (some env) now clock later =
      elim (admit_command c a.cfg env now clock) [
        | err d ↦ refuse fl a (decide fl rejected_auth d)
        | ok cmd ↦ apply_command fl number a act env cmd later
      ]
