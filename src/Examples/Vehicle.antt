-- ===== src/Examples/Vehicle.antt =====
-- The safety arbiter's theorems at a drive of vehicle v1.
use manage_robot.Common.{
  is_some, ℕ, ◌≡◌, refl, true, false, none, some, List, [], ◌∷◌, pos, ◌≤ℤ◌, ◌+ℤ◌, ◌-ℤ◌, ok, arith,
  to_int64,
}
use manage_robot.Wire.GoTime.{unix_ns, time_sub, saturate, before, time_add, neg, wrap64, after}
use manage_robot.Wire.Envelope.{Envelope, Motion, ControlCommand}
use manage_robot.Wire.Auth.{
  validate_envelope, wrong_identity, no_freshness, outside_window, verify_envelope_auth,
  verify_control_command_mac, control_command_mac_input, bytes_eq,
}
use manage_robot.Arbiter.State.{Actuator, Arbiter, ActiveLease, Limits, check_limits}
use manage_robot.Arbiter.Lease.{
  handle_proto_lease, admit_lease, validate_proto_lease, apply_lease, find_key,
}
use manage_robot.Arbiter.Command.{
  handle_proto_command, admit_command, validate_proto_command, proto_command_fresh, apply_command,
}
use manage_robot.Arbiter.Watchdog.{tick, tick_survivor}
use manage_robot.Arbiter.Run.{Clocks, Event, lease_arrives, command_arrives, ticks, step, run}
use manage_robot.Arbiter.Replay.{Increasing, motion_stamps, motion_stamps-Increasing}
use manage_robot.Arbiter.Admission.{Entitled, step-Entitled, first_motion}
use manage_robot.Arbiter.Latch.{ever_moves, run_latched, step_stops, has_risk}
use manage_robot.Arbiter.Odd.{
  InDomain, Calibrated, check_limits-InDomain, proto_command_fresh-age, check_limits-nan_speed,
}
use manage_robot.Examples.World.{
  floats, codec, config, start, actuator, at, envelope, number, F, ieee, drive,
}

abbrev lease_event : Event F
lease_event = lease_arrives (some (envelope "platform.v1.LeaseGrant" 5)) actuator (at 1000000000)

abbrev drive_event : ℕ → Event F
drive_event n =
    command_arrives (some (envelope "platform.v1.ControlCommand" n)) actuator (at 1000000001)

abbrev drives : List (Event F)
drives = lease_event ∷ drive_event 3 ∷ drive_event 3 ∷ drive_event 2 ∷ drive_event 4 ∷ []

-- A replayed command and one that comes late do not move the vehicle.
drives_twice : motion_stamps floats codec number start drives ≡ (pos 5, pos 3) ∷ (pos 5, pos 4) ∷ []
unfolding motion_stamps step handle_proto_lease handle_proto_command admit_lease admit_command
    validate_proto_lease validate_proto_command apply_lease apply_command proto_command_fresh
    validate_envelope wrong_identity no_freshness outside_window verify_envelope_auth
    verify_control_command_mac control_command_mac_input bytes_eq time_sub before time_add neg
    wrap64 to_int64 ◌+ℤ◌ ◌-ℤ◌ find_key check_limits
drives_twice = refl

motion_stamps-Increasing_example : Increasing (motion_stamps floats codec number start drives)
motion_stamps-Increasing_example = motion_stamps-Increasing floats codec number start drives

abbrev leased : Arbiter F
leased = (step floats codec number start lease_event).arbiter

abbrev straight : Motion F
straight = record {
  target_speed = some 1;
  target_acceleration = some 0;
  target_curvature = some 0;
  target_yaw_rate = some 0;
}

drive_moves : first_motion (step floats codec number leased (drive_event 3)).effects ≡ some straight
unfolding step handle_proto_lease handle_proto_command admit_lease admit_command
    validate_proto_lease validate_proto_command apply_lease apply_command proto_command_fresh
    validate_envelope wrong_identity no_freshness outside_window verify_envelope_auth
    verify_control_command_mac control_command_mac_input bytes_eq time_sub before time_add neg
    wrap64 to_int64 ◌+ℤ◌ ◌-ℤ◌ find_key check_limits
drive_moves = refl

step-Entitled_example :
    (env : Envelope) × (act : Actuator F) × (t : Clocks) × (cmd : ControlCommand F) × (drive_event 3
      ≡ command_arrives (some env) act t)
    × Entitled floats codec leased env cmd straight t
step-Entitled_example =
    step-Entitled floats codec number leased (drive_event 3) straight drive_moves

-- An arbiter whose lease of token 5 was revoked.
abbrev bare : Arbiter F
bare = record start { last_fencing = pos 5 }

bare-run : (run floats codec number bare drives).last_fencing ≡ pos 5
unfolding run step handle_proto_lease handle_proto_command admit_lease admit_command
    validate_proto_lease validate_proto_command apply_lease apply_command proto_command_fresh
    validate_envelope wrong_identity no_freshness outside_window verify_envelope_auth
    verify_control_command_mac control_command_mac_input bytes_eq time_sub before time_add neg
    wrap64 to_int64 ◌+ℤ◌ ◌-ℤ◌ find_key check_limits
bare-run = refl

run_latched_example :
    ((run floats codec number bare drives).lease ≡ none)
    × (ever_moves floats codec number bare drives ≡ false)
run_latched_example = run_latched floats codec number bare drives refl (rw bare-run (omega arith))

leased_lease : is_some leased.lease ≡ true
unfolding step handle_proto_lease handle_proto_command admit_lease admit_command
    validate_proto_lease validate_proto_command apply_lease apply_command proto_command_fresh
    validate_envelope wrong_identity no_freshness outside_window verify_envelope_auth
    verify_control_command_mac control_command_mac_input bytes_eq time_sub before time_add neg
    wrap64 to_int64 ◌+ℤ◌ ◌-ℤ◌ find_key check_limits
leased_lease = refl

abbrev late_tick : Event F
late_tick = ticks actuator (at 60000000000)

late_gone : (step floats codec number leased late_tick).arbiter.lease ≡ none
unfolding step tick handle_proto_lease handle_proto_command admit_lease admit_command
    validate_proto_lease validate_proto_command apply_lease apply_command proto_command_fresh
    validate_envelope wrong_identity no_freshness outside_window verify_envelope_auth
    verify_control_command_mac control_command_mac_input bytes_eq time_sub before time_add neg
    wrap64 to_int64 ◌+ℤ◌ ◌-ℤ◌ find_key check_limits
late_gone = refl

step_stops_example : has_risk (step floats codec number leased late_tick).effects ≡ true
step_stops_example = step_stops floats codec number leased late_tick leased_lease late_gone

straight_within : check_limits floats config.limits straight ≡ ok tt
unfolding check_limits
straight_within = refl

config-Calibrated : Calibrated floats config.limits
config-Calibrated = record {
  zero = refl;
  speed = refl;
  acceleration = refl;
  curvature = refl;
  yaw_rate = refl;
}

check_limits-InDomain_example : InDomain floats ieee.minus config.limits straight
check_limits-InDomain_example =
    check_limits-InDomain floats ieee config.limits straight straight_within config-Calibrated

abbrev drive_env : Envelope
drive_env = envelope "platform.v1.ControlCommand" 3

drive_fresh :
    proto_command_fresh drive_env (drive 3) (unix_ns (pos 1000000001)) (pos 2000000000) ≡ ok tt
unfolding proto_command_fresh time_sub before time_add neg wrap64 to_int64 ◌+ℤ◌ ◌-ℤ◌ saturate
drive_fresh = refl

proto_command_fresh-age_example :
    (pos 1000000001 ≤ℤ pos 1000000000 +ℤ pos 2200000000)
    × (pos 1000000000 ≤ℤ pos 1000000001 +ℤ pos 2000000000)
proto_command_fresh-age_example =
    proto_command_fresh-age drive_env (drive 3) (unix_ns (pos 1000000001)) 2000000000 drive_fresh
      (omega arith) (omega arith)

abbrev held : ActiveLease
held = record {
  lease_id = "lease-1";
  fencing = pos 5;
  valid_until = unix_ns (pos 50000000000);
  last_command = unix_ns (pos 1000000000);
  last_seq = pos 0;
  session_id = "";
}

abbrev holding : Arbiter F
holding = record start { last_fencing = pos 5; lease = some held }

tick_keeps : (tick floats holding actuator (unix_ns (pos 1100000000))).arbiter.lease ≡ some held
unfolding tick time_sub before saturate ◌-ℤ◌
tick_keeps = refl

tick_survivor_example :
    (holding.lease ≡ some held)
    × (after held.valid_until (unix_ns (pos 1100000000)) ≡ true)
    × (time_sub (unix_ns (pos 1100000000)) held.last_command ≤ℤ holding.cfg.watchdog)
tick_survivor_example =
    tick_survivor floats holding actuator (unix_ns (pos 1100000000)) held tick_keeps

abbrev loose : Limits F
loose = record config.limits { max_speed = none }

loose_within :
    check_limits floats (record loose { max_speed = straight.target_speed }) straight ≡ ok tt
unfolding check_limits
loose_within = refl

check_limits-nan_speed_example : check_limits floats loose straight ≡ ok tt
check_limits-nan_speed_example = check_limits-nan_speed floats ieee loose straight refl loose_within
