-- ===== src/Arbiter/Admission.antt =====
-- What a command has passed before the arbiter lets it move the vehicle.
use manage_robot.Common.{
  ◌≤◌, ◌≡◌, refl, ◌⊎◌, true, false, Option, none, some, List, [], ◌∷◌, String, eq_iff, ℤ, ok, arith,
}
use manage_robot.Wire.GoTime.{Time}
use manage_robot.Wire.Envelope.{Envelope, LeaseGrant, Motion, ControlCommand, get_motion}
use manage_robot.Wire.Codec.{Codec}
use manage_robot.Wire.Auth.{
  verify_envelope_auth, verify_control_command_mac, validate_envelope, wrong_identity,
}
use manage_robot.Arbiter.State.{
  Float, Config, Arbiter, ActiveLease, Actuator, Effect, moved, risked, check_limits,
}
use manage_robot.Arbiter.Command.{
  expire_lease_locked, move, risk_command, validate_proto_command, admit_command,
}
use manage_robot.Arbiter.Watchdog.{tick}
use manage_robot.Arbiter.Lease.{apply_lease}
use manage_robot.Arbiter.Run.{Clocks, Event, command_arrives, step}
use manage_robot.Arbiter.Cases.{Admissible, apply_command_cases}
use manage_robot.Arbiter.Steps.{event_cases}

-- The command's fields agree with its envelope's, and its envelope is addressed to this vehicle.
pub record Bound {F : Type 0} (cfg : Config F) (env : Envelope) (cmd : ControlCommand F)
    : Type 0 where
  pub vehicle : env.vehicle_id ≡ cfg.vehicle_id
  pub gateway : env.gateway_id ≡ cfg.gateway_id
  pub session : cmd.control_session_id ≡ env.session_id
  pub sequence : cmd.command_sequence ≡ env.sequence
  pub ttl : cmd.ttl_ms ≡ env.ttl_ms
  pub ttl_capped : cmd.ttl_ms ≤ 1000

-- Why the command `cmd`, which moved the vehicle by `m`, was entitled to, at the readings `t` of the
-- arbiter's clocks.
pub record Entitled {F : Type 0} (fl : Float F) (c : Codec F) (a : Arbiter F) (env : Envelope)
    (cmd : ControlCommand F) (m : Motion F) (t : Clocks) : Type 0 where
  pub enveloped :
      validate_envelope
        (some env)
        "platform.v1.ControlCommand"
        a.cfg.vehicle_id
        a.cfg.gateway_id
        t.now
        t.clock
      ≡ ok tt
  pub decoded : c.unmarshal_command env.payload ≡ some cmd
  pub tagged : verify_envelope_auth c (some env) a.cfg.command_mac_key ≡ true
  pub maced :
      (a.cfg.require_mac ≡ false)
      ⊎ (verify_control_command_mac c (some env) (some cmd) a.cfg.command_mac_key ≡ true)
  pub bound : Bound a.cfg env cmd
  pub lease : ActiveLease
  pub admissible : Admissible a lease env cmd t.later
  pub carries : get_motion cmd.body ≡ some m
  pub bounded : check_limits fl a.cfg.limits m ≡ ok tt

-- The first motion that the effects hold.
abbrev pub first_motion : {F : Type 0} → List (Effect F) → Option (Motion F)
first_motion [] = none
first_motion (moved m ∷ es) = some m
first_motion (risked r ∷ es) = first_motion es

module _ {F : Type 0} (fl : Float F) (c : Codec F) where
  module _ (cfg : Config F) (env : Envelope) (now clock : Time) (cmd : ControlCommand F)
      (admitted : admit_command c cfg env now clock ≡ ok cmd) where
    admit_command-decoded : c.unmarshal_command env.payload ≡ some cmd
    unfolding admit_command
    admit_command-decoded = ground arith

    admit_command-tagged : verify_envelope_auth c (some env) cfg.command_mac_key ≡ true
    unfolding admit_command
    admit_command-tagged = ground arith

    admit_command-maced :
        (cfg.require_mac ≡ false)
        ⊎ (verify_control_command_mac c (some env) (some cmd) cfg.command_mac_key ≡ true)
    unfolding admit_command
    admit_command-maced = ground arith

    admit_command-valid : validate_proto_command env cmd ≡ ok tt
    unfolding admit_command
    admit_command-valid = ground arith

    validate_envelope-ids :
        validate_envelope
            (some env)
            "platform.v1.ControlCommand"
            cfg.vehicle_id
            cfg.gateway_id
            now
            clock
          ≡ ok tt
        → (env.vehicle_id ≡ cfg.vehicle_id) × (env.gateway_id ≡ cfg.gateway_id)
    unfolding validate_envelope wrong_identity
    validate_envelope-ids h =
        ground (arith, eq_iff env.vehicle_id cfg.vehicle_id, eq_iff env.gateway_id cfg.gateway_id)

    admit_command-enveloped :
        validate_envelope
          (some env)
          "platform.v1.ControlCommand"
          cfg.vehicle_id
          cfg.gateway_id
          now
          clock
        ≡ ok tt
    unfolding admit_command
    admit_command-enveloped = ground arith

    validate_proto_command-fields :
        validate_proto_command env cmd ≡ ok tt
        → (cmd.control_session_id ≡ env.session_id)
          × (cmd.command_sequence ≡ env.sequence)
          × (cmd.ttl_ms ≡ env.ttl_ms)
          × (cmd.ttl_ms ≤ 1000)
    unfolding validate_proto_command
    validate_proto_command-fields h = ground (arith, eq_iff cmd.control_session_id env.session_id)

    admit_command-Bound : Bound cfg env cmd
    admit_command-Bound =
        let ids = validate_envelope-ids admit_command-enveloped in
        let fields = validate_proto_command-fields admit_command-valid in
        record {
          vehicle = ids.0;
          gateway = ids.1;
          session = fields.0;
          sequence = fields.1;
          ttl = fields.2;
          ttl_capped = fields.3;
        }

  apply_lease_motionless :
      (a : Arbiter F) (act : Actuator F) (g : LeaseGrant) (now : Time) (m : Motion F)
      → first_motion (apply_lease fl a act g now).effects ≡ some m
      → ⊥
  unfolding apply_lease
  apply_lease_motionless a act g now m h = ground arith

  tick_motionless :
      (a : Arbiter F) (act : Actuator F) (now : Time) (m : Motion F)
      → first_motion (tick fl a act now).effects ≡ some m
      → ⊥
  unfolding tick
  tick_motionless a act now m h = ground arith

  -- The event is the arrival of a command that was entitled to move the vehicle by `m`.
  abbrev EntitledBy : Arbiter F → Motion F → Event F → Type 0
  EntitledBy a m e =
      (env : Envelope) × (act : Actuator F) × (t : Clocks) × (cmd : ControlCommand F) × (e
        ≡ command_arrives (some env) act t)
      × Entitled fl c a env cmd m t

  -- A call moves the vehicle only where it is the arrival of an envelope, and the envelope holds a
  -- command that was decoded from it, under a valid tag and bound to this vehicle; which is, at the
  -- arbiter's own clock under the lock of that call, in its time to live and under the lease in force
  -- and not run out, with a new sequence number and a motion within the limits.
  pub step-Entitled :
      (number : ℤ → String) (a : Arbiter F) (e : Event F) (m : Motion F)
      → first_motion (step fl c number a e).effects ≡ some m
      → (env : Envelope) × (act : Actuator F) × (t : Clocks) × (cmd : ControlCommand F) × (e
          ≡ command_arrives (some env) act t)
        × Entitled fl c a env cmd m t
  unfolding expire_lease_locked move risk_command
  step-Entitled number a e m =
      event_cases fl c number (λ e o. first_motion o.effects ≡ some m → EntitledBy a m e) a
        (λ e d h. cc) (λ act env t g q h. absurd (apply_lease_motionless a act g t.later m h))
        (λ act env t cmd q.
          apply_command_cases fl number
            (λ o.
              first_motion o.effects ≡ some m → EntitledBy a m (command_arrives (some env) act t))
            a act env cmd t.later (λ d h. cc) (λ l p h. cc)
            (λ l m' p mode body within h.
              let same : m' ≡ m = ground arith in
              (
                env,
                act,
                t,
                cmd,
                refl,
                record {
                  enveloped = admit_command-enveloped a.cfg env t.now t.clock cmd q;
                  decoded = admit_command-decoded a.cfg env t.now t.clock cmd q;
                  tagged = admit_command-tagged a.cfg env t.now t.clock cmd q;
                  maced = admit_command-maced a.cfg env t.now t.clock cmd q;
                  bound = admit_command-Bound a.cfg env t.now t.clock cmd q;
                  lease = l;
                  admissible = p;
                  carries = rw (← same) body;
                  bounded = rw (← same) within;
                },
              ))
            (λ l p h. ground arith))
        (λ act t h. absurd (tick_motionless a act t.later m h)) e
