-- ===== src/Arbiter/Steps.antt =====
-- The ways in which a call of the arbiter ends, as one rule over its four kinds.
use manage_robot.Common.{◌≡◌, refl, Option, none, some, String, ℤ, Result, ok, err}
use manage_robot.Wire.Envelope.{Envelope, LeaseGrant, ControlCommand}
use manage_robot.Wire.Codec.{Codec}
use manage_robot.Arbiter.State.{Float, Detail, Decision, Arbiter, Actuator, Outcome, refuse}
use manage_robot.Arbiter.Lease.{admit_lease, apply_lease, handle_proto_lease}
use manage_robot.Arbiter.Command.{admit_command, apply_command, handle_proto_command}
use manage_robot.Arbiter.Watchdog.{tick}
use manage_robot.Arbiter.Run.{Clocks, Event, lease_arrives, command_arrives, ticks, step}

module _ {F : Type 0} (fl : Float F) (c : Codec F) (number : ℤ → String) where
  module _ {ℓ} (P : Event F → Outcome F → Type ℓ) (a : Arbiter F)
      (refused : (e : Event F) (d : Decision F) → P e (refuse fl a d))
      (leasing : (act : Actuator F) (env : Option Envelope) (t : Clocks) (g : LeaseGrant)
        → admit_lease c a.cfg env t.now t.clock ≡ ok g
        → P (lease_arrives env act t) (apply_lease fl a act g t.later))
      (commanding : (act : Actuator F) (env : Envelope) (t : Clocks) (cmd : ControlCommand F)
        → admit_command c a.cfg env t.now t.clock ≡ ok cmd
        → P (command_arrives (some env) act t) (apply_command fl number a act env cmd t.later))
      (ticking : (act : Actuator F) (t : Clocks) → P (ticks act t) (tick fl a act t.later)) where
    lease_cases :
        (act : Actuator F) (env : Option Envelope) (t : Clocks) (r : Result Detail LeaseGrant)
        → admit_lease c a.cfg env t.now t.clock ≡ r
        → P (lease_arrives env act t) (handle_proto_lease fl c a act env t.now t.clock t.later)
    unfolding handle_proto_lease
    lease_cases act env t (ok g) e = rw (e, handle_proto_lease) (leasing act env t g e)
    lease_cases act env t (err d) e = rw (e, handle_proto_lease) (refused _ _)

    command_cases :
        (act : Actuator F) (env : Envelope) (t : Clocks) (r : Result Detail (ControlCommand F))
        → admit_command c a.cfg env t.now t.clock ≡ r
        → P
            (command_arrives (some env) act t)
            (handle_proto_command fl c number a act (some env) t.now t.clock t.later)
    unfolding handle_proto_command
    command_cases act env t (ok cmd) e = rw (e, handle_proto_command) (commanding act env t cmd e)
    command_cases act env t (err d) e = rw (e, handle_proto_command) (refused _ _)

    -- A call is refused at the door, or handles a grant or a command that was admitted, or ticks.
    pub event_cases : (e : Event F) → P e (step fl c number a e)
    unfolding step handle_proto_command
    event_cases (lease_arrives env act t) = lease_cases act env t _ refl
    event_cases (command_arrives none act t) = refused _ _
    event_cases (command_arrives (some env) act t) = command_cases act env t _ refl
    event_cases (ticks act t) = ticking act t

  -- The same, where what is to be shown depends on the outcome only.
  pub step_cases {ℓ} :
      (P : Outcome F → Type ℓ) (a : Arbiter F)
      → ((d : Decision F) → P (refuse fl a d))
      → ((act : Actuator F) (env : Option Envelope) (t : Clocks) (g : LeaseGrant)
          → admit_lease c a.cfg env t.now t.clock ≡ ok g
          → P (apply_lease fl a act g t.later))
      → ((act : Actuator F) (env : Envelope) (t : Clocks) (cmd : ControlCommand F)
          → admit_command c a.cfg env t.now t.clock ≡ ok cmd
          → P (apply_command fl number a act env cmd t.later))
      → ((act : Actuator F) (t : Clocks) → P (tick fl a act t.later))
      → (e : Event F) → P (step fl c number a e)
  step_cases P a refused leasing commanding ticking =
      event_cases (λ e. P) a (λ e. refused) leasing commanding ticking
