-- ===== src/Arbiter/Run.antt =====
-- The arbiter's life: the calls that main.go's loop and its watchdog make, in any interleaving. A
-- call holds the lock from its first look at the state, so calls follow one another.
use manage_robot.Common.{Option, List, [], ◌∷◌, String, ℤ}
use manage_robot.Wire.GoTime.{Time}
use manage_robot.Wire.Envelope.{Envelope}
use manage_robot.Wire.Codec.{Codec}
use manage_robot.Arbiter.State.{Float, Arbiter, Actuator, Outcome}
use manage_robot.Arbiter.Lease.{handle_proto_lease}
use manage_robot.Arbiter.Command.{handle_proto_command}
use manage_robot.Arbiter.Watchdog.{tick}

-- The readings of the clocks during a call: before the lock, time.Now, and under the lock.
pub record Clocks : Type 0 where
  pub now : Time
  pub clock : Time
  pub later : Time

-- `main.go` dispatches an envelope on its message type.
pub data Event (F : Type 0) : Type 0 where
  lease_arrives command_arrives : Option Envelope → Actuator F → Clocks → Event F
  ticks : Actuator F → Clocks → Event F

module _ {F : Type 0} (fl : Float F) (c : Codec F) (number : ℤ → String) where
  unfoldable pub step : Arbiter F → Event F → Outcome F
  step a (lease_arrives env act t) = handle_proto_lease fl c a act env t.now t.clock t.later
  step a (command_arrives env act t) =
      handle_proto_command fl c number a act env t.now t.clock t.later
  step a (ticks act t) = tick fl a act t.later

  unfoldable pub run : Arbiter F → List (Event F) → Arbiter F
  run a [] = a
  run a (e ∷ es) = run (step a e).arbiter es
