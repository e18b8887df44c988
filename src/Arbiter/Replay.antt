-- ===== src/Arbiter/Replay.antt =====
-- No command of the vehicle's past moves it again, whatever the network delivers and in what order.
use manage_robot.Common.{
  ◌≡◌, refl, ◌⊎◌, Bool, true, false, Option, none, some, List, [], ◌∷◌, String, All, ℤ, ◌≤ℤ◌, ◌<ℤ◌,
  to_int64, if◌then◌else◌, Result, ok, err, arith,
}
use manage_robot.Wire.GoTime.{Time}
use manage_robot.Wire.Envelope.{Envelope, LeaseGrant, ControlCommand}
use manage_robot.Wire.Codec.{Codec}
use manage_robot.Arbiter.State.{
  Float, Arbiter, ActiveLease, Actuator, Config, Effect, moved, risked,
}
use manage_robot.Arbiter.Lease.{apply_lease, handle_proto_lease, admit_lease}
use manage_robot.Arbiter.Command.{
  move, expire_lease_locked, risk_command, apply_command, handle_proto_command, admit_command,
}
use manage_robot.Arbiter.Cases.{apply_command_cases}
use manage_robot.Arbiter.Watchdog.{tick}
use manage_robot.Arbiter.Run.{Event, Clocks, lease_arrives, command_arrives, ticks, step}

abbrev pub has_motion : {F : Type 0} → List (Effect F) → Bool
has_motion [] = false
has_motion (moved m ∷ es) = true
has_motion (risked r ∷ es) = has_motion es

-- The fencing token and the sequence number of a command.
abbrev pub Stamp : Type 0
Stamp = ℤ × ℤ

abbrev pub Precedes : Stamp → Stamp → Type 0
Precedes p q = (p.0 <ℤ q.0) ⊎ (p.0 ≤ℤ q.0) × (p.1 <ℤ q.1)

-- Each stamp precedes all that follow it.
abbrev pub Increasing : List Stamp → Type 0
Increasing [] = Unit
Increasing (p ∷ ps) = All (Precedes p) ps × Increasing ps

abbrev cons? : Option Stamp → List Stamp → List Stamp
cons? none ps = ps
cons? (some p) ps = p ∷ ps

abbrev Spent : ℤ → Option ActiveLease → Type 0
Spent s none = Unit
Spent s (some l) = s ≤ℤ l.last_seq

-- The stamp is one that the arbiter will not take any more.
abbrev Past : {F : Type 0} → Stamp → Arbiter F → Type 0
Past p a = (p.0 <ℤ a.last_fencing) ⊎ (p.0 ≤ℤ a.last_fencing) × Spent p.1 a.lease

abbrev Unspent : ℤ → Option ActiveLease → Type 0
Unspent s none = ⊥
Unspent s (some l) = l.last_seq <ℤ s

-- The stamp is one that the arbiter may take.
abbrev Fresh : {F : Type 0} → Stamp → Arbiter F → Type 0
Fresh p a = (a.last_fencing ≤ℤ p.0) × Unspent p.1 a.lease

abbrev pub stamp_of : {F : Type 0} → ControlCommand F → Stamp
stamp_of cmd = (to_int64 cmd.fencing_token, to_int64 cmd.command_sequence)

module _ {F : Type 0} (fl : Float F) where
  apply_lease-Past :
      (p : Stamp) (a : Arbiter F) (act : Actuator F) (g : LeaseGrant) (now : Time)
      → Past p a
      → Past p (apply_lease fl a act g now).arbiter
  unfolding apply_lease
  apply_lease-Past p a act g now h = ground arith

  pub apply_lease-still :
      (a : Arbiter F) (act : Actuator F) (g : LeaseGrant) (now : Time)
      → has_motion (apply_lease fl a act g now).effects ≡ false
  unfolding apply_lease
  apply_lease-still a act g now = ground arith

  tick-Past :
      (p : Stamp) (a : Arbiter F) (act : Actuator F) (now : Time)
      → Past p a
      → Past p (tick fl a act now).arbiter
  unfolding tick
  tick-Past p a act now h = ground arith

  pub tick-still :
      (a : Arbiter F) (act : Actuator F) (now : Time)
      → has_motion (tick fl a act now).effects ≡ false
  unfolding tick
  tick-still a act now = ground arith

  module _ (number : ℤ → String) where
    apply_command-Past :
        (p : Stamp) (a : Arbiter F) (act : Actuator F) (env : Envelope) (cmd : ControlCommand F)
        (now : Time)
        → Past p a
        → Past p (apply_command fl number a act env cmd now).arbiter
    unfolding move expire_lease_locked risk_command
    apply_command-Past p a act env cmd now h =
        apply_command_cases fl number (λ o. Past p o.arbiter) a act env cmd now (λ d. h)
          (λ l e. unfold expire_lease_locked in ground arith)
          (λ l m adm t e k. unfold move in ground arith)
          (λ l adm. unfold risk_command in ground arith)

    apply_command-Fresh :
        (a : Arbiter F) (act : Actuator F) (env : Envelope) (cmd : ControlCommand F) (now : Time)
        → has_motion (apply_command fl number a act env cmd now).effects ≡ true
        → Fresh (stamp_of cmd) a
          × Past (stamp_of cmd) (apply_command fl number a act env cmd now).arbiter
    unfolding move expire_lease_locked risk_command
    apply_command-Fresh a act env cmd now =
        apply_command_cases fl number
          (λ o.
            has_motion o.effects ≡ true → Fresh (stamp_of cmd) a × Past (stamp_of cmd) o.arbiter)
          a act env cmd now (λ d h. cc) (λ l e. unfold expire_lease_locked in λ h. cc)
          (λ l m adm t e k. unfold move in λ h. ground arith)
          (λ l adm. unfold risk_command in λ h. ground arith)

module _ {F : Type 0} (c : Codec F) where
  admit_command-payload :
      (cfg : Config F) (env : Envelope) (now clock : Time) (cmd : ControlCommand F)
      → admit_command c cfg env now clock ≡ ok cmd
      → c.unmarshal_command env.payload ≡ some cmd
  unfolding admit_command
  admit_command-payload cfg env now clock cmd h = ground arith

  abbrev stamp_of? : Option (ControlCommand F) → Option Stamp
  stamp_of? none = none
  stamp_of? (some cmd) = some (stamp_of cmd)

  -- The stamp of the command that an event delivers.
  abbrev sent : Event F → Option Stamp
  sent (command_arrives (some env) act t) = stamp_of? (c.unmarshal_command env.payload)
  sent _ = none

module _ {F : Type 0} (fl : Float F) (c : Codec F) (number : ℤ → String) where
  -- The stamp of the command by which a call moves the vehicle, if it does.
  abbrev pub motion_stamp : Arbiter F → Event F → Option Stamp
  motion_stamp a e = if has_motion (step fl c number a e).effects then sent c e else none

  unfoldable pub motion_stamps : Arbiter F → List (Event F) → List Stamp
  motion_stamps a [] = []
  motion_stamps a (e ∷ es) =
      cons? (motion_stamp a e) (motion_stamps (step fl c number a e).arbiter es)

  lease-Past :
      (p : Stamp) (a : Arbiter F) (act : Actuator F) (r : Result _ LeaseGrant)
      (env : Option Envelope) (t : Clocks)
      → admit_lease c a.cfg env t.now t.clock ≡ r
      → Past p a
      → Past p (step fl c number a (lease_arrives env act t)).arbiter
  unfolding step handle_proto_lease
  lease-Past p a act (ok g) env t e h =
      rw (e, step, handle_proto_lease) (apply_lease-Past fl p a act g t.later h)
  lease-Past p a act (err d) env t e h = rw (e, step, handle_proto_lease) h

  lease_still :
      (a : Arbiter F) (act : Actuator F) (r : Result _ LeaseGrant) (env : Option Envelope)
      (t : Clocks)
      → admit_lease c a.cfg env t.now t.clock ≡ r
      → has_motion (step fl c number a (lease_arrives env act t)).effects ≡ false
  unfolding step handle_proto_lease
  lease_still a act (ok g) env t e =
      rw (e, step, handle_proto_lease) (apply_lease-still fl a act g t.later)
  lease_still a act (err d) env t e = rw (e, step, handle_proto_lease)

  command-Past :
      (p : Stamp) (a : Arbiter F) (act : Actuator F) (r : Result _ (ControlCommand F))
      (env : Envelope) (t : Clocks)
      → admit_command c a.cfg env t.now t.clock ≡ r
      → Past p a
      → Past p (step fl c number a (command_arrives (some env) act t)).arbiter
  unfolding step handle_proto_command
  command-Past p a act (ok cmd) env t e h =
      rw (e, step, handle_proto_command) (apply_command-Past fl number p a act env cmd t.later h)
  command-Past p a act (err d) env t e h = rw (e, step, handle_proto_command) h

  pub step-Past :
      (p : Stamp) (a : Arbiter F) (e : Event F) → Past p a → Past p (step fl c number a e).arbiter
  unfolding step handle_proto_command
  step-Past p a (lease_arrives env act t) h = lease-Past p a act _ env t refl h
  step-Past p a (command_arrives none act t) h = h
  step-Past p a (command_arrives (some env) act t) h = command-Past p a act _ env t refl h
  step-Past p a (ticks act t) h = tick-Past fl p a act t.later h

  abbrev Taken : Arbiter F → Arbiter F → Option Stamp → Type 0
  Taken a b none = Unit
  Taken a b (some p) = Fresh p a × Past p b

  command-Taken :
      (a : Arbiter F) (act : Actuator F) (r : Result _ (ControlCommand F)) (env : Envelope)
      (t : Clocks)
      → admit_command c a.cfg env t.now t.clock ≡ r
      → Taken a
          (step fl c number a (command_arrives (some env) act t)).arbiter
          (motion_stamp a (command_arrives (some env) act t))
  unfolding step handle_proto_command
  command-Taken a act (ok cmd) env t e = ground (
    arith,
    admit_command-payload c a.cfg env t.now t.clock cmd e,
    apply_command-Fresh fl number a act env cmd t.later,
  )
  command-Taken a act (err d) env t e = ground arith

  step-Taken :
      (a : Arbiter F) (e : Event F) → Taken a (step fl c number a e).arbiter (motion_stamp a e)
  unfolding step handle_proto_command
  step-Taken a (lease_arrives env act t) = ground (arith, lease_still a act _ env t refl)
  step-Taken a (command_arrives none act t) = tt
  step-Taken a (command_arrives (some env) act t) = command-Taken a act _ env t refl
  step-Taken a (ticks act t) = ground (arith, tick-still fl a act t.later)

  Past-Precedes :
      (p : Stamp) (a b : Arbiter F) (o : Option Stamp) (ps : List Stamp)
      → Past p a
      → Taken a b o
      → All (Precedes p) ps
      → All (Precedes p) (cons? o ps)
  Past-Precedes p a b none ps h t k = k
  Past-Precedes p a b (some q) ps h t k = (ground arith, k)

  Past-motion_stamps :
      (p : Stamp) (a : Arbiter F) (es : List (Event F))
      → Past p a
      → All (Precedes p) (motion_stamps a es)
  unfolding motion_stamps
  Past-motion_stamps p a [] h = tt
  Past-motion_stamps p a (e ∷ es) h =
      let b = (step fl c number a e).arbiter in
      Past-Precedes p a b (motion_stamp a e) _ h (step-Taken a e)
        (Past-motion_stamps p b es (step-Past p a e h))

  Increasing-cons? :
      (a b : Arbiter F) (o : Option Stamp) (ps : List Stamp)
      → Taken a b o
      → ((p : Stamp) → Past p b → All (Precedes p) ps)
      → Increasing ps
      → Increasing (cons? o ps)
  Increasing-cons? a b none ps t h k = k
  Increasing-cons? a b (some p) ps t h k = (h p t.1, k)

  -- Over any sequence of deliveries and ticks, the commands that move the vehicle carry strictly
  -- increasing pairs of fencing token and sequence number, so no command moves it twice.
  pub motion_stamps-Increasing :
      (a : Arbiter F) (es : List (Event F)) → Increasing (motion_stamps a es)
  unfolding motion_stamps
  motion_stamps-Increasing a [] = tt
  motion_stamps-Increasing a (e ∷ es) =
      let b = (step fl c number a e).arbiter in
      Increasing-cons? a b (motion_stamp a e) _ (step-Taken a e)
        (λ p h. Past-motion_stamps p b es h) (motion_stamps-Increasing b es)
