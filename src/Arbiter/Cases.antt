-- ===== src/Arbiter/Cases.antt =====
-- vehicle/safety-arbiter/proto_kernel.go: the ways in which HandleProtoCommand ends under its lock.
use manage_robot.Common.{
  ◌≡◌, refl, Bool, true, false, not, ◌&&◌, ◌||◌, Bool-cases, inl, inr, Option, none, some, String,
  str_eq, ℤ, eqb_ℤ, leb_ℤ, to_int64, Result, ok, err, arith, ||_parts,
}
use manage_robot.Wire.GoTime.{Time, after}
use manage_robot.Wire.Envelope.{
  Envelope, ControlMode, target_motion, minimal_risk, Motion, ControlCommand, get_motion,
  get_reason,
}
use manage_robot.Wire.Auth.{is_empty}
use manage_robot.Arbiter.State.{
  Float, Detail, Decision, Arbiter, ActiveLease, Actuator, Outcome, check_limits, refuse,
}
use manage_robot.Arbiter.Command.{
  proto_command_fresh, expire_lease_locked, move, risk_command, checked_move, motion_command,
  mode_command, leased_command, lookup_lease, apply_command,
}

-- What a command meets before it is carried out under the lease `l`.
pub record Admissible {F : Type 0} (a : Arbiter F) (l : ActiveLease) (env : Envelope)
    (cmd : ControlCommand F) (now : Time) : Type 0 where
  pub fresh : proto_command_fresh env cmd now a.cfg.max_clock_skew ≡ ok tt
  pub held : a.lease ≡ some l
  pub same_lease : str_eq cmd.lease_id l.lease_id ≡ true
  pub lease_fencing : eqb_ℤ (to_int64 cmd.fencing_token) l.fencing ≡ true
  pub last_fencing : eqb_ℤ (to_int64 cmd.fencing_token) a.last_fencing ≡ true
  pub in_force : after l.valid_until now ≡ true
  pub same_session :
      (not (is_empty l.session_id) && not (str_eq l.session_id cmd.control_session_id)) ≡ false
  pub new_sequence : leb_ℤ (to_int64 cmd.command_sequence) l.last_seq ≡ false

not-false : (b : Bool) → not b ≡ false → b ≡ true
not-false b h = ground arith

module _ {F : Type 0} (fl : Float F) (number : ℤ → String) where
  module _ {ℓ} (P : Outcome F → Type ℓ) (a : Arbiter F) (act : Actuator F) (env : Envelope)
      (cmd : ControlCommand F) (now : Time) (refused : (d : Decision F) → P (refuse fl a d))
      (expired : (l : ActiveLease)
        → a.lease ≡ some l
        → P (expire_lease_locked fl a act "lease_expired"))
      (moving : (l : ActiveLease) (m : Motion F)
        → Admissible a l env cmd now
        → cmd.mode ≡ target_motion
        → get_motion cmd.body ≡ some m
        → check_limits fl a.cfg.limits m ≡ ok tt
        → P (move fl a l act cmd m now))
      (risking : (l : ActiveLease)
        → Admissible a l env cmd now
        → P (risk_command fl number a act (get_reason cmd.body))) where
    checked_cases :
        (l : ActiveLease) (m : Motion F) (r : Result Detail (Unit {0}))
        → check_limits fl a.cfg.limits m ≡ r
        → (check_limits fl a.cfg.limits m ≡ ok tt → P (move fl a l act cmd m now))
        → P (checked_move fl r a l act cmd m now)
    unfolding checked_move
    checked_cases l m (ok u) e k = k e
    checked_cases l m (err d) e k = refused _

    motion_cases :
        (l : ActiveLease) (o : Option (Motion F))
        → get_motion cmd.body ≡ o
        → cmd.mode ≡ target_motion
        → Admissible a l env cmd now
        → P (motion_command fl o a l act cmd now)
    unfolding motion_command
    motion_cases l none e t h = refused _
    motion_cases l (some m) e t h = checked_cases l m _ refl (moving l m h t e)

    mode_cases :
        (l : ActiveLease) (mode : ControlMode)
        → cmd.mode ≡ mode
        → Admissible a l env cmd now
        → P (mode_command fl number mode a l act cmd now)
    unfolding mode_command
    mode_cases l target_motion t h = motion_cases l _ refl t h
    mode_cases l minimal_risk t h = risking l h
    mode_cases l _ t h = refused _

    abbrev wrong_fencing : ActiveLease → Bool
    wrong_fencing l =
        not (eqb_ℤ (to_int64 cmd.fencing_token) l.fencing)
        || not (eqb_ℤ (to_int64 cmd.fencing_token) a.last_fencing)

    abbrev other_session : ActiveLease → Bool
    other_session l =
        not (is_empty l.session_id) && not (str_eq l.session_id cmd.control_session_id)

    abbrev old_sequence : ActiveLease → Bool
    old_sequence l = leb_ℤ (to_int64 cmd.command_sequence) l.last_seq

    leased_cases :
        (l : ActiveLease)
        → a.lease ≡ some l
        → proto_command_fresh env cmd now a.cfg.max_clock_skew ≡ ok tt
        → P (leased_command fl number a l act cmd now)
    unfolding leased_command
    leased_cases l held fresh = elim (Bool-cases (not (str_eq cmd.lease_id l.lease_id))) [
      | inl e ↦ rw e (refused _)
      | inr same ↦ rw same (elim (Bool-cases (wrong_fencing l)) [
        | inl e ↦ rw e (refused _)
        | inr fence ↦ rw fence (elim (Bool-cases (not (after l.valid_until now))) [
          | inl e ↦ rw e (expired l held)
          | inr live ↦ rw live (elim (Bool-cases (other_session l)) [
            | inl e ↦ rw e (refused _)
            | inr session ↦ rw session (elim (Bool-cases (old_sequence l)) [
              | inl e ↦ rw e (refused _)
              | inr seq ↦ rw seq (
                  mode_cases l cmd.mode refl (record {
                    fresh = fresh;
                    held = held;
                    same_lease = not-false _ same;
                    lease_fencing =
                        not-false _
                          (||_parts _ (not (eqb_ℤ (to_int64 cmd.fencing_token) a.last_fencing))
                            fence).0;
                    last_fencing =
                        not-false _
                          (||_parts (not (eqb_ℤ (to_int64 cmd.fencing_token) l.fencing)) _ fence).1;
                    in_force = not-false _ live;
                    same_session = session;
                    new_sequence = seq;
                  }))
            ])
          ])
        ])
      ])
    ]

    lookup_cases :
        (o : Option ActiveLease)
        → a.lease ≡ o
        → proto_command_fresh env cmd now a.cfg.max_clock_skew ≡ ok tt
        → P (lookup_lease fl number a o act cmd now)
    unfolding lookup_lease
    lookup_cases none e fresh = refused _
    lookup_cases (some l) e fresh = leased_cases l e fresh

    fresh_cases :
        (r : Result Detail (Unit {0}))
        → proto_command_fresh env cmd now a.cfg.max_clock_skew ≡ r
        → P (apply_command fl number a act env cmd now)
    unfolding apply_command
    fresh_cases (ok u) e = rw (e, apply_command) (lookup_cases a.lease refl e)
    fresh_cases (err d) e = rw (e, apply_command) (refused _)

    -- A command is refused, or finds the lease expired, or moves the vehicle, or stops it.
    pub apply_command_cases : P (apply_command fl number a act env cmd now)
    apply_command_cases = fresh_cases _ refl
