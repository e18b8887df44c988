-- ===== src/Arbiter/Latch.antt =====
-- Loss of control is latched: the lease that a stop took away comes back only under a new fencing
-- token, and a lease never goes away without the vehicle being told to stop.
use manage_robot.Common.{
  ◌≡◌, refl, ◌⊎◌, inl, inr, Bool, true, false, none, is_some, ◌||◌, List, [], ◌∷◌, String, ℤ, ◌≤ℤ◌,
  ◌<ℤ◌, arith,
}
use manage_robot.Wire.GoTime.{Time}
use manage_robot.Wire.Envelope.{LeaseGrant}
use manage_robot.Wire.Codec.{Codec}
use manage_robot.Arbiter.State.{Float, Arbiter, Actuator, Outcome, Effect, moved, risked}
use manage_robot.Arbiter.Lease.{apply_lease}
use manage_robot.Arbiter.Command.{expire_lease_locked, move, risk_command}
use manage_robot.Arbiter.Watchdog.{tick}
use manage_robot.Arbiter.Run.{Event, step, run}
use manage_robot.Arbiter.Cases.{apply_command_cases}
use manage_robot.Arbiter.Steps.{step_cases}
use manage_robot.Arbiter.Replay.{has_motion}

abbrev pub has_risk : {F : Type 0} → List (Effect F) → Bool
has_risk [] = false
has_risk (moved m ∷ es) = has_risk es
has_risk (risked r ∷ es) = true

-- The outcome leaves the arbiter without a lease and does not move the vehicle, or raises the token.
abbrev Latched : {F : Type 0} → ℤ → Outcome F → Type 0
Latched f o =
    ((o.arbiter.lease ≡ none) × (has_motion o.effects ≡ false)) ⊎ (f <ℤ o.arbiter.last_fencing)

-- A lease that is gone was taken away by a stop.
abbrev Stopped : {F : Type 0} → Arbiter F → Outcome F → Type 0
Stopped a o = (a.lease ≡ none) ⊎ (is_some o.arbiter.lease ≡ true) ⊎ (has_risk o.effects ≡ true)

module _ {F : Type 0} (fl : Float F) where
  apply_lease-Latched :
      (a : Arbiter F) (act : Actuator F) (g : LeaseGrant) (now : Time)
      → a.lease ≡ none
      → Latched a.last_fencing (apply_lease fl a act g now)
  unfolding apply_lease
  apply_lease-Latched a act g now h = ground arith

  apply_lease-last_fencing :
      (a : Arbiter F) (act : Actuator F) (g : LeaseGrant) (now : Time)
      → a.last_fencing ≤ℤ (apply_lease fl a act g now).arbiter.last_fencing
  unfolding apply_lease
  apply_lease-last_fencing a act g now = ground arith

  apply_lease-Stopped :
      (a : Arbiter F) (act : Actuator F) (g : LeaseGrant) (now : Time)
      → Stopped a (apply_lease fl a act g now)
  unfolding apply_lease
  apply_lease-Stopped a act g now = ground arith

  tick-Stopped : (a : Arbiter F) (act : Actuator F) (now : Time) → Stopped a (tick fl a act now)
  unfolding tick
  tick-Stopped a act now = ground arith

  tick-Latched :
      (a : Arbiter F) (act : Actuator F) (now : Time)
      → a.lease ≡ none
      → Latched a.last_fencing (tick fl a act now)
  unfolding tick
  tick-Latched a act now h = ground arith

module _ {F : Type 0} (fl : Float F) (c : Codec F) (number : ℤ → String) where
  step-Latched :
      (a : Arbiter F) (e : Event F) → a.lease ≡ none → Latched a.last_fencing (step fl c number a e)
  unfolding expire_lease_locked risk_command
  step-Latched a e h =
      step_cases fl c number (Latched a.last_fencing) a (λ d. inl (h, refl))
        (λ act env t g q. apply_lease-Latched fl a act g t.later h)
        (λ act env t cmd q.
          apply_command_cases fl number (Latched a.last_fencing) a act env cmd t.later
            (λ d. inl (h, refl)) (λ l p. inl (refl, refl)) (λ l m p. cc (p.held))
            (λ l p. cc (p.held)))
        (λ act t. tick-Latched fl a act t.later h) e

  -- Whatever arrives, the arbiter's fencing token never falls.
  pub step-last_fencing :
      (a : Arbiter F) (e : Event F) → a.last_fencing ≤ℤ (step fl c number a e).arbiter.last_fencing
  unfolding expire_lease_locked move risk_command tick
  step-last_fencing a e =
      step_cases fl c number (λ o. a.last_fencing ≤ℤ o.arbiter.last_fencing) a (λ d. omega arith)
        (λ act env t g q. apply_lease-last_fencing fl a act g t.later)
        (λ act env t cmd q.
          apply_command_cases fl number (λ o. a.last_fencing ≤ℤ o.arbiter.last_fencing) a act env
            cmd t.later (λ d. omega arith) (λ l p. omega arith) (λ l m p u v w. ground arith)
            (λ l p. ground arith))
        (λ act t. ground arith) e

  -- A call that takes the lease away tells the actuator to stop.
  pub step_stops :
      (a : Arbiter F) (e : Event F)
      → is_some a.lease ≡ true
      → (step fl c number a e).arbiter.lease ≡ none
      → has_risk (step fl c number a e).effects ≡ true
  unfolding expire_lease_locked move risk_command
  step_stops a e held gone = ground (
    arith,
    step_cases fl c number (Stopped a) a (λ d. ground arith)
        (λ act env t g q. apply_lease-Stopped fl a act g t.later)
        (λ act env t cmd q.
          apply_command_cases fl number (Stopped a) a act env cmd t.later (λ d. ground arith)
            (λ l p. ground arith) (λ l m p u v w. ground arith) (λ l p. ground arith))
        (λ act t. tick-Stopped fl a act t.later) e,
  )

  -- Over any sequence of calls the arbiter's fencing token never falls.
  run-last_fencing :
      (a : Arbiter F) (es : List (Event F)) → a.last_fencing ≤ℤ (run fl c number a es).last_fencing
  unfolding run
  run-last_fencing a [] = omega arith
  run-last_fencing a (e ∷ es) =
      omega (arith, step-last_fencing a e, run-last_fencing (step fl c number a e).arbiter es)

  -- Some call of the sequence, of whatever kind, tells the actuator to move.
  unfoldable pub ever_moves : Arbiter F → List (Event F) → Bool
  ever_moves a [] = false
  ever_moves a (e ∷ es) =
      has_motion (step fl c number a e).effects || ever_moves (step fl c number a e).arbiter es

  -- An arbiter that has no lease does not get one over any sequence of grants, commands and ticks
  -- over which its fencing token does not rise, and no call of the sequence, of whatever kind, tells
  -- the actuator to move.
  pub run_latched :
      (a : Arbiter F) (es : List (Event F))
      → a.lease ≡ none
      → (run fl c number a es).last_fencing ≤ℤ a.last_fencing
      → ((run fl c number a es).lease ≡ none) × (ever_moves a es ≡ false)
  unfolding run ever_moves
  run_latched a [] h k = (h, refl)
  run_latched a (e ∷ es) h k = elim (step-Latched a e h) [
    | inl (gone, still) ↦
        let (rest, unmoved) =
          run_latched (step fl c number a e).arbiter es gone
            (omega (arith, step-last_fencing a e)) in
        (rest, rw still unmoved)
    | inr up ↦ absurd (omega (arith, run-last_fencing (step fl c number a e).arbiter es))
  ]
