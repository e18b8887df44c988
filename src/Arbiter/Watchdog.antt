-- ===== src/Arbiter/Watchdog.antt =====
-- vehicle/safety-arbiter/arbiter.go: Tick, which main.go's watchdogLoop calls ten times a second.
use manage_robot.Common.{
  true, not, Option, none, some, [], ◌∷◌, if◌then◌else◌, ltb_ℤ, ◌≤ℤ◌, ◌≡◌, arith,
}
use manage_robot.Wire.GoTime.{Time, time_sub, after}
use manage_robot.Arbiter.State.{
  Float, accepted, rejected_stale, rejected_lease, no_lease, healthy, expired_risk,
  expired_risk_failed, watchdog_risk, watchdog_risk_failed, ActiveLease, Arbiter, Actuator, risked,
  Outcome, decide, decide_risk, refuse, drop_lease,
}

module _ {F : Type 0} (fl : Float F) where
  watch_lease : Arbiter F → Option ActiveLease → Actuator F → Time → Outcome F
  watch_lease a none act now =
      refuse fl a (record (decide fl rejected_lease no_lease) { risk_reason = a.minimal_risk })
  watch_lease a (some l) act now =
      if not (after l.valid_until now)
      then (let reply = act.minimal_risk "lease_expired" in
          record {
            arbiter = drop_lease a "lease_expired";
            decision =
                decide_risk fl rejected_lease
                  (if reply.failed then expired_risk_failed else expired_risk) "lease_expired"
                  reply.applied_ns;
            effects = risked "lease_expired" ∷ [];
          })
      else if ltb_ℤ a.cfg.watchdog (time_sub now l.last_command)
      then (let reply = act.minimal_risk "control_watchdog_timeout" in
          record {
            arbiter = drop_lease a "control_watchdog_timeout";
            decision =
                decide_risk fl rejected_stale
                  (if reply.failed then watchdog_risk_failed else watchdog_risk)
                  "control_watchdog_timeout" reply.applied_ns;
            effects = risked "control_watchdog_timeout" ∷ [];
          })
      else refuse fl a (decide fl accepted healthy)

  unfoldable pub tick : Arbiter F → Actuator F → Time → Outcome F
  unfolding watch_lease
  tick a act now = watch_lease a a.lease act now

  -- A lease that survives a tick is the one that was there, has not run out, and heard of a command
  -- within the watchdog's period.
  pub tick_survivor :
      (a : Arbiter F) (act : Actuator F) (now : Time) (l : ActiveLease)
      → (tick a act now).arbiter.lease ≡ some l
      → (a.lease ≡ some l)
        × (after l.valid_until now ≡ true)
        × (time_sub now l.last_command ≤ℤ a.cfg.watchdog)
  unfolding tick
  tick_survivor a act now l h = ground arith
