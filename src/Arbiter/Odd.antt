-- ===== src/Arbiter/Odd.antt =====
-- vehicle/safety-arbiter/arbiter.go and proto_kernel.go: the limits of a motion and the age of a
-- command, against what they are meant to say.
use manage_robot.Common.{
  ℕ, ◌+◌, ◌*◌, ◌<◌, ◌≡◌, refl, true, false, ℤ, pos, ◌≤ℤ◌, ◌-ℤ◌, ◌+ℤ◌, -ℤ_parts, +ℤ_parts, to_int64,
  ok, arith,
}
use manage_robot.Wire.GoTime.{Time, unix_ns, time_sub, saturate, neg, wrap64}
use manage_robot.Wire.Envelope.{Envelope, Motion, ControlCommand}
use manage_robot.Arbiter.State.{Float, Limits, check_limits}
use manage_robot.Arbiter.Command.{proto_command_fresh}

-- IEEE 754 in Go: a comparison with a NaN is false, other numbers are linearly ordered, and the
-- absolute value of a number is at most `m` where the number lies between `-m` and `m`.
pub record Ieee {F : Type 0} (fl : Float F) : Type 0 where
  pub minus : F → F
  pub le_of_not_lt :
      (x y : F) → fl.is_nan x ≡ false → fl.is_nan y ≡ false → fl.lt x y ≡ false → fl.le y x ≡ true
  pub abs-nan : (x : F) → fl.is_nan x ≡ false → fl.is_nan (fl.abs x) ≡ false
  pub abs_within :
      (x m : F) → fl.le (fl.abs x) m ≡ true → (fl.le (minus m) x ≡ true) × (fl.le x m ≡ true)
  pub lt-nan : (x m : F) → fl.is_nan m ≡ true → fl.lt m x ≡ false

-- `x` is a number between `lo` and `hi`.
abbrev pub Between : {F : Type 0} → Float F → F → F → F → Type 0
Between fl lo hi x =
    (fl.is_nan x ≡ false) × (fl.is_inf x ≡ false) × (fl.le lo x ≡ true) × (fl.le x hi ≡ true)

-- The operational design domain: the box that the calibrated limits describe.
pub record InDomain {F : Type 0} (fl : Float F) (minus : F → F) (l : Limits F) (m : Motion F)
    : Type 0 where
  pub speed : Between fl fl.zero l.max_speed m.target_speed
  pub acceleration : Between fl (minus l.max_acceleration) l.max_acceleration m.target_acceleration
  pub curvature : Between fl (minus l.max_curvature) l.max_curvature m.target_curvature
  pub yaw_rate : Between fl (minus l.max_yaw_rate) l.max_yaw_rate m.target_yaw_rate

-- Limits that are numbers.
pub record Calibrated {F : Type 0} (fl : Float F) (l : Limits F) : Type 0 where
  pub zero : fl.is_nan fl.zero ≡ false
  pub speed : fl.is_nan l.max_speed ≡ false
  pub acceleration : fl.is_nan l.max_acceleration ≡ false
  pub curvature : fl.is_nan l.max_curvature ≡ false
  pub yaw_rate : fl.is_nan l.max_yaw_rate ≡ false

module _ {F : Type 0} (fl : Float F) (ieee : Ieee fl) where
  abbrev Finite : F → Type 0
  Finite x = (fl.is_nan x ≡ false) × (fl.is_inf x ≡ false)

  within_abs :
      (x m : F)
      → Finite x
      → fl.is_nan m ≡ false
      → fl.lt m (fl.abs x) ≡ false
      → Between fl (ieee.minus m) m x
  within_abs x m fin num h =
      let inside =
        ieee.abs_within x m (ieee.le_of_not_lt m (fl.abs x) num (ieee.abs-nan x fin.0) h) in
      (fin.0, fin.1, inside.0, inside.1)

  module _ (l : Limits F) (m : Motion F) (within : check_limits fl l m ≡ ok tt) where
    Finite-parts :
        Finite m.target_speed
        × Finite m.target_acceleration
        × Finite m.target_curvature
        × Finite m.target_yaw_rate
    unfolding check_limits
    Finite-parts = ground arith

    limit_parts :
        (fl.lt m.target_speed fl.zero ≡ false)
        × (fl.lt l.max_speed m.target_speed ≡ false)
        × (fl.lt l.max_acceleration (fl.abs m.target_acceleration) ≡ false)
        × (fl.lt l.max_curvature (fl.abs m.target_curvature) ≡ false)
        × (fl.lt l.max_yaw_rate (fl.abs m.target_yaw_rate) ≡ false)
    unfolding check_limits
    limit_parts = ground arith

    -- A motion that passes the check lies in the box of the limits, if these are numbers.
    pub check_limits-InDomain : Calibrated fl l → InDomain fl ieee.minus l m
    check_limits-InDomain num =
        let fin = Finite-parts in
        let ins = limit_parts in
        record {
          speed = (
            fin.0.0,
            fin.0.1,
            ieee.le_of_not_lt m.target_speed fl.zero fin.0.0 num.zero ins.0,
            ieee.le_of_not_lt l.max_speed m.target_speed num.speed fin.0.0 ins.1,
          );
          acceleration =
              within_abs m.target_acceleration l.max_acceleration fin.1 num.acceleration ins.2;
          curvature = within_abs m.target_curvature l.max_curvature fin.2 num.curvature ins.3;
          yaw_rate = within_abs m.target_yaw_rate l.max_yaw_rate fin.3 num.yaw_rate ins.4;
        }

-- The age of a command that is fresh: not older than its time to live and the skew, and not from
-- further in the future than the skew.
module _ {F : Type 0} (env : Envelope) (cmd : ControlCommand F) (now : Time) (skew : ℕ) where
  small_neg : skew < 0x4000000000000000 → neg (pos skew) ≡ (pos 0 -ℤ pos skew)
  unfolding neg wrap64 to_int64 ◌-ℤ◌
  small_neg h = ground arith

  small_sum :
      (t : ℕ)
      → skew < 0x4000000000000000
      → t < 0x4000000000000000
      → wrap64 (pos t +ℤ pos skew) ≡ pos (t + skew)
  unfolding wrap64 to_int64 ◌+ℤ◌
  small_sum t h k = ground arith

  abbrev age : ℤ
  age = now.wall -ℤ env.utc_time_ns

  fresh_age :
      (t : ℕ) (lo : ℤ)
      → lo ≡ (pos 0 -ℤ pos skew)
      → skew < 0x4000000000000000
      → t < 0x4000000000000000
      → lo ≤ℤ saturate age
      → saturate age ≤ℤ pos (t + skew)
      → (now.wall ≤ℤ env.utc_time_ns +ℤ pos (t + skew)) × (env.utc_time_ns ≤ℤ now.wall +ℤ pos skew)
  unfolding saturate
  fresh_age t lo e h k low high = ground (
    arith,
    -ℤ_parts now.wall env.utc_time_ns,
    -ℤ_parts (pos 0) (pos skew),
    +ℤ_parts env.utc_time_ns (pos (t + skew)),
    +ℤ_parts now.wall (pos skew),
  )

  sub_unix : time_sub now (unix_ns env.utc_time_ns) ≡ saturate age
  unfolding time_sub
  sub_unix = ground arith

  window :
      proto_command_fresh env cmd now (pos skew) ≡ ok tt
      → (neg (pos skew) ≤ℤ time_sub now (unix_ns env.utc_time_ns))
        × (time_sub now (unix_ns env.utc_time_ns)
            ≤ℤ wrap64 (pos (env.ttl_ms * 1000000) +ℤ pos skew))
  unfolding proto_command_fresh
  window h = ground arith

  -- A command passes the check only between its sending, less the skew that is allowed, and the end
  -- of its time to live, plus that skew; for a skew below 146 years and a 32-bit time to live.
  pub proto_command_fresh-age :
      proto_command_fresh env cmd now (pos skew) ≡ ok tt
      → skew < 0x4000000000000000
      → env.ttl_ms < 0x100000000
      → (now.wall ≤ℤ env.utc_time_ns +ℤ pos (env.ttl_ms * 1000000 + skew))
        × (env.utc_time_ns ≤ℤ now.wall +ℤ pos skew)
  proto_command_fresh-age h k t =
      let (low, high) = window h in
      fresh_age (env.ttl_ms * 1000000) (pos 0 -ℤ pos skew) refl k (omega arith)
        (rw (small_neg k, sub_unix) at low)
        (rw (small_sum (env.ttl_ms * 1000000) k (omega arith), sub_unix) at high)

module _ {F : Type 0} (fl : Float F) (ieee : Ieee fl) where
  -- If the speed limit is not a number, a motion that passes where its own speed is the limit passes.
  pub check_limits-nan_speed :
      (l : Limits F) (m : Motion F)
      → fl.is_nan l.max_speed ≡ true
      → check_limits fl (record l { max_speed = m.target_speed }) m ≡ ok tt
      → check_limits fl l m ≡ ok tt
  unfolding check_limits
  check_limits-nan_speed l m h k = ground (arith, ieee.lt-nan m.target_speed l.max_speed h)
