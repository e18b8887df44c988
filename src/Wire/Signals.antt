-- ===== src/Wire/Signals.antt =====
-- protocols/platform/v1/capability_validation.go: ValidateSignalUpdate. `has_control` says whether a
-- text has a control character in the sense of Go's unicode package.
use Prim.Native.String.{len}
use manage_robot.Common.{
  ℕ, ◌≤◌, ◌≡◌, refl, Bool, true, false, not, ◌||◌, Option, none, some, List, [], ◌∷◌, String,
  str_eq, trim, if◌then◌else◌, length, any, ltb, ◌==◌, ℤ, pos, negsuc, leb_ℤ, Result, ok, err, ◌>>◌,
  refuse_if, arith,
}
use manage_robot.Wire.GoTime.{Time, unix_ns, before, after, time_add, is_zero}
use manage_robot.Wire.Envelope.{Bytes}
use manage_robot.Wire.Auth.{is_empty}
use manage_robot.Arbiter.State.{Float}

pub data Quality : Type 0 where
  good stale missing invalid : Quality
  unknown_quality : ℤ → Quality

-- The kinds of a value; `no_kind` is a value whose kind is not set.
pub data Kind (F : Type 0) : Type 0 where
  number : F → Kind F
  boolean : Bool → Kind F
  text : String → Kind F
  raw : Bytes → Kind F
  number_list : Option (List F) → Kind F
  no_kind : Kind F

pub record Signal (F : Type 0) : Type 0 where
  pub path : String
  pub quality : Quality
  pub sample_monotonic_ns : ℕ
  pub sample_utc_ns : ℤ
  pub value : Option (Kind F)

pub data SignalError : Type 0 where
  bad_count bad_path duplicate_path bad_quality no_sample_time outside_window : SignalError
  missing_value not_finite list_too_long bad_kind raw_too_long : SignalError

abbrev known_quality : Quality → Bool
known_quality (unknown_quality n) = false
known_quality _ = true

-- A signal of this quality must have a value.
abbrev pub needs_value : Quality → Bool
needs_value good = true
needs_value stale = true
needs_value _ = false

module _ {F : Type 0} (fl : Float F) (has_control : String → Bool) where
  abbrev pub not_a_number : F → Bool
  not_a_number x = fl.is_nan x || fl.is_inf x

  check_kind : Kind F → Result SignalError (Unit {0})
  check_kind (number x) = refuse_if (not_a_number x) not_finite
  check_kind (number_list none) = err list_too_long
  check_kind (number_list (some xs)) = do
    refuse_if (ltb 256 (length xs)) list_too_long
    refuse_if (any not_a_number xs) not_finite
    ok tt
  check_kind (raw b) = refuse_if (ltb 65536 (length b)) raw_too_long
  check_kind no_kind = err bad_kind
  check_kind _ = ok tt

  check_value : Quality → Option (Kind F) → Result SignalError (Unit {0})
  unfolding check_kind
  check_value q none = refuse_if (needs_value q) missing_value
  check_value q (some k) = check_kind k

  unfoldable pub check_signal : Time → Signal F → Result SignalError (Unit {0})
  unfolding check_value
  check_signal now s = do
    refuse_if (not (known_quality s.quality)) bad_quality
    refuse_if (s.sample_monotonic_ns == 0 || leb_ℤ s.sample_utc_ns (pos 0)) no_sample_time
    refuse_if
        (after (unix_ns s.sample_utc_ns) (time_add now (pos 2000000000))
          || before (unix_ns s.sample_utc_ns) (time_add now (negsuc 86399999999999)))
        outside_window
    check_value s.quality s.value

  path_bad : String → Bool
  path_bad p = is_empty (trim p) || ltb 256 (len p) || has_control p

  -- The loop, with the paths that it has seen.
  unfoldable pub check_signals :
      Time → List String → List (Option (Signal F)) → Result SignalError (Unit {0})
  unfolding path_bad
  check_signals now seen [] = ok tt
  check_signals now seen (none ∷ ss) = err bad_path
  check_signals now seen (some s ∷ ss) =
      let rest = check_signals now (s.path ∷ seen) ss in
      do
        refuse_if (path_bad s.path) bad_path
        refuse_if (any (str_eq s.path) seen) duplicate_path
        check_signal now s
        rest

  abbrev effective : Time → Time → Time
  effective now clock = if is_zero now then clock else now

  -- `none` is a nil update; `clock` is read where `now` is zero.
  unfoldable pub validate_signal_update :
      Option (List (Option (Signal F))) → Time → Time → Result SignalError (Unit {0})
  validate_signal_update none now clock = err bad_count
  validate_signal_update (some ss) now clock = do
    refuse_if (length ss == 0 || ltb 512 (length ss)) bad_count
    check_signals (effective now clock) [] ss

  -- The numbers of a value, as far as it has any.
  abbrev pub numbers : Kind F → List F
  numbers (number x) = x ∷ []
  numbers (number_list (some xs)) = xs
  numbers _ = []

  -- A signal that may change what the operator sees: of a known quality, with the value that its
  -- quality calls for, whose numbers are finite.
  abbrev pub SoundValue : Quality → Option (Kind F) → Type 0
  SoundValue q none = needs_value q ≡ false
  SoundValue q (some k) = any not_a_number (numbers k) ≡ false

  abbrev pub SoundSignal : List String → Option (Signal F) → Type 0
  SoundSignal seen none = ⊥
  SoundSignal seen (some s) = (any (str_eq s.path) seen ≡ false) × SoundValue s.quality s.value

  -- Every signal is sound and its path is not among those before it.
  abbrev pub SoundSignals : List String → List (Option (Signal F)) → Type 0
  SoundSignals seen [] = Unit
  SoundSignals seen (none ∷ ss) = ⊥
  SoundSignals seen (some s ∷ ss) = SoundSignal seen (some s) × SoundSignals (s.path ∷ seen) ss

  check_value-SoundValue :
      (q : Quality) (v : Option (Kind F)) → check_value q v ≡ ok tt → SoundValue q v
  unfolding check_value
  check_value-SoundValue q none h = ground arith
  check_value-SoundValue q (some (number x)) h = ground arith
  check_value-SoundValue q (some (number_list none)) h = absurd (ground arith)
  check_value-SoundValue q (some (number_list (some xs))) h = ground arith
  check_value-SoundValue q (some (boolean b)) h = refl
  check_value-SoundValue q (some (text s)) h = refl
  check_value-SoundValue q (some (raw b)) h = refl
  check_value-SoundValue q (some no_kind) h = absurd (ground arith)

  check_signals-SoundSignals :
      (now : Time) (seen : List String) (ss : List (Option (Signal F)))
      → check_signals now seen ss ≡ ok tt
      → SoundSignals seen ss
  unfolding check_signals check_signal
  check_signals-SoundSignals now seen [] h = tt
  check_signals-SoundSignals now seen (none ∷ ss) h = ground arith
  check_signals-SoundSignals now seen (some s ∷ ss) h = (
    (ground arith, check_value-SoundValue s.quality s.value (ground arith)),
    check_signals-SoundSignals now (s.path ∷ seen) ss (ground arith),
  )

  -- An update that passes has between 1 and 512 signals, no path twice, no number that is not finite,
  -- and a value wherever the quality is good or stale.
  pub validate_signal_update-SoundSignals :
      (ss : List (Option (Signal F))) (now clock : Time)
      → validate_signal_update (some ss) now clock ≡ ok tt
      → SoundSignals [] ss × (1 ≤ length ss) × (length ss ≤ 512)
  unfolding validate_signal_update
  validate_signal_update-SoundSignals ss now clock h = (
    check_signals-SoundSignals (effective now clock) [] ss (ground arith),
    ground arith,
    ground arith,
  )
