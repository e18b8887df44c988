-- ===== src/Examples/Telemetry.antt =====
-- A signal update that passes, and one that does not.
use manage_robot.Common.{
  ◌≤◌, ◌≡◌, refl, Bool, false, Option, none, some, List, [], ◌∷◌, String, pos, ok, err, length,
  trim, ◌+ℤ◌,
}
use manage_robot.Wire.GoTime.{unix_ns, before, time_add}
use manage_robot.Wire.Signals.{
  Kind, number, number_list, Quality, good, missing, Signal, duplicate_path, check_signal,
  check_signals, validate_signal_update, SoundSignals, validate_signal_update-SoundSignals,
}
use manage_robot.Examples.World.{F, floats}

abbrev no_control : String → Bool
no_control s = false

abbrev signal : String → Quality → Option (Kind F) → Option (Signal F)
signal path quality value = some (record {
  path = path;
  quality = quality;
  sample_monotonic_ns = 1;
  sample_utc_ns = pos 90000000000000;
  value = value;
})

abbrev update : List (Option (Signal F))
update =
    signal "Vehicle.Speed" good (some (number (some 3)))
    ∷ signal "Vehicle.Pose" good (some (number_list (some (some 1 ∷ some 2 ∷ []))))
    ∷ signal "Vehicle.Fuel" missing none
    ∷ []

update_passes :
    validate_signal_update floats no_control
      (some update)
      (unix_ns (pos 90000000000001))
      (unix_ns (pos 90000000000001))
    ≡ ok tt
unfolding validate_signal_update check_signals check_signal trim before time_add ◌+ℤ◌
update_passes = refl

-- The same path twice.
repeat_refused :
    validate_signal_update floats no_control
      (some (signal "Vehicle.Fuel" missing none ∷ signal "Vehicle.Fuel" missing none ∷ []))
      (unix_ns (pos 90000000000001))
      (unix_ns (pos 90000000000001))
    ≡ err duplicate_path
unfolding validate_signal_update check_signals check_signal trim before time_add ◌+ℤ◌
repeat_refused = refl

validate_signal_update-SoundSignals_example :
    SoundSignals floats no_control [] update × (1 ≤ length update) × (length update ≤ 512)
validate_signal_update-SoundSignals_example =
    validate_signal_update-SoundSignals floats no_control update (unix_ns (pos 90000000000001))
      (unix_ns (pos 90000000000001)) update_passes
