-- ===== src/Examples/Control.antt =====
-- The authority's theorems at a takeover of vehicle v1.
use manage_robot.Common.{
  ℕ, ◌≤◌, ◌≡◌, refl, true, some, List, [], ◌∷◌, String, pos, ok, is_err, All, arith, ◌+ℤ◌, ◌-ℤ◌,
}
use manage_robot.Common.{trim}
use manage_robot.Wire.Auth.{
  sign_envelope, validate_envelope, wrong_identity, no_freshness, outside_window,
}
use manage_robot.Authority.Data.{active, Lease, Db, Settings, Draws, other_lifecycle}
use manage_robot.Authority.Guards.{
  find_vehicle, find_capability, bound_gateway, require_vehicle_live, require_control_capability,
  driver_vehicle, fencing_of, set_epoch, update_leases, find_lease,
}
use manage_robot.Authority.Publish.{publish_grant_tx, signed_grant, unsigned_grant, grant_envelope}
use manage_robot.Authority.Operations.{
  request, renew, emergency_stop, Call, requests, stops, step, run, request_tx, new_lease, issue,
  retire, emergency_stop_tx, closing, expire_leases,
}
use manage_robot.Authority.Tables.{Inv}
use manage_robot.Authority.Invariant.{run-Inv, run-fencing_of}
use manage_robot.Authority.Revocation.{Overtaken, emergency_stop_overtakes, renew_late}
use manage_robot.Outbox.Table.{enqueue_outbox_tx, insert_outbox, message_bad, dedupe_key_of}
use manage_robot.Examples.World.{codec, zeros}

abbrev settings : Settings
settings = record {
  ready = true;
  lease_ttl = pos 5000000000;
  grace = pos 1000000000;
  signer_private = zeros 64;
  signer_key_id = "k1";
  envelope_auth_key = zeros 32;
}

abbrev draws : ℕ → String → Draws
draws now id = record {
  db_now = pos now;
  now = pos now;
  monotonic = now;
  lease_id = some id;
  outbox_id = some id;
}

abbrev fresh_db : Db
fresh_db = record {
  gateways =
      record {
        gateway_id = "g1";
        vehicle_id = "v1";
        is_active = true;
        certificate_not_after = pos 90000000000;
        activated_at = pos 1;
      }
      ∷ [];
  vehicles =
      record {
        id = "v1";
        lifecycle = other_lifecycle "active";
        state = some (true, pos 9000000000);
      }
      ∷ [];
  capabilities = record { vehicle_id = "v1"; gateway_id = "g1"; control_allowed = true } ∷ [];
  epochs = [];
  leases = [];
  renewals = [];
  audit = [];
  outbox = [];
}

fresh_db-Inv : Inv fresh_db
fresh_db-Inv = record { bounded = tt; exclusive = tt; distinct = tt }

-- A takeover, a second driver's, a stop, and a takeover after it.
abbrev calls : List (Draws × Call)
calls =
    (draws 10000000000 "lease-1", requests "d1" "dev1" "v1")
    ∷ (draws 10500000000 "lease-2", requests "d2" "dev2" "v1")
    ∷ (draws 11000000000 "stop-1", stops " v1" "admin")
    ∷ (draws 12000000000 "lease-3", requests "d2" "dev2" "v1")
    ∷ []

-- Three of them raise the token.
calls_raise : fencing_of "v1" (run codec settings fresh_db calls).epochs ≡ 3
unfolding run step emergency_stop emergency_stop_tx closing retire trim request request_tx
    bound_gateway require_vehicle_live require_control_capability find_vehicle find_capability
    driver_vehicle set_epoch fencing_of update_leases issue expire_leases new_lease publish_grant_tx
    signed_grant unsigned_grant grant_envelope enqueue_outbox_tx insert_outbox message_bad
    dedupe_key_of sign_envelope validate_envelope wrong_identity no_freshness outside_window ◌+ℤ◌
    ◌-ℤ◌
calls_raise = refl

run-Inv_example : Inv (run codec settings fresh_db calls)
run-Inv_example = run-Inv codec settings fresh_db calls fresh_db-Inv

run-fencing_of_example :
    fencing_of "v1" fresh_db.epochs ≤ fencing_of "v1" (run codec settings fresh_db calls).epochs
run-fencing_of_example = run-fencing_of codec settings "v1" fresh_db calls

abbrev taken : Lease
taken = record {
  lease_id = "lease-1";
  vehicle_id = "v1";
  gateway_id = "g1";
  driver_id = "d1";
  device_id = "dev1";
  fencing = 1;
  state = active;
  issued_at = pos 10000000000;
  valid_until = pos 15000000000;
  release_reason = "";
}

abbrev taken_db : Db
taken_db = record fresh_db {
  epochs = record { vehicle_id = "v1"; fencing = 1; active_lease_id = some "lease-1" } ∷ [];
  leases = taken ∷ [];
}

taken_db-Inv : Inv taken_db
unfolding fencing_of
taken_db-Inv = record { bounded = (omega arith, tt); exclusive = (tt, tt); distinct = (tt, tt) }

abbrev stop : Draws
stop = draws 11000000000 "stop-1"

abbrev stopping : Lease
stopping = record {
  lease_id = "stop-1";
  vehicle_id = "v1";
  gateway_id = "g1";
  driver_id = "admin";
  device_id = "emergency-stop";
  fencing = 2;
  state = active;
  issued_at = pos 11000000000;
  valid_until = pos 10000000000;
  release_reason = "";
}

abbrev stopped_db : Db
stopped_db = (emergency_stop codec settings stop taken_db " v1" "admin").0

stopped : emergency_stop codec settings stop taken_db " v1" "admin" ≡ (stopped_db, ok stopping)
unfolding emergency_stop emergency_stop_tx closing retire trim bound_gateway require_vehicle_live
    require_control_capability find_vehicle find_capability driver_vehicle set_epoch fencing_of
    update_leases new_lease publish_grant_tx signed_grant unsigned_grant grant_envelope
    enqueue_outbox_tx insert_outbox message_bad dedupe_key_of sign_envelope validate_envelope
    wrong_identity no_freshness outside_window ◌+ℤ◌ ◌-ℤ◌
stopped = refl

emergency_stop_overtakes_example : All (Overtaken "v1" 2) stopped_db.leases
unfolding trim
emergency_stop_overtakes_example =
    emergency_stop_overtakes codec settings stop taken_db stopped_db stopping " v1" "admin"
      taken_db-Inv stopped

find_taken : find_lease "lease-1" taken_db.leases ≡ some taken
unfolding find_lease
find_taken = refl

abbrev late : Draws
late = draws 16000000001 "unused"

renew_late_example :
    let (db', result) =
      renew codec settings late taken_db "lease-1" "d1" "dev1" "0123456789abcdef" in
    (db' ≡ taken_db) × (is_err result ≡ true)
unfolding ◌+ℤ◌
renew_late_example =
    renew_late codec settings late taken_db taken "lease-1" "d1" "dev1" "0123456789abcdef"
      find_taken (omega arith)
