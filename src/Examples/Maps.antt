-- ===== src/Examples/Maps.antt =====
-- The theorems on the publication of maps, at one vehicle with one map.
use manage_robot.Common.{
  ◌≡◌, refl, true, Option, none, some, List, [], ◌∷◌, pos, arith, ok, get, trim,
}
use manage_robot.Wire.Envelope.{Bytes}
use manage_robot.Wire.Auth.{sign_envelope}
use manage_robot.Outbox.Table.{
  pending, enqueue_outbox_tx, message_bad, insert_outbox, dedupe_key_of,
}
use manage_robot.Maps.Data.{
  requested, approved, active, apply, Publication, MapEntry, Target, Tables, map_version_of,
  normalize_map_format, map_format_allowed, map_publication_compatibility,
}
use manage_robot.Maps.Ack.{
  MapAck, AckResult, accepted, applied, find_publication, handle_map_publication_ack,
}
use manage_robot.Maps.Request.{Draws}
use manage_robot.Maps.Approve.{
  Review, review, MapCommand, load_map_publication_target, approve_row, encode_command, map_command,
  map_envelope, approve_map_publication,
}
use manage_robot.Maps.Flow.{Step, requests, approves, dispatches, acknowledges, run}
use manage_robot.Maps.Active.{OneActive}
use manage_robot.Maps.Lifecycle.{run-OneActive}
use manage_robot.Maps.Approval.{Approved, Fit, approve_map_publication-Fit}
use manage_robot.Maps.Unapproved.{unapproved_activated}
use manage_robot.Examples.World.{codec}

abbrev site : MapEntry
site = record {
  id = "m1";
  vehicle_id = "v1";
  versions = record { version = pos 1; kind = "pcd"; content_sha256 = "aa" } ∷ [];
}

abbrev rover : Target
rover = record {
  gateway_id = "g1";
  lifecycle = "active";
  monitoring = true;
  snapshot = some (record { coordinate_frame = "map"; map_formats = "pcd" ∷ [] });
  matrix_entry = "e1";
}

abbrev blank : Tables
blank = record {
  publications = [];
  vehicles = ("v1", rover) ∷ [];
  entries = ("m1", site) ∷ [];
  outbox = [];
}

abbrev wanted : Publication
wanted = record {
  id = "p1";
  map_id = "m1";
  version = pos 1;
  vehicle_id = "v1";
  state = requested;
  action = apply;
  compatibility = none;
  previous = "";
  rollback_target = "";
  requested_by = "li";
  approved_by = "";
  content_sha256 = "aa";
  coordinate_frame = "map";
  ack_result = "";
  ack_detail = "";
  ack_ns = pos 0;
  updated_ns = pos 5;
}

abbrev waiting : Tables
waiting = record blank { publications = wanted ∷ [] }

abbrev draws : Draws
draws = record {
  now = pos 10;
  db_now = pos 10;
  monotonic = 10;
  publication_id = some "p1";
  sequence = some 9;
  outbox_id = some "o1";
}

abbrev answer : AckResult → MapAck
answer r = record {
  publication_id = "p1";
  map_id = "m1";
  vehicle_id = "v1";
  map_version = 1;
  result = r;
  detail = "";
}

abbrev marshal_map : MapCommand → Option Bytes
marshal_map m = some (1 ∷ 2 ∷ [])

abbrev long_key : Bytes
long_key =
    0 ∷ 1 ∷ 2 ∷ 3 ∷ 4 ∷ 5 ∷ 6 ∷ 7 ∷ 8 ∷ 9 ∷ 10 ∷ 11 ∷ 12 ∷ 13 ∷ 14 ∷ 15 ∷ 16 ∷ 17 ∷ 18 ∷ 19 ∷ 20
    ∷ 21 ∷ 22 ∷ 23 ∷ 24 ∷ 25 ∷ 26 ∷ 27 ∷ 28 ∷ 29 ∷ 30 ∷ 31 ∷ []

abbrev life : List Step
life =
    requests draws "m1" "v1" (pos 0) apply "map" "li"
    ∷ approves draws "p1" "wu"
    ∷ dispatches (pos 11) "p1"
    ∷ acknowledges "v1" "g1" (answer applied) (pos 12) (pos 12)
    ∷ []

run-OneActive_example : OneActive (run codec marshal_map (λ s. s) long_key blank life).publications
run-OneActive_example =
    run-OneActive codec marshal_map (λ s. s) long_key blank life
      (λ id. omega arith, λ v. omega arith)

unapproved_activated_example :
    (ps' : List Publication) × (ps'' : List Publication) × (q : Publication)
    × (handle_map_publication_ack "v1" "g1" (answer accepted) (pos 12) (pos 12) (wanted ∷ [])
        ≡ ok ps')
    × (handle_map_publication_ack "v1" "g1" (answer applied) (pos 13) (pos 13) ps' ≡ ok ps'')
    × (find_publication "p1" ps'' ≡ some q)
    × (q.state ≡ active)
    × (q.approved_by ≡ "")
unfolding find_publication
unapproved_activated_example =
    unapproved_activated "v1" "g1" (answer accepted) (answer applied) (pos 12) (pos 13) (pos 12)
      (pos 13) (wanted ∷ []) wanted refl refl refl
      (refl, refl, refl, refl, refl, refl, refl, refl, refl)
      (refl, refl, refl, refl, refl, refl, refl, refl, refl) refl refl

abbrev approved_tables : Tables
approved_tables = record waiting {
  publications =
      record wanted {
        state = approved;
        approved_by = "wu";
        compatibility = some (record {
          map_id = "m1";
          map_version = pos 1;
          kind = "pcd";
          content_sha256 = "aa";
          coordinate_frame = "map";
          entry = "e1";
        });
        updated_ns = pos 10;
      }
      ∷ [];
  outbox =
      record {
        id = "o1";
        dedupe_key = "map_publication/p1/g1/map/0";
        aggregate_type = "map_publication";
        aggregate_id = "p1";
        gateway = "g1";
        channel = "map";
        payload = 9 ∷ [];
        status = pending;
        attempts = 0;
        next_attempt_at = pos 10;
        created_at = pos 10;
        last_error = "";
      }
      ∷ [];
}

approving :
    approve_map_publication codec marshal_map long_key (λ s. s) draws "p1" "wu" waiting
    ≡ ok approved_tables
unfolding approve_map_publication review find_publication map_version_of load_map_publication_target
    map_publication_compatibility map_format_allowed normalize_map_format trim encode_command
    map_command map_envelope sign_envelope enqueue_outbox_tx message_bad insert_outbox dedupe_key_of
    approve_row get
approving = refl

approve_map_publication-Fit_example :
    (r : Review) × Fit (λ s. s) waiting "p1" r
    × (q : Publication) × Approved "p1" "wu" r approved_tables q
approve_map_publication-Fit_example =
    approve_map_publication-Fit codec marshal_map long_key (λ s. s) draws "p1" "wu" waiting
      approved_tables approving
