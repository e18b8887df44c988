-- ===== src/Maps/Approve.antt =====
-- server/fleet/map_publication.go: ApproveMapPublication with loadMapPublicationTargetTx. A transaction
-- that fails leaves the tables as they were.
use Prim.Native.String.{◌++◌ as append}
use manage_robot.Common.{
  ℕ, Bool, true, false, not, ◌||◌, ◌-◌, ◌%◌, Option, some, List, [], String, str_eq, map, ℤ, pos,
  negsuc, if◌then◌else◌, get, Result, ok, ◌>>=◌, ◌>>◌, refuse_if, or_fail,
}
use manage_robot.Wire.Auth.{is_empty, sign_envelope}
use manage_robot.Wire.Envelope.{Bytes, Envelope}
use manage_robot.Wire.Codec.{Codec}
use manage_robot.Outbox.Table.{enqueue_outbox_tx}
use manage_robot.Maps.Data.{
  State, requested, approved, Compatibility, Publication, MapVersion, Snapshot, Target, Tables,
  MapError, no_publication, no_map, no_vehicle, not_admitted, bad_lifecycle, bad_snapshot,
  not_requested, no_random, not_signed, not_queued, map_version_of, map_publication_compatibility,
}
use manage_robot.Maps.Ack.{is_rollback, find_publication}
use manage_robot.Maps.Request.{Draws}

pub data PublicationAction : Type 0 where
  apply_map rollback_map : PublicationAction

-- MapPublicationCommand
pub record MapCommand : Type 0 where
  pub version : ℕ
  pub action : PublicationAction
  pub publication_id : String
  pub map_id : String
  pub vehicle_id : String
  pub map_version : ℕ
  pub content_sha256 : String
  pub coordinate_frame : String
  pub compatibility_entry : String
  pub rollback_publication_id : String
  pub trace_id : String

-- The vehicle's gateway, snapshot and entry of the matrix.
unfoldable pub load_map_publication_target :
    Publication → List (String × Target) → Result MapError (String × Snapshot × String)
load_map_publication_target p vehicles = do
  v ← or_fail (get p.vehicle_id vehicles) no_vehicle
  refuse_if (is_empty v.gateway_id || not v.monitoring) not_admitted
  refuse_if (str_eq v.lifecycle "quarantined" || str_eq v.lifecycle "retired") bad_lifecycle
  snapshot ← or_fail v.snapshot bad_snapshot
  ok (v.gateway_id, snapshot, v.matrix_entry)

abbrev pub is_requested : State → Bool
is_requested requested = true
is_requested s = false

-- The conversion wraps.
abbrev pub uint32 : ℤ → ℕ
uint32 (pos n) = n % 4294967296
uint32 (negsuc n) = 4294967295 - n % 4294967296

unfoldable pub map_command : Publication → MapVersion → String → String → MapCommand
map_command p v frame entry = record {
  version = 1;
  action = if is_rollback p.action then rollback_map else apply_map;
  publication_id = p.id;
  map_id = p.map_id;
  vehicle_id = p.vehicle_id;
  map_version = uint32 p.version;
  content_sha256 = v.content_sha256;
  coordinate_frame = frame;
  compatibility_entry = entry;
  rollback_publication_id = if is_rollback p.action then p.previous else "";
  trace_id = p.id;
}

unfoldable pub map_envelope : Draws → Publication → String → ℕ → Bytes → Envelope
map_envelope t p gateway sequence payload = record {
  schema_major = 1;
  schema_minor = 0;
  message_type = "platform.v1.MapPublicationCommand";
  vehicle_id = p.vehicle_id;
  gateway_id = gateway;
  session_id = append "fleet-map-" p.id;
  sequence = sequence;
  utc_time_ns = t.now;
  monotonic_time_ns = t.monotonic;
  ttl_ms = 30000;
  trace_id = p.id;
  payload = payload;
  auth_tag = [];
}

-- UPDATE ... SET state='approved' ... WHERE id
unfoldable pub approve_row :
    String → String → Compatibility → String → ℤ → List Publication → List Publication
approve_row id approver compat sha now = map λ p.
    if str_eq p.id id
    then record p {
      state = approved;
      approved_by = approver;
      compatibility = some compat;
      content_sha256 = sha;
      coordinate_frame = compat.coordinate_frame;
      updated_ns = now;
    }
    else p

-- What an approval reads and checks before it writes.
pub record Review : Type 0 where
  pub row : Publication
  pub version : MapVersion
  pub gateway : String
  pub matrix : String
  pub compat : Compatibility

-- The frame of the request is that of its row.
unfoldable pub review : (String → String) → String → Tables → Result MapError Review
review to_lower id db = do
  p ← or_fail (find_publication id db.publications) no_publication
  refuse_if (not (is_requested p.state)) not_requested
  let entry = get p.map_id db.entries
  v ← map_version_of entry p.version
  (gateway, snapshot, matrix) ← load_map_publication_target p db.vehicles
  e ← or_fail entry no_map
  compat ← map_publication_compatibility to_lower e v p.coordinate_frame snapshot matrix
  ok (record { row = p; version = v; gateway = gateway; matrix = matrix; compat = compat })

-- `marshal` is protobuf's Marshal of the command.
module _ {F : Type 0} (c : Codec F) (marshal : MapCommand → Option Bytes) (key : Bytes) where
  unfoldable pub encode_command : Draws → Review → Result MapError Bytes
  encode_command t r = do
    let p = r.row
    payload ← or_fail (marshal (map_command p r.version p.coordinate_frame r.matrix)) not_signed
    sequence ← or_fail t.sequence no_random
    env ←
        or_fail (sign_envelope c (some (map_envelope t p r.gateway sequence payload)) key)
          not_signed
    or_fail (c.marshal_envelope env) not_signed

  unfoldable pub approve_map_publication :
      (String → String) → Draws → String → String → Tables → Result MapError Tables
  approve_map_publication to_lower t id approver db = do
    r ← review to_lower id db
    bytes ← encode_command t r
    outbox ←
        or_fail
          (enqueue_outbox_tx c.digest t.outbox_id
            (record {
              gateway = r.gateway;
              channel = "map";
              aggregate_type = "map_publication";
              aggregate_id = r.row.id;
              payload = bytes;
            })
            t.db_now db.outbox)
          not_queued
    ok (record db {
      publications =
          approve_row id approver r.compat r.version.content_sha256 t.now db.publications;
      outbox = outbox;
    })
