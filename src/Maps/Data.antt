-- ===== src/Maps/Data.antt =====
-- server/fleet/map_publication.go: mapPublication, mapVersionOf, normalizeMapFormat, mapFormatAllowed
-- and mapPublicationCompatibility. The JSON of the compatibility is its record.
use manage_robot.Common.{
  Bool, not, ◌&&◌, ◌||◌, Option, none, some, List, [], ◌∷◌, String, str_eq, trim, any, length, ◌==◌,
  ℤ, pos, leb_ℤ, eqb_ℤ, if◌then◌else◌, Result, ok, err, ◌>>◌, refuse_if, or_fail,
}
use manage_robot.Wire.Auth.{is_empty}
use manage_robot.Outbox.Table.{Item}

pub data State : Type 0 where
  requested approved dispatched confirmed active rejected superseded rolled_back : State

pub data Action : Type 0 where
  apply rollback : Action

pub record Compatibility : Type 0 where
  pub map_id : String
  pub map_version : ℤ
  pub kind : String
  pub content_sha256 : String
  pub coordinate_frame : String
  pub entry : String

-- A row of map_publications; `compatibility` is none while only the frame is known.
pub record Publication : Type 0 where
  pub id : String
  pub map_id : String
  pub version : ℤ
  pub vehicle_id : String
  pub state : State
  pub action : Action
  pub compatibility : Option Compatibility
  pub previous : String
  pub rollback_target : String
  pub requested_by : String
  pub approved_by : String
  pub content_sha256 : String
  pub coordinate_frame : String
  pub ack_result : String
  pub ack_detail : String
  pub ack_ns : ℤ
  pub updated_ns : ℤ

pub record MapVersion : Type 0 where
  pub version : ℤ
  pub kind : String
  pub content_sha256 : String

pub record MapEntry : Type 0 where
  pub id : String
  pub vehicle_id : String
  pub versions : List MapVersion

-- capabilitySnapshot, as far as maps read it.
pub record Snapshot : Type 0 where
  pub coordinate_frame : String
  pub map_formats : List String

-- A row of vehicles with its row of vehicle_capabilities; `none` is a snapshot that does not parse.
pub record Target : Type 0 where
  pub gateway_id : String
  pub lifecycle : String
  pub monitoring : Bool
  pub snapshot : Option Snapshot
  pub matrix_entry : String

pub record Tables : Type 0 where
  pub publications : List Publication
  pub vehicles : List (String × Target)
  pub entries : List (String × MapEntry)
  pub outbox : List Item

pub data MapError : Type 0 where
  no_publication no_map no_version wrong_vehicle no_vehicle not_admitted bad_lifecycle
        bad_snapshot :
      MapError
  no_frame frame_mismatch format_unknown not_in_matrix id_taken : MapError
  not_requested nothing_to_roll_back not_active no_random not_signed not_queued : MapError
  bad_ack wrong_identity not_applicable no_target : MapError

last_version : ℤ → List MapVersion → ℤ
last_version v [] = v
last_version v (x ∷ xs) = last_version x.version xs

unfoldable pub with_version : ℤ → List MapVersion → Option MapVersion
with_version v [] = none
with_version v (x ∷ xs) = if eqb_ℤ x.version v then some x else with_version v xs

unfoldable pub map_version_of : Option MapEntry → ℤ → Result MapError MapVersion
unfolding last_version with_version
map_version_of none version = err no_map
map_version_of (some e) version =
    or_fail
      (with_version (if leb_ℤ version (pos 0) then last_version version e.versions else version)
        e.versions)
      no_version

-- strings.TrimPrefix(value, ".")
without_dot : String → String
without_dot String.[] = String.[]
without_dot (String.◌∷◌ c s) = if str_eq (String.◌∷◌ c String.[]) "." then s else String.◌∷◌ c s

-- `to_lower` is strings.ToLower.
module _ (to_lower : String → String) where
  unfoldable pub normalize_map_format : String → String
  unfolding without_dot
  normalize_map_format value =
      let v = without_dot (to_lower (trim value)) in
      if str_eq v "3d_pcd"
      then "pcd"
      else if str_eq v "3d_csv"
      then "csv"
      else if str_eq v "2d_png" || str_eq v "pgm"
      then "png"
      else v

  unfoldable pub map_format_allowed : String → List String → Bool
  map_format_allowed kind formats =
      any (λ f. str_eq (normalize_map_format f) (normalize_map_format kind)) formats

  unfoldable pub map_publication_compatibility :
      MapEntry → MapVersion → String → Snapshot → String → Result MapError Compatibility
  map_publication_compatibility m v frame snapshot entry = do
    refuse_if (is_empty (trim frame)) no_frame
    refuse_if
        (not (is_empty snapshot.coordinate_frame) && not (str_eq snapshot.coordinate_frame frame))
        frame_mismatch
    refuse_if
        (length snapshot.map_formats == 0 || not (map_format_allowed v.kind snapshot.map_formats))
        format_unknown
    refuse_if (is_empty entry) not_in_matrix
    ok (record {
      map_id = m.id;
      map_version = v.version;
      kind = v.kind;
      content_sha256 = v.content_sha256;
      coordinate_frame = frame;
      entry = entry;
    })
