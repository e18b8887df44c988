-- ===== src/Maps/Request.antt =====
-- server/fleet/map_publication.go: RequestMapPublication, RequestMapPublicationWithPrevious and
-- RollbackMapPublication.
use manage_robot.Common.{
  ℕ, Bool, false, not, ◌&&◌, ◌||◌, Option, none, some, List, [], ◌∷◌, String, str_eq, trim, any, ℤ,
  pos, leb_ℤ, if◌then◌else◌, get, Result, ok, ◌>>=◌, ◌>>◌, refuse_if, or_fail,
}
use manage_robot.Wire.Auth.{is_empty}
use manage_robot.Maps.Data.{
  requested, Action, rollback, Publication, MapVersion, MapEntry, Tables, MapError, no_publication,
  wrong_vehicle, nothing_to_roll_back, not_active, no_random, id_taken, map_version_of,
}
use manage_robot.Maps.Ack.{is_active, is_rollback, find_publication}

-- What the clocks and the random source give in one call; `none` is a failure of the source.
pub record Draws : Type 0 where
  pub now : ℤ
  pub db_now : ℤ
  pub monotonic : ℕ
  pub publication_id : Option String
  pub sequence : Option ℕ
  pub outbox_id : Option String

later_of : Option Publication → Publication → Option Publication
later_of none p = some p
later_of (some best) p = if leb_ℤ p.updated_ns best.updated_ns then some best else some p

-- SELECT id ... WHERE vehicle_id AND state='active' ORDER BY updated_at DESC LIMIT 1; empty for no row.
latest_active : String → Option Publication → List Publication → Option Publication
unfolding later_of
latest_active vehicle best [] = best
latest_active vehicle best (p ∷ ps) =
    latest_active vehicle
      (if str_eq p.vehicle_id vehicle && is_active p.state then later_of best p else best) ps

abbrev id_of : Option Publication → String
id_of none = ""
id_of (some p) = p.id

-- INSERT; the identifier is the primary key.
unfoldable pub insert_publication :
    Publication → List Publication → Result MapError (List Publication)
insert_publication p ps = do refuse_if (any (λ q. str_eq q.id p.id) ps) id_taken; ok (p ∷ ps)

unfoldable pub new_publication :
    String
    → String
    → MapVersion
    → String
    → Action
    → String
    → String
    → String
    → String
    → ℤ
    → Publication
new_publication id map_id v vehicle action previous target requested_by frame now = record {
  id = id;
  map_id = map_id;
  version = v.version;
  vehicle_id = vehicle;
  state = requested;
  action = action;
  compatibility = none;
  previous = previous;
  rollback_target = target;
  requested_by = requested_by;
  approved_by = "";
  content_sha256 = v.content_sha256;
  coordinate_frame = trim frame;
  ack_result = "";
  ack_detail = "";
  ack_ns = pos 0;
  updated_ns = now;
}

abbrev pub owned_by : String → Option MapEntry → Bool
owned_by vehicle none = false
owned_by vehicle (some e) = str_eq e.vehicle_id vehicle

unfoldable pub request_map_publication :
    Draws
    → String
    → String
    → ℤ
    → Action
    → String
    → String
    → Tables
    → Result MapError (Tables × Publication)
unfolding latest_active
request_map_publication t map_id vehicle version action frame requested_by db = do
  let entry = get map_id db.entries
  refuse_if (not (owned_by vehicle entry)) wrong_vehicle
  v ← map_version_of entry version
  id ← or_fail t.publication_id no_random
  let previous = id_of (latest_active vehicle none db.publications)
  refuse_if (is_rollback action && is_empty previous) nothing_to_roll_back
  let p = new_publication id map_id v vehicle action previous "" requested_by frame t.now
  rows ← insert_publication p db.publications
  ok (record db { publications = rows }, p)

unfoldable pub request_with_previous :
    Draws
    → String
    → String
    → ℤ
    → Action
    → String
    → String
    → String
    → String
    → Tables
    → Result MapError (Tables × Publication)
request_with_previous t map_id vehicle version action frame requested_by previous target db = do
  v ← map_version_of (get map_id db.entries) version
  id ← or_fail t.publication_id no_random
  let p = new_publication id map_id v vehicle action previous target requested_by frame t.now
  rows ← insert_publication p db.publications
  ok (record db { publications = rows }, p)

unfoldable pub rollback_map_publication :
    Draws → String → String → Tables → Result MapError (Tables × Publication)
rollback_map_publication t source_id actor db = do
  source ← or_fail (find_publication source_id db.publications) no_publication
  refuse_if (not (is_active source.state) || is_empty source.previous) not_active
  target ← or_fail (find_publication source.previous db.publications) no_publication
  request_with_previous t target.map_id target.vehicle_id target.version rollback
      target.coordinate_frame actor source.id target.id db
