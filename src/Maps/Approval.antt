-- ===== src/Maps/Approval.antt =====
-- server/fleet/map_publication.go: what ApproveMapPublication asks of a request.
use manage_robot.Common.{
  ◌≡◌, refl, ◌⊎◌, inl, inr, true, false, ◌||◌, Option, none, some, List, [], ◌∷◌, String, str_eq,
  trim, ℤ, pos, ◌≤ℤ◌, get, Option-cases, Result, ok, err, arith,
}
use manage_robot.Wire.Auth.{is_empty}
use manage_robot.Wire.Envelope.{Bytes}
use manage_robot.Wire.Codec.{Codec}
use manage_robot.Maps.Data.{
  approved, Compatibility, Publication, Target, Snapshot, Tables, MapError, MapEntry, MapVersion,
  with_version, map_version_of, map_format_allowed, map_publication_compatibility,
}
use manage_robot.Maps.Ack.{find_publication}
use manage_robot.Maps.Request.{Draws}
use manage_robot.Maps.Approve.{
  MapCommand, Review, review, is_requested, load_map_publication_target, approve_row,
  approve_map_publication,
}
use manage_robot.Maps.Rows.{find_publication_id, find_publication-map}

-- The vehicle was in service and could use the version of the map that the request names.
pub record Fit (to_lower : String → String) (db : Tables) (id : String) (r : Review) : Type 0 where
  pub target : Target
  pub snapshot : Snapshot
  pub found : find_publication id db.publications ≡ some r.row
  pub state : is_requested r.row.state ≡ true
  pub version : map_version_of (get r.row.map_id db.entries) r.row.version ≡ ok r.version
  pub named : (r.row.version ≤ℤ pos 0) ⊎ (r.version.version ≡ r.row.version)
  pub vehicle : get r.row.vehicle_id db.vehicles ≡ some target
  pub gateway : is_empty target.gateway_id ≡ false
  pub monitoring : target.monitoring ≡ true
  pub in_service :
      (str_eq target.lifecycle "quarantined" || str_eq target.lifecycle "retired") ≡ false
  pub capabilities : target.snapshot ≡ some snapshot
  pub frame : is_empty (trim r.row.coordinate_frame) ≡ false
  pub same_frame :
      (is_empty snapshot.coordinate_frame
        || str_eq snapshot.coordinate_frame r.row.coordinate_frame)
      ≡ true
  pub format : map_format_allowed to_lower r.version.kind snapshot.map_formats ≡ true
  pub admitted : is_empty target.matrix_entry ≡ false
  pub addressed : r.gateway ≡ target.gateway_id

load_shape :
    (p : Publication) (vehicles : List (String × Target)) (gateway matrix : String) (s : Snapshot)
    → load_map_publication_target p vehicles ≡ ok (gateway, s, matrix)
    → (t : Target) × (get p.vehicle_id vehicles ≡ some t)
      × (is_empty t.gateway_id ≡ false)
      × (t.monitoring ≡ true)
      × ((str_eq t.lifecycle "quarantined" || str_eq t.lifecycle "retired") ≡ false)
      × (t.snapshot ≡ some s)
      × (t.matrix_entry ≡ matrix)
      × (gateway ≡ t.gateway_id)
unfolding load_map_publication_target
load_shape p vehicles gateway matrix s h = elim (Option-cases (get p.vehicle_id vehicles)) [
  | inl missing ↦ ground arith
  | inr (t, found) ↦
      (t, found, ground arith, ground arith, ground arith, ground arith, ground arith, ground arith)
]

with_version-version :
    (n : ℤ) (vs : List MapVersion) (v : MapVersion) → with_version n vs ≡ some v → v.version ≡ n
unfolding with_version
with_version-version n [] v h = absurd (ground arith)
with_version-version n (w ∷ vs) v h = ground (arith, with_version-version n vs v)

map_version_of-named :
    (o : Option MapEntry) (n : ℤ) (v : MapVersion)
    → map_version_of o n ≡ ok v
    → (n ≤ℤ pos 0) ⊎ (v.version ≡ n)
unfolding map_version_of
map_version_of-named none n v h = absurd (ground arith)
map_version_of-named (some e) n v h = ground (arith, with_version-version n e.versions v)

module _ (to_lower : String → String) (id : String) (db : Tables) where
  review-Fit : (r : Review) → review to_lower id db ≡ ok r → Fit to_lower db id r
  unfolding review map_publication_compatibility
  review-Fit r h = elim (Option-cases (find_publication id db.publications)) [
    | inl missing ↦ ground arith
    | inr (p, found) ↦ loaded p found (load_map_publication_target p db.vehicles) refl
  ]
    where
      loaded :
          (p : Publication)
          → find_publication id db.publications ≡ some p
          → (l : Result MapError (String × Snapshot × String))
          → load_map_publication_target p db.vehicles ≡ l
          → Fit to_lower db id r
      loaded p found (err e) q = ground arith
      loaded p found (ok (gateway, s, matrix)) q =
          let (t, there, gated, monitored, serving, able, entry, way) =
            load_shape p db.vehicles gateway matrix s q in
          let own : r.row ≡ p = ground arith in
          let chosen : map_version_of (get r.row.map_id db.entries) r.row.version ≡ ok r.version =
            ground arith in
          record {
            target = t;
            snapshot = s;
            found = ground arith;
            state = ground arith;
            version = chosen;
            named = map_version_of-named _ _ _ chosen;
            vehicle = rw own there;
            gateway = gated;
            monitoring = monitored;
            in_service = serving;
            capabilities = able;
            frame = ground arith;
            same_frame = ground arith;
            format = ground arith;
            admitted = ground arith;
            addressed = ground arith;
          }

-- The row that an approval leaves, with what was reviewed.
pub record Approved (id approver : String) (r : Review) (db : Tables) (q : Publication)
    : Type 0 where
  pub found : find_publication id db.publications ≡ some q
  pub state : q.state ≡ approved
  pub by : q.approved_by ≡ approver
  pub version : q.version ≡ r.row.version
  pub vehicle : q.vehicle_id ≡ r.row.vehicle_id
  pub content : q.content_sha256 ≡ r.version.content_sha256
  pub compatibility : q.compatibility ≡ some r.compat

approve_row_found :
    (id approver : String) (compat : Compatibility) (sha : String) (now : ℤ) (p : Publication)
    (ps : List Publication)
    → find_publication id ps ≡ some p
    → (q : Publication) × (find_publication id (approve_row id approver compat sha now ps) ≡ some q)
      × (q.state ≡ approved)
      × (q.approved_by ≡ approver)
      × (q.version ≡ p.version)
      × (q.vehicle_id ≡ p.vehicle_id)
      × (q.content_sha256 ≡ sha)
      × (q.compatibility ≡ some compat)
unfolding approve_row
approve_row_found id approver compat sha now p ps found =
    let own = find_publication_id id ps p found in
    let there = find_publication-map _ id p ps (λ q. ground arith) found in
    (_, there, ground arith, ground arith, ground arith, ground arith, ground arith, ground arith)

module _ {F : Type 0} (c : Codec F) (marshal : MapCommand → Option Bytes) (key : Bytes)
    (to_lower : String → String) where
  -- An approval that succeeds found a request of that identifier, a vehicle that is monitored and in
  -- service, and the map's version that the request names (the latest where it names none), which the
  -- vehicle can use in the request's frame; and it leaves the publication approved under the
  -- approver's name, with that version's content.
  pub approve_map_publication-Fit :
      (t : Draws) (id approver : String) (db db' : Tables)
      → approve_map_publication c marshal key to_lower t id approver db ≡ ok db'
      → (r : Review) × Fit to_lower db id r × (q : Publication) × Approved id approver r db' q
  unfolding approve_map_publication
  approve_map_publication-Fit t id approver db db' h = reviewed (review to_lower id db) refl
    where
      reviewed :
          (r : Result MapError Review)
          → review to_lower id db ≡ r
          → (r : Review) × Fit to_lower db id r × (q : Publication) × Approved id approver r db' q
      reviewed (err e) q = ground arith
      reviewed (ok r) q =
          let fit = review-Fit to_lower id db r q in
          let rows : db'.publications
              ≡ approve_row id approver r.compat r.version.content_sha256 t.now db.publications =
            ground arith in
          let (row, there, state, by, version, vehicle, content, compat) =
            approve_row_found id approver r.compat r.version.content_sha256 t.now r.row
              db.publications fit.found in
          (
            r,
            fit,
            row,
            record {
              found = rw rows there;
              state = state;
              by = by;
              version = version;
              vehicle = vehicle;
              content = content;
              compatibility = compat;
            },
          )
