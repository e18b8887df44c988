-- ===== src/Maps/Unapproved.antt =====
-- server/fleet/map_publication.go: acknowledgements of a publication in any state.
use manage_robot.Common.{
  ◌≡◌, refl, subst, ◌∙◌, true, false, some, List, String, eq_iff, ◌==◌, ℤ, pos, ok, arith,
}
use manage_robot.Wire.Auth.{is_empty}
use manage_robot.Maps.Data.{State, confirmed, active, Publication}
use manage_robot.Maps.Ack.{
  MapAck, accepted, applied, is_rollback, may_apply, find_publication, next_state, apply_others,
  supersede, handle_map_publication_ack, record_ack, result_name,
}
use manage_robot.Maps.Rows.{find_publication_id, find_publication-map}

-- The acknowledgement names a publication of the vehicle.
abbrev pub Names : String → String → MapAck → Publication → Type 0
Names vehicle gateway ack p =
    (is_empty vehicle ≡ false)
    × (is_empty gateway ≡ false)
    × (is_empty ack.publication_id ≡ false)
    × (is_empty ack.map_id ≡ false)
    × (ack.vehicle_id ≡ vehicle)
    × ((ack.map_version == 0) ≡ false)
    × (p.map_id ≡ ack.map_id)
    × (p.vehicle_id ≡ vehicle)
    × (p.version ≡ pos ack.map_version)

accepted_ack :
    (vehicle gateway : String) (ack : MapAck) (now at : ℤ) (ps : List Publication) (p : Publication)
    → find_publication ack.publication_id ps ≡ some p
    → Names vehicle gateway ack p
    → ack.result ≡ accepted
    → handle_map_publication_ack vehicle gateway ack now at ps
      ≡ ok (record_ack confirmed ack (result_name ack.result) now ps)
unfolding handle_map_publication_ack next_state
accepted_ack vehicle gateway ack now at ps p found (a, b, c, d, e, f, g, h, i) r =
    ground (
      arith,
      eq_iff ack.vehicle_id vehicle,
      eq_iff p.map_id ack.map_id,
      eq_iff p.vehicle_id vehicle,
    )

applied_ack :
    (vehicle gateway : String) (ack : MapAck) (now at : ℤ) (ps : List Publication) (p : Publication)
    → find_publication ack.publication_id ps ≡ some p
    → Names vehicle gateway ack p
    → ack.result ≡ applied
    → may_apply p.state ≡ true
    → is_rollback p.action ≡ false
    → handle_map_publication_ack vehicle gateway ack now at ps
      ≡ ok (record_ack active ack (result_name ack.result) now (supersede at vehicle p.id p.id ps))
unfolding handle_map_publication_ack next_state apply_others
applied_ack vehicle gateway ack now at ps p found (a, b, c, d, e, f, g, h, i) r may forth =
    ground (
      arith,
      eq_iff ack.vehicle_id vehicle,
      eq_iff p.map_id ack.map_id,
      eq_iff p.vehicle_id vehicle,
    )

recorded :
    (next : State) (ack : MapAck) (name : String) (now : ℤ) (ps : List Publication)
    (p : Publication)
    → find_publication ack.publication_id ps ≡ some p
    → find_publication ack.publication_id (record_ack next ack name now ps)
      ≡ some (record p {
        state = next;
        ack_result = name;
        ack_detail = ack.detail;
        ack_ns = now;
        updated_ns = now;
      })
unfolding record_ack
recorded next ack name now ps p found =
    let own = find_publication_id ack.publication_id ps p found in
    find_publication-map _ ack.publication_id p ps (λ q. ground arith) found ∙ ground arith

superseded_kept :
    (at : ℤ) (v id k : String) (ps : List Publication) (p : Publication)
    → k ≡ id
    → find_publication id ps ≡ some p
    → find_publication id (supersede at v k k ps) ≡ some p
unfolding supersede
superseded_kept at v id k ps p same found =
    let own = find_publication_id id ps p found in
    find_publication-map _ id p ps (λ q. ground arith) found
    ∙ ground (arith, eq_iff p.id k, eq_iff p.id id)

-- A publication to apply a map, in whatever state, approved or not, becomes active through two
-- acknowledgements of its vehicle, one that it accepts the map and one that it has applied it; nobody's
-- approval is added.
pub unapproved_activated :
    (vehicle gateway : String) (first second : MapAck) (now now' at at' : ℤ) (ps : List Publication)
    (p : Publication)
    → find_publication first.publication_id ps ≡ some p
    → is_rollback p.action ≡ false
    → second.publication_id ≡ first.publication_id
    → Names vehicle gateway first p
    → Names vehicle gateway second p
    → first.result ≡ accepted
    → second.result ≡ applied
    → (ps' : List Publication) × (ps'' : List Publication) × (q : Publication)
      × (handle_map_publication_ack vehicle gateway first now at ps ≡ ok ps')
      × (handle_map_publication_ack vehicle gateway second now' at' ps' ≡ ok ps'')
      × (find_publication first.publication_id ps'' ≡ some q)
      × (q.state ≡ active)
      × (q.approved_by ≡ p.approved_by)
unapproved_activated vehicle gateway first second now now' at at' ps p found forth same n n' r r' =
    let ps' = record_ack confirmed first (result_name first.result) now ps in
    let p' = record p {
      state = confirmed;
      ack_result = result_name first.result;
      ack_detail = first.detail;
      ack_ns = now;
      updated_ns = now;
    } in
    let found' : find_publication second.publication_id ps' ≡ some p' =
      rw same (recorded confirmed first (result_name first.result) now ps p found) in
    let own : p.id ≡ second.publication_id = ground (
      arith,
      eq_iff p.id first.publication_id,
      find_publication_id first.publication_id ps p found,
    ) in
    let rest = supersede at' vehicle p.id p.id ps' in
    let kept : find_publication second.publication_id rest ≡ some p' =
      superseded_kept at' vehicle second.publication_id p.id ps' p' own found' in
    let rows = record_ack active second (result_name second.result) now' rest in
    let q = record p' {
      state = active;
      ack_result = result_name second.result;
      ack_detail = second.detail;
      ack_ns = now';
      updated_ns = now';
    } in
    (
      ps',
      record_ack active second (result_name second.result) now' rest,
      q,
      accepted_ack vehicle gateway first now at ps p found n r,
      applied_ack vehicle gateway second now' at' ps' p' found' n' r' refl forth,
      subst (λ k. find_publication k rows ≡ some q) same
          (recorded active second (result_name second.result) now' rest p' kept),
      refl,
      refl,
    )
