-- ===== src/Maps/Taken.antt =====
-- server/fleet/map_publication.go: the active rows, through an acknowledgement.
use manage_robot.Common.{
  ◌≡◌, refl, inl, inr, true, false, not, ◌||◌, some, List, String, str_eq, eq_iff, all, ℤ,
  Bool-cases, Option-cases, Result, ok, err, arith,
}
use manage_robot.Wire.Auth.{is_empty}
use manage_robot.Maps.Data.{State, confirmed, active, Publication, MapError}
use manage_robot.Maps.Ack.{
  AckResult, accepted, applied, refused, failed, unspecified, MapAck, is_active, is_rollback,
  find_publication, next_state, supersede, roll_back, reactivate, record_ack, result_name,
  apply_others, others_of, handle_map_publication_ack,
}
use manage_robot.Maps.Rows.{has_id, all-map_gives, find_publication-only, find_publication_id}
use manage_robot.Maps.Active.{
  OneActive, supersede-OneActive, roll_back-OneActive, reactivate-OneActive, record_ack-OneActive,
  record_active-OneActive, supersede-Only, roll_back-Only,
}

-- What an acknowledgement that is taken has found and done.
record Taken (vehicle : String) (ack : MapAck) (now at : ℤ) (ps ps' : List Publication)
    : Type 0 where
  row : Publication
  next : State
  rest : List Publication
  found : find_publication ack.publication_id ps ≡ some row
  owned : str_eq row.vehicle_id vehicle ≡ true
  moved : next_state row.state row.action ack.result ≡ ok next
  others : others_of ack.result at vehicle row ps ≡ ok rest
  done : ps' ≡ record_ack next ack (result_name ack.result) now rest

ack-Taken :
    (vehicle gateway : String) (ack : MapAck) (now at : ℤ) (ps ps' : List Publication)
    → handle_map_publication_ack vehicle gateway ack now at ps ≡ ok ps'
    → Taken vehicle ack now at ps ps'
unfolding handle_map_publication_ack
ack-Taken vehicle gateway ack now at ps ps' h =
    elim (Option-cases (find_publication ack.publication_id ps)) [
      | inl missing ↦ ground arith
      | inr (row, found) ↦
          moving row found (next_state row.state row.action ack.result) refl
            (others_of ack.result at vehicle row ps) refl
    ]
  where
    moving :
        (row : Publication)
        → find_publication ack.publication_id ps ≡ some row
        → (n : Result MapError State) → next_state row.state row.action ack.result ≡ n
        → (o : Result MapError (List Publication)) → others_of ack.result at vehicle row ps ≡ o
        → Taken vehicle ack now at ps ps'
    moving row found (err e) m o t = ground arith
    moving row found (ok next) m (err e) t = ground arith
    moving row found (ok next) m (ok rest) t = record {
      row = row;
      next = next;
      rest = rest;
      found = found;
      owned = ground arith;
      moved = m;
      others = t;
      done = ground arith;
    }

-- The other rows keep what is to be kept, and after the record too.
applied-OneActive :
    (vehicle : String) (ack : MapAck) (now at : ℤ) (ps ps' : List Publication)
    → ack.result ≡ applied
    → Taken vehicle ack now at ps ps'
    → OneActive ps
    → OneActive ps'
unfolding next_state apply_others supersede
applied-OneActive vehicle ack now at ps ps' r k one = elim (Bool-cases (is_rollback k.row.action)) [
  | inl back ↦
      let next : k.next ≡ confirmed = ground (arith, k.moved) in
      rw (k.done, next)
        (record_ack-OneActive confirmed ack (result_name ack.result) now k.rest refl (undone back))
  | inr forth ↦
      let id = ack.publication_id in
      let mine : k.row.id ≡ id =
        ground (arith, find_publication_id id ps k.row k.found, eq_iff k.row.id id) in
      let his : k.row.vehicle_id ≡ vehicle =
        ground (arith, k.owned, eq_iff k.row.vehicle_id vehicle) in
      let next : k.next ≡ active = ground (arith, k.moved) in
      let rest : k.rest ≡ supersede at vehicle k.row.id k.row.id ps = ground (arith, k.others) in
      rw (k.done, next, rest, mine)
        (record_active-OneActive ack (result_name ack.result) now vehicle
          (supersede at vehicle id id ps)
          (owned id (rw (← his) (find_publication-only id ps k.row (one.0 id) k.found)))
          (supersede-Only at vehicle id ps) (supersede-OneActive at vehicle id id ps one))
]
  where
    owned :
        (id : String)
        → all (λ q. not (has_id id q) || str_eq q.vehicle_id vehicle) ps ≡ true
        → all
            (λ q. not (has_id id q) || str_eq q.vehicle_id vehicle)
            (supersede at vehicle id id ps)
          ≡ true
    owned id h = all-map_gives _ _ _ ps (λ p t. ground arith) h

    undone : is_rollback k.row.action ≡ true → OneActive k.rest
    undone back = elim (Bool-cases (is_empty k.row.previous)) [
      | inl first ↦ let same : k.rest ≡ ps = ground (arith, k.others) in rw same one
      | inr later ↦
          let a = k.row.previous in
          let b = k.row.rollback_target in
          let rest : k.rest
              ≡ reactivate at vehicle b (roll_back at vehicle a (supersede at vehicle a b ps)) =
            ground (arith, k.others) in
          rw rest (
            reactivate-OneActive at vehicle b (roll_back at vehicle a (supersede at vehicle a b ps))
              (roll_back-OneActive at vehicle a (supersede at vehicle a b ps)
                (supersede-OneActive at vehicle a b ps one))
              (roll_back-Only at vehicle a b ps))
    ]

pub ack-OneActive :
    (vehicle gateway : String) (ack : MapAck) (now at : ℤ) (ps ps' : List Publication)
    → handle_map_publication_ack vehicle gateway ack now at ps ≡ ok ps'
    → OneActive ps
    → OneActive ps'
unfolding next_state
ack-OneActive vehicle gateway ack now at ps ps' h one =
    by_result ack.result refl (ack-Taken vehicle gateway ack now at ps ps' h)
  where
    quiet :
        (k : Taken vehicle ack now at ps ps')
        → is_active k.next ≡ false
        → k.rest ≡ ps
        → OneActive ps'
    quiet k idle same =
        rw (k.done, same) (record_ack-OneActive k.next ack (result_name ack.result) now ps idle one)

    by_result : (r : AckResult) → ack.result ≡ r → Taken vehicle ack now at ps ps' → OneActive ps'
    by_result accepted e k = quiet k (ground (arith, k.moved)) (ground (arith, k.others))
    by_result applied e k = applied-OneActive vehicle ack now at ps ps' e k one
    by_result refused e k = quiet k (ground (arith, k.moved)) (ground (arith, k.others))
    by_result failed e k = quiet k (ground (arith, k.moved)) (ground (arith, k.others))
    by_result unspecified e k = ground (arith, k.moved)
