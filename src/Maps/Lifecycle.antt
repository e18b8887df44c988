-- ===== src/Maps/Lifecycle.antt =====
-- server/fleet/map_publication.go: the active rows, through every operation.
use manage_robot.Common.{
  ◌≤◌, ◌≡◌, refl, inl, inr, false, Option, List, [], ◌∷◌, String, str_eq, eq_iff, any, ℤ,
  Option-cases, if_cases, Result, ok, err, arith,
}
use manage_robot.Wire.Auth.{is_empty}
use manage_robot.Wire.Envelope.{Bytes}
use manage_robot.Wire.Codec.{Codec}
use manage_robot.Maps.Data.{Action, rollback, Compatibility, Publication, Tables, MapError}
use manage_robot.Maps.Ack.{
  MapAck, is_active, find_publication, handle_map_publication_ack, mark_map_publication_dispatched,
}
use manage_robot.Maps.Request.{
  Draws, insert_publication, new_publication, request_map_publication, request_with_previous,
  rollback_map_publication,
}
use manage_robot.Maps.Approve.{MapCommand, Review, review, approve_row, approve_map_publication}
use manage_robot.Maps.Flow.{
  Step, requests, rolls_back, approves, dispatches, acknowledges, requested_or, approved_or,
  acked_or, step, run,
}
use manage_robot.Maps.Rows.{count, has_id}
use manage_robot.Maps.Active.{OneActive, quiet-OneActive}
use manage_robot.Maps.Taken.{ack-OneActive}

absent :
    (id : String) (ps : List Publication)
    → any (λ q. str_eq q.id id) ps ≡ false
    → count (has_id id) ps ≤ 0
absent id [] h = omega arith
absent id (p ∷ ps) h = ground (arith, absent id ps)

insert-OneActive :
    (p : Publication) (ps ps' : List Publication)
    → insert_publication p ps ≡ ok ps'
    → is_active p.state ≡ false
    → OneActive ps
    → OneActive ps'
unfolding insert_publication
insert-OneActive p ps ps' h idle (ids, ones) =
    let e : ps' ≡ p ∷ ps = ground arith in
    rw e (
      (λ id. ground (arith, eq_iff p.id id, ids id, absent p.id ps)),
      (λ v. ground (arith, ones v)),
    )

-- A request that succeeds inserts a row that is not active.
abbrev Inserted : Tables → Tables → Publication → Type 0
Inserted db db' p =
    (insert_publication p db.publications ≡ ok db'.publications) × (is_active p.state ≡ false)

request_map_publication-Inserted :
    (t : Draws) (map_id vehicle : String) (version : ℤ) (a : Action) (frame by : String)
    (db db' : Tables) (p : Publication)
    → request_map_publication t map_id vehicle version a frame by db ≡ ok (db', p)
    → Inserted db db' p
unfolding request_map_publication new_publication
request_map_publication-Inserted t map_id vehicle version a frame by db db' p h = ground arith

request_with_previous-Inserted :
    (t : Draws) (map_id vehicle : String) (version : ℤ) (a : Action)
    (frame by previous target : String) (db db' : Tables) (p : Publication)
    → request_with_previous t map_id vehicle version a frame by previous target db ≡ ok (db', p)
    → Inserted db db' p
unfolding request_with_previous new_publication
request_with_previous-Inserted t map_id vehicle version a frame by previous target db db' p h =
    ground arith

rollback_map_publication-Inserted :
    (t : Draws) (source by : String) (db db' : Tables) (p : Publication)
    → rollback_map_publication t source by db ≡ ok (db', p)
    → Inserted db db' p
unfolding rollback_map_publication
rollback_map_publication-Inserted t source by db db' p h =
    elim (Option-cases (find_publication source db.publications)) [
      | inl missing ↦ ground arith
      | inr (s, found) ↦ elim (Option-cases (find_publication s.previous db.publications)) [
        | inl missing ↦ ground arith
        | inr (q, there) ↦
            request_with_previous-Inserted t q.map_id q.vehicle_id q.version rollback
              q.coordinate_frame by s.id q.id db db' p (ground arith)
      ]
    ]

requested-OneActive :
    (db : Tables) (r : Result MapError (Tables × Publication))
    → ((db' : Tables) (p : Publication) → r ≡ ok (db', p) → Inserted db db' p)
    → OneActive db.publications
    → OneActive (requested_or db r).publications
requested-OneActive db (err e) h one = one
requested-OneActive db (ok (db', p)) h one =
    let (rows, idle) = h db' p refl in
    insert-OneActive p db.publications db'.publications rows idle one

dispatch-OneActive :
    (at : ℤ) (id : String) (ps : List Publication)
    → OneActive ps
    → OneActive (mark_map_publication_dispatched at id ps)
unfolding mark_map_publication_dispatched
dispatch-OneActive at id ps one =
    if_cases OneActive (is_empty id) ps _ (λ e. one)
      (λ n. quiet-OneActive _ ps (λ p. ground arith) (λ p v h. ground arith) one)

approve_row-OneActive :
    (id approver : String) (compat : Compatibility) (sha : String) (now : ℤ) (ps : List Publication)
    → OneActive ps
    → OneActive (approve_row id approver compat sha now ps)
unfolding approve_row
approve_row-OneActive id approver compat sha now ps one =
    quiet-OneActive _ ps (λ p. ground arith) (λ p v h. ground arith) one

acked-OneActive :
    (vehicle gateway : String) (ack : MapAck) (now at : ℤ) (db : Tables)
    (r : Result MapError (List Publication))
    → handle_map_publication_ack vehicle gateway ack now at db.publications ≡ r
    → OneActive db.publications
    → OneActive (acked_or db r).publications
acked-OneActive vehicle gateway ack now at db (err e) h one = one
acked-OneActive vehicle gateway ack now at db (ok ps) h one =
    ack-OneActive vehicle gateway ack now at db.publications ps h one

module _ {F : Type 0} (c : Codec F) (marshal : MapCommand → Option Bytes)
    (to_lower : String → String) (key : Bytes) where
  -- An approval changes the row of its identifier, from the state of a request.
  approve_shape :
      (t : Draws) (id approver : String) (db db' : Tables)
      → approve_map_publication c marshal key to_lower t id approver db ≡ ok db'
      → (compat : Compatibility) × (sha : String) × (db'.publications
          ≡ approve_row id approver compat sha t.now db.publications)
  unfolding approve_map_publication
  approve_shape t id approver db db' h = reviewed (review to_lower id db) refl
    where
      reviewed :
          (r : Result MapError Review)
          → review to_lower id db ≡ r
          → (compat : Compatibility) × (sha : String) × (db'.publications
              ≡ approve_row id approver compat sha t.now db.publications)
      reviewed (err e) q = ground arith
      reviewed (ok r) q = (r.compat, r.version.content_sha256, ground arith)

  approved-OneActive :
      (t : Draws) (id approver : String) (db : Tables) (r : Result MapError Tables)
      → approve_map_publication c marshal key to_lower t id approver db ≡ r
      → OneActive db.publications
      → OneActive (approved_or db r).publications
  approved-OneActive t id approver db (err e) h one = one
  approved-OneActive t id approver db (ok db') h one =
      let (compat, sha, rows) = approve_shape t id approver db db' h in
      rw rows (approve_row-OneActive id approver compat sha t.now db.publications one)

  step-OneActive :
      (db : Tables) (e : Step)
      → OneActive db.publications
      → OneActive (step c marshal to_lower key db e).publications
  unfolding step
  step-OneActive db (requests t map_id vehicle version a frame by) one =
      requested-OneActive db _
        (λ db' p h. request_map_publication-Inserted t map_id vehicle version a frame by db db' p h)
        one
  step-OneActive db (rolls_back t source by) one =
      requested-OneActive db _ (λ db' p h. rollback_map_publication-Inserted t source by db db' p h)
        one
  step-OneActive db (approves t id by) one = approved-OneActive t id by db _ refl one
  step-OneActive db (dispatches at id) one = dispatch-OneActive at id db.publications one
  step-OneActive db (acknowledges vehicle gateway ack now at) one =
      acked-OneActive vehicle gateway ack now at db _ refl one

  -- When each identifier stands on at most one publication and each vehicle has at most one active
  -- publication, as in an empty table, that holds after every run of requests, rollbacks, approvals,
  -- dispatches and acknowledgements.
  pub run-OneActive :
      (db : Tables) (es : List Step)
      → OneActive db.publications
      → OneActive (run c marshal to_lower key db es).publications
  unfolding run
  run-OneActive db [] one = one
  run-OneActive db (e ∷ es) one =
      run-OneActive (step c marshal to_lower key db e) es (step-OneActive db e one)
