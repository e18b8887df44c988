-- ===== src/Authority/Shapes.antt =====
-- What a transaction that commits leaves in the tables.
use manage_robot.Common.{
  ◌+◌, ◌≡◌, false, none, some, Option-cases, ◌⊎◌, inl, inr, String, any, ok, arith,
}
use manage_robot.Wire.Envelope.{LeaseAction, grant}
use manage_robot.Wire.Codec.{Codec}
use manage_robot.Authority.Data.{released, revoked, Lease, Db, Settings, Draws}
use manage_robot.Authority.Guards.{fencing_of, set_epoch, update_leases, collides, find_lease}
use manage_robot.Authority.Publish.{publish_grant_tx}
use manage_robot.Authority.Operations.{
  expire_leases, issue, retire, is_lease, is_of_vehicle, new_lease, request_tx, renew_tx, mark_as,
  prolong, closing, release_tx, emergency_stop_tx,
}

-- The tables hold the same leases and tokens.
abbrev pub SameControl : Db → Db → Type 0
SameControl a b = (a.leases ≡ b.leases) × (a.epochs ≡ b.epochs)

module _ {F : Type 0} (c : Codec F) (cfg : Settings) (t : Draws) (db db' : Db) where
  pub publish_grant_tx-SameControl :
      (l : Lease) (action : LeaseAction)
      → publish_grant_tx c cfg t db l action ≡ ok db'
      → SameControl db' db
  unfolding publish_grant_tx
  publish_grant_tx-SameControl l action h = ground arith

module _ {F : Type 0} (c : Codec F) (cfg : Settings) (t : Draws) (db db' : Db) (l : Lease) where
  pub request_tx-shape :
      (driver device vehicle : String)
      → request_tx c cfg t db driver device vehicle ≡ ok (db', l)
      → let leases = expire_leases vehicle t.db_now db.leases in
        (l.vehicle_id ≡ vehicle)
        × (l.driver_id ≡ driver)
        × (l.fencing ≡ fencing_of vehicle db.epochs + 1)
        × (any (collides l) leases ≡ false)
        × (publish_grant_tx c cfg t (issue db leases l) l grant ≡ ok db')
  unfolding request_tx new_lease
  request_tx-shape driver device vehicle h = ground arith

  pub release_tx-shape :
      (id driver device reason : String)
      → release_tx c cfg t db id driver device reason ≡ ok (db', l)
      → (k : Lease) × (find_lease id db.leases ≡ some k)
        × (l.vehicle_id ≡ k.vehicle_id)
        × (l.fencing ≡ fencing_of k.vehicle_id db.epochs + 1)
        × (db'.leases ≡ update_leases (is_lease id) (mark_as released reason) db.leases)
        × (db'.epochs ≡ set_epoch k.vehicle_id l.fencing none db.epochs)
  unfolding release_tx closing retire publish_grant_tx
  release_tx-shape id driver device reason h = elim (Option-cases (find_lease id db.leases)) [
    | inl e ↦ absurd (ground arith)
    | inr (k, e) ↦ (k, e, ground arith, ground arith, ground arith, ground arith)
  ]

  pub emergency_stop_tx-shape :
      (vehicle actor : String)
      → emergency_stop_tx c cfg t db vehicle actor ≡ ok (db', l)
      → (l.vehicle_id ≡ vehicle)
        × (l.fencing ≡ fencing_of vehicle db.epochs + 1)
        × (db'.leases
            ≡ update_leases (is_of_vehicle vehicle) (mark_as revoked "emergency_stop") db.leases)
        × (db'.epochs ≡ set_epoch vehicle l.fencing none db.epochs)
  unfolding emergency_stop_tx closing retire new_lease publish_grant_tx
  emergency_stop_tx-shape vehicle actor h = ground arith

  pub renew_tx-shape :
      (id driver device request_id : String)
      → renew_tx c cfg t db id driver device request_id ≡ ok (db', l)
      → (db'.epochs ≡ db.epochs)
        × ((db'.leases ≡ db.leases)
            ⊎ (db'.leases ≡ update_leases (is_lease l.lease_id) (prolong l.valid_until) db.leases))
  unfolding renew_tx publish_grant_tx
  renew_tx-shape id driver device request_id h = ground arith
