-- ===== src/Authority/Revocation.antt =====
-- What a revocation guarantees, and what a renewal that comes too late leaves behind.
use manage_robot.Common.{
  ℕ, ◌+◌, ◌<◌, ◌≡◌, Bool, true, false, not, some, List, [], ◌∷◌, String, str_eq, eq_iff, All, trim,
  ◌+ℤ◌, ◌<ℤ◌, Result, ok, err, ◌⊎◌, is_err, refuse_if, ◌>>◌, arith,
}
use manage_robot.Wire.Codec.{Codec}
use manage_robot.Authority.Data.{
  revoked, Lease, Epoch, Db, Settings, Draws, AuthorityError, transact, authority_unavailable,
}
use manage_robot.Authority.Guards.{is_active, fencing_of, update_leases, find_lease}
use manage_robot.Authority.Operations.{
  mark_as, is_of_vehicle, emergency_stop_tx, emergency_stop, renew_tx, renew,
}
use manage_robot.Authority.Tables.{Inv, Bounded}
use manage_robot.Authority.Shapes.{emergency_stop_tx-shape}

-- A lease of another vehicle, or one that the revocation with token `n` of `vehicle` overtakes, and that is not active.
abbrev pub Overtaken : String → ℕ → Lease → Type 0
Overtaken vehicle n l =
    (str_eq l.vehicle_id vehicle ≡ false) ⊎ ((l.fencing < n) × (is_active l.state ≡ false))

revoke-All :
    (vehicle : String) (es : List Epoch) (ls : List Lease)
    → Bounded es ls
    → All
        (Overtaken vehicle (fencing_of vehicle es + 1))
        (update_leases (is_of_vehicle vehicle) (mark_as revoked "emergency_stop") ls)
unfolding update_leases
revoke-All vehicle es [] b = tt
revoke-All vehicle es (l ∷ ls) b =
    (ground (arith, eq_iff l.vehicle_id vehicle), revoke-All vehicle es ls b.1)

module _ {F : Type 0} (c : Codec F) (cfg : Settings) (t : Draws) (db : Db) where
  emergency_tx_overtakes :
      (db' : Db) (l : Lease) (vehicle actor : String)
      → Inv db
      → emergency_stop_tx c cfg t db vehicle actor ≡ ok (db', l)
      → All (Overtaken vehicle l.fencing) db'.leases
  emergency_tx_overtakes db' l vehicle actor v h =
      let s = emergency_stop_tx-shape c cfg t db db' l vehicle actor h in
      rw (s.2, s.1) (revoke-All vehicle db.epochs db.leases v.bounded)

  -- In tables that satisfy the invariant, after an emergency stop that succeeds every lease of the
  -- vehicle is inactive, and its token is below that of the lease that the revocation names.
  pub emergency_stop_overtakes :
      (db' : Db) (l : Lease) (vehicle actor : String)
      → Inv db
      → emergency_stop c cfg t db vehicle actor ≡ (db', ok l)
      → All (Overtaken (trim vehicle) l.fencing) db'.leases
  unfolding emergency_stop
  emergency_stop_overtakes db' l vehicle actor v h =
      emergency_tx_overtakes db' l (trim vehicle) actor v
        (stopped (emergency_stop_tx c cfg t db (trim vehicle) actor) cfg.ready h)
    where
      stopped :
          (r : Result AuthorityError (Db × Lease)) (ready : Bool)
          → transact db (refuse_if (not ready) authority_unavailable >> r) ≡ (db', ok l)
          → r ≡ ok (db', l)
      stopped (ok (d, k)) true e = cc
      stopped (ok (d, k)) false e = cc
      stopped (err x) true e = cc
      stopped (err x) false e = cc

  renew_late_tx :
      (l : Lease) (id driver device request_id : String)
      → find_lease id db.leases ≡ some l
      → (l.valid_until +ℤ cfg.grace) <ℤ t.now
      → is_err (renew_tx c cfg t db id driver device request_id) ≡ true
  unfolding renew_tx
  renew_late_tx l id driver device request_id found late = ground arith

  -- A renewal of a stored lease after its validity and the grace period fails, whoever asks, and leaves
  -- the tables as they were.
  pub renew_late :
      (l : Lease) (id driver device request_id : String)
      → find_lease id db.leases ≡ some l
      → (l.valid_until +ℤ cfg.grace) <ℤ t.now
      → let (db', result) = renew c cfg t db id driver device request_id in
        (db' ≡ db) × (is_err result ≡ true)
  unfolding renew
  renew_late l id driver device request_id found late =
      ground (arith, renew_late_tx l id driver device request_id found late)
