-- ===== src/Authority/Invariant.antt =====
-- The authority's tables over any sequence of its transactions.
use Prim.Native.String.{len}
use manage_robot.Common.{
  ltb, not, ℕ, suc, ◌+◌, ◌≤◌, ◌<◌, ◌≡◌, refl, sym, subst, Bool, true, false, Option, none, some,
  List, [], ◌∷◌, String, All, any, ◌⊎◌, inl, inr, trim, Result, ok, err, refuse_if, ◌>>◌, ◌>>=◌,
  arith,
}
use manage_robot.Wire.Envelope.{grant}
use manage_robot.Wire.Codec.{Codec}
use manage_robot.Authority.Data.{
  released, revoked, expired, Lease, Epoch, Db, Settings, Draws, AuthorityError, transact,
  authority_unavailable, short_request_id,
}
use manage_robot.Authority.Guards.{fencing_of, set_epoch, update_leases, collides}
use manage_robot.Authority.Operations.{
  expire_leases, mark_as, prolong, is_run_out, issue, request_tx, renew_tx, release_tx,
  emergency_stop_tx, request, renew, release, emergency_stop, Call, requests, renews, releases,
  stops, step, run,
}
use manage_robot.Authority.Tables.{
  Inv, Bounded, Apart, rivals, twins, IsMild, fencing_of-set_epoch, fencing_of-le-set_epoch,
  Bounded-set_epoch, update_leases-Bounded, update_leases-exclusive, update_leases-distinct,
  collides-rivals, fresh_token,
}
use manage_robot.Authority.Shapes.{
  publish_grant_tx-SameControl, request_tx-shape, renew_tx-shape, release_tx-shape,
  emergency_stop_tx-shape,
}

expired-IsMild : IsMild (mark_as expired "expired")
expired-IsMild = record {
  vehicle = λ l. refl;
  driver = λ l. refl;
  fencing = λ l. refl;
  state = λ l h. cc;
}

released-IsMild : (reason : String) → IsMild (mark_as released reason)
released-IsMild reason = record {
  vehicle = λ l. refl;
  driver = λ l. refl;
  fencing = λ l. refl;
  state = λ l h. cc;
}

revoked-IsMild : (reason : String) → IsMild (mark_as revoked reason)
revoked-IsMild reason = record {
  vehicle = λ l. refl;
  driver = λ l. refl;
  fencing = λ l. refl;
  state = λ l h. cc;
}

prolong-IsMild : (until : _) → IsMild (prolong until)
prolong-IsMild until = record {
  vehicle = λ l. refl;
  driver = λ l. refl;
  fencing = λ l. refl;
  state = λ l h. h;
}

-- The invariant of the two tables alone.
abbrev Holds : List Epoch → List Lease → Type 0
Holds es ls = Bounded es ls × Apart rivals ls × Apart twins ls

Holds-update :
    (test : Lease → Bool) (change : Lease → Lease) (es : List Epoch) (ls : List Lease)
    → IsMild change
    → Holds es ls
    → Holds es (update_leases test change ls)
Holds-update test change es ls mild h = (
  update_leases-Bounded test change mild es ls h.0,
  update_leases-exclusive test change mild ls h.1,
  update_leases-distinct test change mild ls h.2,
)

Holds-set_epoch :
    (v : String) (n : ℕ) (o : Option String) (es : List Epoch) (ls : List Lease)
    → fencing_of v es ≤ n
    → Holds es ls
    → Holds (set_epoch v n o es) ls
Holds-set_epoch v n o es ls le h = (Bounded-set_epoch v n o es ls le h.0, h.1, h.2)

Holds-Inv :
    (db : Db) (es : List Epoch) (ls : List Lease)
    → db.leases ≡ ls
    → db.epochs ≡ es
    → Holds es ls
    → Inv db
Holds-Inv db es ls p q h = record {
  bounded = rw (p, q) h.0;
  exclusive = rw p h.1;
  distinct = rw p h.2;
}

-- A lease above its vehicle's token that collides with none joins the tables.
Holds-insert :
    (l : Lease) (o : Option String) (es : List Epoch) (ls : List Lease)
    → fencing_of l.vehicle_id es < l.fencing
    → any (collides l) ls ≡ false
    → Holds es ls
    → Holds (set_epoch l.vehicle_id l.fencing o es) (l ∷ ls)
Holds-insert l o es ls lt free h =
    let up = Holds-set_epoch l.vehicle_id l.fencing o es ls (omega arith) h in
    (
      (
        ground (
          arith,
          fencing_of-set_epoch l.vehicle_id l.vehicle_id l.fencing o es,
          manage_robot.Common.eq_iff l.vehicle_id l.vehicle_id,
        ),
        up.0,
      ),
      (collides-rivals l ls free, up.1),
      (fresh_token l es ls lt h.0, up.2),
    )

module _ {F : Type 0} (c : Codec F) (cfg : Settings) (t : Draws) (db db' : Db) (l : Lease) where
  request_tx-Inv :
      (driver device vehicle : String)
      → Inv db
      → request_tx c cfg t db driver device vehicle ≡ ok (db', l)
      → Inv db'
  unfolding issue expire_leases
  request_tx-Inv driver device vehicle v h =
      let s = request_tx-shape c cfg t db db' l driver device vehicle h in
      let leases = expire_leases vehicle t.db_now db.leases in
      let same = publish_grant_tx-SameControl c cfg t (issue db leases l) db' l grant s.4 in
      Holds-Inv db' _ _ same.0 same.1 (
        Holds-insert l (some l.lease_id) db.epochs leases (rw (s.0, s.2) (omega arith)) s.3 (
          Holds-update (is_run_out vehicle t.db_now) (mark_as expired "expired") db.epochs db.leases
            expired-IsMild (v.bounded, v.exclusive, v.distinct)))

  release_tx-Inv :
      (id driver device reason : String)
      → Inv db
      → release_tx c cfg t db id driver device reason ≡ ok (db', l)
      → Inv db'
  release_tx-Inv id driver device reason v h =
      let s = release_tx-shape c cfg t db db' l id driver device reason h in
      Holds-Inv db' _ _ s.4 s.5 (
        Holds-set_epoch s.0.vehicle_id l.fencing none db.epochs _ (rw (s.3) (omega arith)) (
          Holds-update _ _ db.epochs db.leases (released-IsMild reason)
            (v.bounded, v.exclusive, v.distinct)))

  emergency_stop_tx-Inv :
      (vehicle actor : String)
      → Inv db
      → emergency_stop_tx c cfg t db vehicle actor ≡ ok (db', l)
      → Inv db'
  emergency_stop_tx-Inv vehicle actor v h =
      let s = emergency_stop_tx-shape c cfg t db db' l vehicle actor h in
      Holds-Inv db' _ _ s.2 s.3 (
        Holds-set_epoch vehicle l.fencing none db.epochs _ (rw (s.1) (omega arith)) (
          Holds-update _ _ db.epochs db.leases (revoked-IsMild "emergency_stop")
            (v.bounded, v.exclusive, v.distinct)))

  renew_tx-Inv :
      (id driver device request_id : String)
      → Inv db
      → renew_tx c cfg t db id driver device request_id ≡ ok (db', l)
      → Inv db'
  renew_tx-Inv id driver device request_id v h =
      let s = renew_tx-shape c cfg t db db' l id driver device request_id h in
      let old : Holds db.epochs db.leases = (v.bounded, v.exclusive, v.distinct) in
      elim s.1 [
        | inl e ↦ Holds-Inv db' _ _ e s.0 old
        | inr e ↦
            Holds-Inv db' _ _ e s.0
              (Holds-update _ _ db.epochs db.leases (prolong-IsMild l.valid_until) old)
      ]

-- A transaction that refuses leaves the tables; so what every commit keeps, every call keeps.
transact_rule {ℓ} :
    {A : Type 0} (P : Db → Type ℓ) (db : Db) (r : Result AuthorityError (Db × A))
    → P db
    → ((db' : Db) (a : A) → r ≡ ok (db', a) → P db')
    → P (transact db r).0
transact_rule P db (ok (db', a)) h k = k db' a refl
transact_rule P db (err e) h k = h

guarded :
    {A : Type 0} (b : Bool) (e : AuthorityError) (m : Result AuthorityError A) {a : A}
    → (refuse_if b e >> m) ≡ ok a
    → m ≡ ok a
guarded true e m h = cc
guarded false e m h = h

module _ {F : Type 0} (c : Codec F) (cfg : Settings) where
  step_rule {ℓ} :
      (P : Db → Type ℓ) (db : Db)
      → P db
      → ((t : Draws) (db' : Db) (l : Lease) (driver device vehicle : String)
          → request_tx c cfg t db driver device vehicle ≡ ok (db', l)
          → P db')
      → ((t : Draws) (db' : Db) (l : Lease) (id driver device request_id : String)
          → renew_tx c cfg t db id driver device request_id ≡ ok (db', l)
          → P db')
      → ((t : Draws) (db' : Db) (l : Lease) (id driver device reason : String)
          → release_tx c cfg t db id driver device reason ≡ ok (db', l)
          → P db')
      → ((t : Draws) (db' : Db) (l : Lease) (vehicle actor : String)
          → emergency_stop_tx c cfg t db vehicle actor ≡ ok (db', l)
          → P db')
      → (call : Draws × Call) → P (step c cfg db call)
  unfolding step request renew release emergency_stop
  step_rule P db h k1 k2 k3 k4 (t, requests driver device vehicle) =
      let body = request_tx c cfg t db (trim driver) (trim device) (trim vehicle) in
      transact_rule P db (refuse_if (not cfg.ready) authority_unavailable >> body) h (λ db' l e.
        k1 t db' l (trim driver) (trim device) (trim vehicle)
          (guarded (not cfg.ready) authority_unavailable body e))
  step_rule P db h k1 k2 k3 k4 (t, renews id driver device req) =
      let body = renew_tx c cfg t db id driver device req in
      let short = ltb (len (trim req)) 16 in
      let rest = refuse_if short short_request_id >> body in
      transact_rule P db (refuse_if (not cfg.ready) authority_unavailable >> rest) h (λ db' l e.
        k2 t db' l id driver device req (
          guarded short short_request_id body
            (guarded (not cfg.ready) authority_unavailable rest e)))
  step_rule P db h k1 k2 k3 k4 (t, releases id driver device reason) =
      let body = release_tx c cfg t db id driver device reason in
      transact_rule P db (refuse_if (not cfg.ready) authority_unavailable >> body) h (λ db' l e.
        k3 t db' l id driver device reason (guarded (not cfg.ready) authority_unavailable body e))
  step_rule P db h k1 k2 k3 k4 (t, stops vehicle actor) =
      let body = emergency_stop_tx c cfg t db (trim vehicle) actor in
      transact_rule P db (refuse_if (not cfg.ready) authority_unavailable >> body) h (λ db' l e.
        k4 t db' l (trim vehicle) actor (guarded (not cfg.ready) authority_unavailable body e))

  step-Inv : (db : Db) (call : Draws × Call) → Inv db → Inv (step c cfg db call)
  step-Inv db call v =
      step_rule Inv db v (λ t db' l x y z h. request_tx-Inv c cfg t db db' l x y z v h)
        (λ t db' l x y z w h. renew_tx-Inv c cfg t db db' l x y z w v h)
        (λ t db' l x y z w h. release_tx-Inv c cfg t db db' l x y z w v h)
        (λ t db' l x y h. emergency_stop_tx-Inv c cfg t db db' l x y v h) call

  -- The invariant holds after any sequence of takeover requests, renewals, releases and emergency stops
  -- if it held before: no vehicle and no driver has two active leases, no two leases of a vehicle share
  -- a fencing token, and none has a token above the vehicle's epoch.
  pub run-Inv : (db : Db) (calls : List (Draws × Call)) → Inv db → Inv (run c cfg db calls)
  unfolding run
  run-Inv db [] v = v
  run-Inv db (call ∷ calls) v = run-Inv (step c cfg db call) calls (step-Inv db call v)

  step-fencing_of :
      (v : String) (db : Db) (call : Draws × Call)
      → fencing_of v db.epochs ≤ fencing_of v (step c cfg db call).epochs
  unfolding issue expire_leases
  step-fencing_of v db call =
      step_rule (λ d. fencing_of v db.epochs ≤ fencing_of v d.epochs) db (omega arith)
        (λ t db' l x y z h.
          let s = request_tx-shape c cfg t db db' l x y z h in
          let leases = expire_leases z t.db_now db.leases in
          let same = publish_grant_tx-SameControl c cfg t (issue db leases l) db' l grant s.4 in
          rw (same.1) (
            fencing_of-le-set_epoch l.vehicle_id v l.fencing (some l.lease_id) db.epochs
              (rw (s.0, s.2) (omega arith))))
        (λ t db' l x y z w h. rw ((renew_tx-shape c cfg t db db' l x y z w h).0) (omega arith))
        (λ t db' l x y z w h.
          let s = release_tx-shape c cfg t db db' l x y z w h in
          rw (s.5) (
            fencing_of-le-set_epoch s.0.vehicle_id v l.fencing none db.epochs (omega (arith, s.3))))
        (λ t db' l x y h.
          let s = emergency_stop_tx-shape c cfg t db db' l x y h in
          rw (s.3) (fencing_of-le-set_epoch x v l.fencing none db.epochs (omega (arith, s.1))))
        call

  -- Over any sequence of calls a vehicle's fencing token in the tables never falls.
  pub run-fencing_of :
      (v : String) (db : Db) (calls : List (Draws × Call))
      → fencing_of v db.epochs ≤ fencing_of v (run c cfg db calls).epochs
  unfolding run
  run-fencing_of v db [] = omega arith
  run-fencing_of v db (call ∷ calls) =
      omega (arith, step-fencing_of v db call, run-fencing_of v (step c cfg db call) calls)
