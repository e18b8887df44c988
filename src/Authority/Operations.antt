-- ===== src/Authority/Operations.antt =====
-- server/fleet/durable_authority.go: Request, Renew, Release and EmergencyStop. Each is one
-- serializable transaction, so the operations follow one another; `Draws` holds what it reads from
-- outside the tables. A failure of PostgreSQL itself is one more return before the commit, and is
-- left out; so are the operator's screen (`reflect`) and the wake-up of the outbox worker.
use Prim.Native.String.{len}
use manage_robot.Common.{
  ℕ, ◌+◌, Bool, not, ◌&&◌, ◌||◌, Option, none, some, List, [], ◌∷◌, String, str_eq, trim,
  if◌then◌else◌, ltb, any, ℤ, pos, ltb_ℤ, leb_ℤ, ◌+ℤ◌, ◌-ℤ◌, Result, ok, ◌>>=◌, ◌>>◌, refuse_if,
  or_fail,
}
use manage_robot.Wire.Envelope.{grant, revoke}
use manage_robot.Wire.Codec.{Codec}
use manage_robot.Wire.Auth.{is_empty}
use manage_robot.Authority.Data.{
  LeaseState, active, released, expired, revoked, Lease, Renewal, Audit, AuditKind, lease_issued,
  lease_renewed, lease_released, emergency_stopped, Db, AuthorityError, authority_unavailable,
  lease_busy, lease_expired, missing_ids, no_gateway, driver_busy, constraint_violated, no_lease,
  not_owner, short_request_id, not_active, no_random, Settings, Draws, Tx, transact,
}
use manage_robot.Authority.Guards.{
  is_active, is_held, bound_gateway, require_vehicle_live, require_control_capability, has_epoch,
  fencing_of, set_epoch, find_lease, update_leases, driver_vehicle, is_elsewhere, collides,
}
use manage_robot.Authority.Publish.{publish_grant_tx}

abbrev pub mark_as : LeaseState → String → Lease → Lease
mark_as state reason l = record l { state = state; release_reason = reason }

abbrev pub prolong : ℤ → Lease → Lease
prolong until l = record l { valid_until = until }

abbrev pub is_run_out : String → ℤ → Lease → Bool
is_run_out vehicle now l =
    str_eq l.vehicle_id vehicle && is_active l.state && leb_ℤ l.valid_until now

-- UPDATE control_leases SET state='expired' WHERE vehicle_id=… AND state='active' AND valid_until <= now()
unfoldable pub expire_leases : String → ℤ → List Lease → List Lease
expire_leases vehicle now = update_leases (is_run_out vehicle now) (mark_as expired "expired")

abbrev pub audit_of : Lease → String → AuditKind → ℕ → Audit
audit_of l actor kind n = record {
  vehicle_id = l.vehicle_id;
  gateway_id = l.gateway_id;
  lease_id = l.lease_id;
  actor = actor;
  kind = kind;
  fencing = n;
}

-- The tables after the INSERT of a lease, the new epoch and the audit event.
unfoldable pub issue : Db → List Lease → Lease → Db
issue db leases l = record db {
  leases = l ∷ leases;
  epochs = set_epoch l.vehicle_id l.fencing (some l.lease_id) db.epochs;
  audit = audit_of l l.driver_id lease_issued l.fencing ∷ db.audit;
}

unfoldable pub retire : Db → Lease → LeaseState → (Lease → Bool) → String → ℕ → Db
retire db l state test reason n = record db {
  leases = update_leases test (mark_as state reason) db.leases;
  epochs = set_epoch l.vehicle_id n none db.epochs;
}

abbrev pub is_lease : String → Lease → Bool
is_lease id l = str_eq l.lease_id id && is_active l.state

abbrev pub is_of_vehicle : String → Lease → Bool
is_of_vehicle vehicle l = str_eq l.vehicle_id vehicle && is_active l.state

pub find_renewal : String → String → List Renewal → Option ℤ
find_renewal lease request [] = none
find_renewal lease request (r ∷ rs) =
    if str_eq r.lease_id lease && str_eq r.request_id request
    then some r.valid_until
    else find_renewal lease request rs

module _ {F : Type 0} (c : Codec F) (cfg : Settings) (t : Draws) (db : Db) where
  unfoldable pub new_lease : String → String → String → String → String → ℕ → Lease
  new_lease id vehicle gateway driver device fencing = record {
    lease_id = id;
    vehicle_id = vehicle;
    gateway_id = gateway;
    driver_id = driver;
    device_id = device;
    fencing = fencing;
    state = active;
    issued_at = t.now;
    valid_until = t.now +ℤ cfg.lease_ttl;
    release_reason = "";
  }

  unfoldable pub request_tx : String → String → String → Result AuthorityError (Db × Lease)
  request_tx driver device vehicle = do
    refuse_if (is_empty driver || is_empty device || is_empty vehicle) missing_ids
    gateway ← or_fail (bound_gateway vehicle t.db_now db.gateways) no_gateway
    require_vehicle_live db vehicle t.now
    require_control_capability db vehicle gateway.gateway_id
    let leases = expire_leases vehicle t.db_now db.leases
    refuse_if (any (λ l. str_eq l.vehicle_id vehicle && is_held l t.db_now) leases) lease_busy
    refuse_if (is_elsewhere (driver_vehicle driver t.db_now leases) vehicle) driver_busy
    id ← or_fail t.lease_id no_random
    let l = new_lease id vehicle gateway.gateway_id driver device (fencing_of vehicle db.epochs + 1)
    refuse_if (any (collides l) leases) constraint_violated
    db' ← publish_grant_tx c cfg t (issue db leases l) l grant
    ok (db', l)

  unfoldable pub request : String → String → String → Tx Lease
  request driver device vehicle = transact db do
    refuse_if (not cfg.ready) authority_unavailable
    request_tx (trim driver) (trim device) (trim vehicle)

  renewed : Lease → String → Result AuthorityError (Db × Lease)
  renewed l request_id =
      let until = t.now +ℤ cfg.lease_ttl in
      let l' = record l { valid_until = until } in
      do
        db' ←
            publish_grant_tx c cfg t
              (record db {
                leases = update_leases (is_lease l.lease_id) (prolong until) db.leases;
                renewals =
                    record { lease_id = l.lease_id; request_id = request_id; valid_until = until }
                    ∷ db.renewals;
                audit = audit_of l l.driver_id lease_renewed l.fencing ∷ db.audit;
              })
              l' grant
        ok (db', l')

  -- A request that was already answered is answered the same, and changes no lease.
  renew_saved : Option ℤ → Lease → String → Result AuthorityError (Db × Lease)
  unfolding renewed
  renew_saved none l request_id = renewed l request_id
  renew_saved (some until) l request_id = do
    let l' = record l { valid_until = until }
    db' ← publish_grant_tx c cfg t db l' grant
    ok (db', l')

  -- The UPDATE that marks a late lease expired stands before an error return, and is rolled back.
  unfoldable pub renew_tx : String → String → String → String → Result AuthorityError (Db × Lease)
  unfolding renew_saved
  renew_tx lease_id driver device request_id = do
    l ← or_fail (find_lease lease_id db.leases) no_lease
    refuse_if (not (str_eq l.driver_id driver) || not (str_eq l.device_id device)) not_owner
    require_control_capability db l.vehicle_id l.gateway_id
    require_vehicle_live db l.vehicle_id t.now
    refuse_if (not (is_active l.state) || ltb_ℤ (l.valid_until +ℤ cfg.grace) t.now) lease_expired
    renew_saved (find_renewal lease_id request_id db.renewals) l request_id

  unfoldable pub renew : String → String → String → String → Tx Lease
  renew lease_id driver device request_id = transact db do
    refuse_if (not cfg.ready) authority_unavailable
    refuse_if (ltb (len (trim request_id)) 16) short_request_id
    renew_tx lease_id driver device request_id

  -- The lease as the revocation names it: a new fencing token, and a validity that is over.
  unfoldable pub closing : Lease → ℕ → Lease
  closing l n = record l { fencing = n; valid_until = t.now -ℤ pos 1000000000 }

  unfoldable pub release_tx : String → String → String → String → Result AuthorityError (Db × Lease)
  release_tx lease_id driver device reason = do
    l ← or_fail (find_lease lease_id db.leases) no_lease
    refuse_if (not (str_eq l.driver_id driver) || not (str_eq l.device_id device)) not_owner
    refuse_if (not (has_epoch l.vehicle_id db.epochs)) no_lease
    let n = fencing_of l.vehicle_id db.epochs + 1
    refuse_if (not (any (is_lease lease_id) db.leases)) not_active
    let after = retire db l released (is_lease lease_id) reason n
    db' ←
        publish_grant_tx c cfg t
          (record after { audit = audit_of l driver lease_released n ∷ after.audit }) (closing l n)
          revoke
    ok (db', closing l n)

  unfoldable pub release : String → String → String → String → Tx Lease
  release lease_id driver device reason =
      transact db
        do refuse_if (not cfg.ready) authority_unavailable; release_tx lease_id driver device reason

  unfoldable pub emergency_stop_tx : String → String → Result AuthorityError (Db × Lease)
  emergency_stop_tx vehicle actor = do
    refuse_if (is_empty vehicle || is_empty (trim actor)) missing_ids
    gateway ← or_fail (bound_gateway vehicle t.db_now db.gateways) no_gateway
    let n = fencing_of vehicle db.epochs + 1
    id ← or_fail t.lease_id no_random
    let l = new_lease id vehicle gateway.gateway_id actor "emergency-stop" n
    let after = retire db l revoked (is_of_vehicle vehicle) "emergency_stop" n
    db' ←
        publish_grant_tx c cfg t
          (record after { audit = audit_of l actor emergency_stopped n ∷ after.audit })
          (closing l n) revoke
    ok (db', closing l n)

  unfoldable pub emergency_stop : String → String → Tx Lease
  emergency_stop vehicle actor =
      transact db
        do refuse_if (not cfg.ready) authority_unavailable; emergency_stop_tx (trim vehicle) actor

-- A call of the authority by an operator.
pub data Call : Type 0 where
  requests : String → String → String → Call
  renews : String → String → String → String → Call
  releases : String → String → String → String → Call
  stops : String → String → Call

module _ {F : Type 0} (c : Codec F) (cfg : Settings) where
  unfoldable pub step : Db → Draws × Call → Db
  step db (t, requests driver device vehicle) = (request c cfg t db driver device vehicle).0
  step db (t, renews id driver device req) = (renew c cfg t db id driver device req).0
  step db (t, releases id driver device reason) = (release c cfg t db id driver device reason).0
  step db (t, stops vehicle actor) = (emergency_stop c cfg t db vehicle actor).0

  unfoldable pub run : Db → List (Draws × Call) → Db
  run db [] = db
  run db (call ∷ calls) = run (step db call) calls
