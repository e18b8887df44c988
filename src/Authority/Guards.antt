-- ===== src/Authority/Guards.antt =====
-- server/fleet/durable_authority.go and capabilities.go: the queries behind a takeover.
use manage_robot.Common.{
  ℕ, Bool, true, false, not, ◌&&◌, ◌||◌, Option, none, some, List, [], ◌∷◌, String, str_eq,
  if◌then◌else◌, any, ℤ, pos, ltb_ℤ, ◌+ℤ◌, Result, ok, ◌>>=◌, ◌>>◌, refuse_if, or_fail,
}
use manage_robot.Authority.Data.{
  LeaseState, active, Lease, Gateway, Epoch, Capability, Lifecycle, other_lifecycle, Vehicle, Db,
  AuthorityError, no_vehicle, barred_lifecycle, not_live, no_capability, monitoring_only,
}

abbrev pub is_active : LeaseState → Bool
is_active active = true
is_active _ = false

-- ORDER BY activated_at DESC LIMIT 1, over the vehicle's active gateways with a valid certificate.
abbrev later_gateway : Option Gateway → Gateway → Gateway
later_gateway none g = g
later_gateway (some h) g = if ltb_ℤ g.activated_at h.activated_at then h else g

unfoldable pub bound_gateway : String → ℤ → List Gateway → Option Gateway
bound_gateway vehicle now [] = none
bound_gateway vehicle now (g ∷ gs) =
    let rest = bound_gateway vehicle now gs in
    if str_eq g.vehicle_id vehicle && g.is_active && ltb_ℤ now g.certificate_not_after
    then some (later_gateway rest g)
    else rest

unfoldable pub find_vehicle : String → List Vehicle → Option Vehicle
find_vehicle id [] = none
find_vehicle id (v ∷ vs) = if str_eq v.id id then some v else find_vehicle id vs

abbrev pub is_barred : Lifecycle → Bool
is_barred (other_lifecycle s) = false
is_barred _ = true

-- COALESCE of the joined vehicle_state: offline, updated at the epoch.
abbrev live_state : Option (Bool × ℤ) → Bool × ℤ
live_state none = (false, pos 0)
live_state (some s) = s

abbrev pub online_window : ℤ
online_window = pos 6000000000

unfoldable pub require_vehicle_live : Db → String → ℤ → Result AuthorityError (Unit {0})
require_vehicle_live db vehicle now = do
  v ← or_fail (find_vehicle vehicle db.vehicles) no_vehicle
  refuse_if (is_barred v.lifecycle) barred_lifecycle
  let state = live_state v.state
  refuse_if (not state.0 || ltb_ℤ (state.1 +ℤ online_window) now) not_live
  ok tt

unfoldable pub find_capability : String → String → List Capability → Option Capability
find_capability vehicle gateway [] = none
find_capability vehicle gateway (c ∷ cs) =
    if str_eq c.vehicle_id vehicle && str_eq c.gateway_id gateway
    then some c
    else find_capability vehicle gateway cs

unfoldable pub require_control_capability : Db → String → String → Result AuthorityError (Unit {0})
require_control_capability db vehicle gateway = do
  c ← or_fail (find_capability vehicle gateway db.capabilities) no_capability
  refuse_if (not c.control_allowed) monitoring_only
  ok tt

-- SELECT fencing_token FROM vehicle_control_epochs, 0 being the default of a row just inserted.
unfoldable pub fencing_of : String → List Epoch → ℕ
fencing_of vehicle [] = 0
fencing_of vehicle (e ∷ es) =
    if str_eq e.vehicle_id vehicle then e.fencing else fencing_of vehicle es

abbrev pub has_epoch : String → List Epoch → Bool
has_epoch vehicle = any λ e. str_eq e.vehicle_id vehicle

-- INSERT … ON CONFLICT DO NOTHING, then UPDATE … SET fencing_token, active_lease_id.
unfoldable pub set_epoch : String → ℕ → Option String → List Epoch → List Epoch
set_epoch vehicle n lease [] =
    record { vehicle_id = vehicle; fencing = n; active_lease_id = lease } ∷ []
set_epoch vehicle n lease (e ∷ es) =
    if str_eq e.vehicle_id vehicle
    then record e { fencing = n; active_lease_id = lease } ∷ es
    else e ∷ set_epoch vehicle n lease es

unfoldable pub find_lease : String → List Lease → Option Lease
find_lease id [] = none
find_lease id (l ∷ ls) = if str_eq l.lease_id id then some l else find_lease id ls

-- UPDATE control_leases SET … WHERE `test`.
unfoldable pub update_leases : (Lease → Bool) → (Lease → Lease) → List Lease → List Lease
update_leases test change [] = []
update_leases test change (l ∷ ls) = (if test l then change l else l) ∷ update_leases test change ls

abbrev pub is_held : Lease → ℤ → Bool
is_held l now = is_active l.state && ltb_ℤ now l.valid_until

-- The first row of the driver's active leases: the vehicle that it is for.
unfoldable pub driver_vehicle : String → ℤ → List Lease → Option String
driver_vehicle driver now [] = none
driver_vehicle driver now (l ∷ ls) =
    if str_eq l.driver_id driver && is_held l now
    then some l.vehicle_id
    else driver_vehicle driver now ls

abbrev pub is_elsewhere : Option String → String → Bool
is_elsewhere none vehicle = false
is_elsewhere (some v) vehicle = not (str_eq v vehicle)

-- The unique constraints that an INSERT of an active lease meets: the identifier, and one active
-- lease for each vehicle and for each driver.
abbrev pub collides : Lease → Lease → Bool
collides new l =
    str_eq l.lease_id new.lease_id
    || (is_active l.state
        && (str_eq l.vehicle_id new.vehicle_id || str_eq l.driver_id new.driver_id))
