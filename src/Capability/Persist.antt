-- ===== src/Capability/Persist.antt =====
-- server/fleet/capabilities.go: PersistCapabilities and RequireMonitoring. The bytes of the snapshot,
-- which buildCapabilitySnapshot marshals, are an argument; a table is a list of rows.
use Prim.Native.String.{◌++◌ as append}
use manage_robot.Common.{
  Bool, not, ◌&&◌, ◌||◌, Option, none, some, List, [], ◌∷◌, String, str_eq, trim, any, map, ℤ,
  if◌then◌else◌, Result, ok, ◌>>=◌, ◌>>◌, refuse_if, or_fail,
}
use manage_robot.Wire.Envelope.{Bytes}
use manage_robot.Wire.Auth.{is_empty}
use manage_robot.Capability.Assess.{Capabilities, CapabilityDecision, Outcome, capability_outcome}

-- A row of vehicle_gateways.
pub record Registration : Type 0 where
  pub vehicle_id : String
  pub gateway_id : String
  pub is_active : Bool

-- A row of vehicle_capabilities.
pub record Declared : Type 0 where
  pub vehicle_id : String
  pub gateway_id : String
  pub stack : String
  pub stack_version : String
  pub gateway_version : String
  pub adapter_version : String
  pub safety_arbiter_version : String
  pub topic_mapping_version : String
  pub decision : CapabilityDecision
  pub snapshot : Bytes

-- A row of vehicles.
pub record VehicleRow : Type 0 where
  pub id : String
  pub gateway_id : String
  pub stack : String
  pub lifecycle : String

-- `events` is control_security_events.
pub record Admissions : Type 0 where
  pub registrations : List Registration
  pub declared : List Declared
  pub vehicles : List VehicleRow
  pub events : List (String × String × String × Outcome)

pub data AdmissionError : Type 0 where
  no_identity not_monitored no_snapshot not_registered : AdmissionError
  not_declared barred_vehicle incompatible : AdmissionError

unfoldable pub find_declared : String → String → List Declared → Option Declared
find_declared vehicle gateway [] = none
find_declared vehicle gateway (d ∷ ds) =
    if str_eq d.vehicle_id vehicle && str_eq d.gateway_id gateway
    then some d
    else find_declared vehicle gateway ds

-- INSERT ... ON CONFLICT (vehicle_id, gateway_id) DO UPDATE
unfoldable pub upsert_declared : Declared → List Declared → List Declared
upsert_declared r [] = r ∷ []
upsert_declared r (d ∷ ds) =
    if str_eq d.vehicle_id r.vehicle_id && str_eq d.gateway_id r.gateway_id
    then r ∷ ds
    else d ∷ upsert_declared r ds

unfoldable pub find_row : String → List VehicleRow → Option VehicleRow
find_row id [] = none
find_row id (v ∷ vs) = if str_eq v.id id then some v else find_row id vs

-- UPDATE vehicles SET gateway_id, stack WHERE id
unfoldable pub set_gateway : String → String → String → List VehicleRow → List VehicleRow
set_gateway vehicle gateway stack =
    map λ v. if str_eq v.id vehicle then record v { gateway_id = gateway; stack = stack } else v

module _ (stack_name : ℤ → String) where
  abbrev pub declared_row : String → Capabilities → CapabilityDecision → Bytes → Declared
  declared_row gateway caps d snapshot = record {
    vehicle_id = caps.vehicle_id;
    gateway_id = gateway;
    stack = stack_name caps.stack;
    stack_version = caps.stack_version;
    gateway_version = caps.gateway_version;
    adapter_version = caps.adapter_version;
    safety_arbiter_version = caps.safety_arbiter_version;
    topic_mapping_version = caps.topic_mapping_version;
    decision = d;
    snapshot = snapshot;
  }

  -- The tables with the declaration in them.
  abbrev pub with_declared :
      String → Capabilities → CapabilityDecision → Bytes → Admissions → Admissions
  with_declared gateway caps d bytes db = record db {
    declared = upsert_declared (declared_row gateway caps d bytes) db.declared;
    vehicles =
        if d.monitoring_allowed
        then set_gateway caps.vehicle_id gateway (stack_name caps.stack) db.vehicles
        else db.vehicles;
    events =
        (caps.vehicle_id, gateway, append "gateway:" gateway, capability_outcome d) ∷ db.events;
  }

  unfoldable pub persist_capabilities :
      String
      → Option Capabilities
      → CapabilityDecision
      → Option Bytes
      → Admissions
      → Result AdmissionError Admissions
  persist_capabilities gateway caps0 d snapshot db = do
    caps ← or_fail caps0 no_identity
    refuse_if (is_empty (trim gateway)) no_identity
    refuse_if (d.control_allowed && not d.monitoring_allowed) not_monitored
    bytes ← or_fail snapshot no_snapshot
    refuse_if
        (not (
          any
            (λ r. str_eq r.vehicle_id caps.vehicle_id && str_eq r.gateway_id gateway && r.is_active)
            db.registrations))
        not_registered
    ok (with_declared gateway caps d bytes db)

abbrev pub barred : String → Bool
barred lifecycle = str_eq lifecycle "quarantined" || str_eq lifecycle "retired"

unfoldable pub require_monitoring : String → String → Admissions → Result AdmissionError (Unit {0})
require_monitoring vehicle gateway db = do
  d ← or_fail (find_declared vehicle gateway db.declared) not_declared
  v ← or_fail (find_row vehicle db.vehicles) not_declared
  refuse_if (barred v.lifecycle) barred_vehicle
  refuse_if (not d.decision.monitoring_allowed) incompatible
  ok tt
