-- ===== src/Capability/Admission.antt =====
-- server/fleet/capabilities.go: RequireMonitoring, after PersistCapabilities.
use manage_robot.Common.{
  ◌≡◌, refl, inl, inr, true, false, not, ◌&&◌, Option, some, List, [], ◌∷◌, String, str_eq, eq_iff,
  trim, any, ℤ, if◌then◌else◌, Bool-cases, ok, err, arith,
}
use manage_robot.Wire.Envelope.{Bytes}
use manage_robot.Wire.Auth.{is_empty}
use manage_robot.Capability.Assess.{
  Capabilities, Matrix, CapabilityDecision, assess_gateway_capabilities,
}
use manage_robot.Capability.Safety.{assess_control_monitors}
use manage_robot.Capability.Persist.{
  Declared, VehicleRow, Admissions, incompatible, find_declared, upsert_declared, find_row,
  set_gateway, declared_row, with_declared, persist_capabilities, barred, require_monitoring,
}

find_declared-upsert :
    (r : Declared) (ds : List Declared)
    → find_declared r.vehicle_id r.gateway_id (upsert_declared r ds) ≡ some r
unfolding find_declared upsert_declared
find_declared-upsert r [] =
    ground (arith, eq_iff r.vehicle_id r.vehicle_id, eq_iff r.gateway_id r.gateway_id)
find_declared-upsert r (d ∷ ds) = ground (
  arith,
  eq_iff r.vehicle_id r.vehicle_id,
  eq_iff r.gateway_id r.gateway_id,
  find_declared-upsert r ds,
)

find_row-set_gateway :
    (id vehicle gateway stack : String) (v : VehicleRow) (vs : List VehicleRow)
    → find_row id vs ≡ some v
    → (w : VehicleRow) × (find_row id (set_gateway vehicle gateway stack vs) ≡ some w)
      × (w.lifecycle ≡ v.lifecycle)
unfolding find_row set_gateway
find_row-set_gateway id vehicle gateway stack v [] h = ground arith
find_row-set_gateway id vehicle gateway stack v (u ∷ vs) h = elim (Bool-cases (str_eq u.id id)) [
  | inl mine ↦ (
    (if str_eq u.id vehicle then record u { gateway_id = gateway; stack = stack } else u),
    ground arith,
    ground arith,
  )
  | inr other ↦
      let (w, found, same) = find_row-set_gateway id vehicle gateway stack v vs (ground arith) in
      (w, ground arith, same)
]

module _ (stack_name number : ℤ → String) where
  -- The decision of any assessment is recorded, for a gateway that is registered and a snapshot that
  -- could be marshalled; afterwards the vehicle, when it is in service, is admitted to monitoring just
  -- when the assessment allows it, and control is recorded as the assessment has it.
  pub persist_assessed :
      (file : Option Matrix) (caps : Capabilities) (d : CapabilityDecision) (gateway : String)
      (bytes : Bytes) (db : Admissions) (v : VehicleRow)
      → assess_gateway_capabilities stack_name number file (some caps) ≡ ok d
      → is_empty (trim gateway) ≡ false
      → any
          (λ r. str_eq r.vehicle_id caps.vehicle_id && str_eq r.gateway_id gateway && r.is_active)
          db.registrations
        ≡ true
      → find_row caps.vehicle_id db.vehicles ≡ some v
      → barred v.lifecycle ≡ false
      → (db' : Admissions) × (persist_capabilities stack_name gateway (some caps) d (some bytes) db
          ≡ ok db')
        × (require_monitoring caps.vehicle_id gateway db'
            ≡ (if d.monitoring_allowed then ok tt else err incompatible))
        × (r : Declared) × (find_declared caps.vehicle_id gateway db'.declared ≡ some r)
        × (r.decision.control_allowed ≡ d.control_allowed)
  unfolding persist_capabilities require_monitoring
  persist_assessed file caps d gateway bytes db v assessed named registered found free =
      let row = declared_row stack_name gateway caps d bytes in
      let there = find_declared-upsert row db.declared in
      let sane : (d.control_allowed && not d.monitoring_allowed) ≡ false = monitors in
      let (w, kept, same) =
        find_row-set_gateway caps.vehicle_id caps.vehicle_id gateway (stack_name caps.stack) v
          db.vehicles found in
      (
        with_declared stack_name gateway caps d bytes db,
        ground arith,
        ground arith,
        row,
        there,
        refl,
      )
    where
      monitors : (d.control_allowed && not d.monitoring_allowed) ≡ false
      monitors = elim (Bool-cases d.control_allowed) [
        | inr denied ↦ ground arith
        | inl allowed ↦
            ground
              (arith, (assess_control_monitors stack_name number file caps d assessed allowed).0)
      ]
