-- ===== src/Examples/Enrolment.antt =====
-- The registry's theorems at the enrolment of gateway g1.
use manage_robot.Common.{
  ◌≤ℤ◌, ◌≡◌, refl, true, none, some, List, [], ◌∷◌, String, pos, ok, is_err, trim, ◌+ℤ◌,
}
use manage_robot.Wire.Envelope.{Bytes}
use manage_robot.Registry.Enrollment.{
  Certificate, Enrollment, Binding, Registry, Draw, active, revoked, create_enrollment, activate,
  activate_tx, certificate_spiffe, spiffe_gateway_id, open_enrollment, consume, bind_gateway,
  set_vehicle, validate_inbound, revoke_gateway, revoke_bindings,
}
use manage_robot.Registry.Identity.{Authorised, activate-Authorised}
use manage_robot.Registry.Calls.{Op, creates, validates, run}
use manage_robot.Registry.History.{activate_once, revoke_bars}

abbrev digest : Bytes → String
digest b = "cert-hash"

abbrev digest_text : String → String
digest_text s = s

abbrev no_gateways : Registry
no_gateways = record {
  enrollments = [];
  bindings = [];
  vehicles = record { id = "v1"; gateway_id = ""; lifecycle_state = "planned" } ∷ [];
  events = [];
}

abbrev morning : Draw
morning = record { db_now = pos 1000; now = pos 1000; token = some "secret"; id = some "e1" }

abbrev enrollment : Enrollment
enrollment = record {
  id = "e1";
  vehicle_id = "v1";
  gateway_id = "g1";
  token_sha256 = "secret";
  expected_spiffe_id = "spiffe://robot-agent/vehicle/v1/gateway/g1";
  expires_at = pos 900000001000;
  created_at = pos 1000;
  created_by = "admin";
  consumed = none;
}

abbrev enrolled : Registry
enrolled = record no_gateways {
  enrollments = enrollment ∷ [];
  events = ("v1", "g1", "gateway_enrollment_created") ∷ [];
}

enrolment_created :
    create_enrollment digest digest_text morning no_gateways "v1" "g1" "admin" (pos 0)
    ≡ ok (enrolled, "secret", pos 900000001000)
unfolding create_enrollment trim spiffe_gateway_id ◌+ℤ◌
enrolment_created = refl

abbrev certificate : Certificate
certificate = record {
  uris =
      record {
        scheme = "spiffe";
        host = "robot-agent";
        raw_query = "";
        fragment = "";
        text = "spiffe://robot-agent/vehicle/v1/gateway/g1";
      }
      ∷ [];
  not_after = pos 9000000000000;
  raw = 1 ∷ [];
}

abbrev binding : Binding
binding = record {
  gateway_id = "g1";
  vehicle_id = "v1";
  certificate_sha256 = "cert-hash";
  certificate_subject = "spiffe://robot-agent/vehicle/v1/gateway/g1";
  certificate_not_after = pos 9000000000000;
  status = active;
  activated_at = pos 1000;
  revoke_reason = "";
  last_authenticated_at = pos 1000;
}

abbrev bound : Registry
bound = record {
  enrollments = record enrollment { consumed = some "cert-hash" } ∷ [];
  bindings = binding ∷ [];
  vehicles = record { id = "v1"; gateway_id = "g1"; lifecycle_state = "offline" } ∷ [];
  events = ("v1", "g1", "gateway_activated") ∷ ("v1", "g1", "gateway_enrollment_created") ∷ [];
}

gateway_activated :
    activate digest digest_text morning enrolled "v1" "g1" "secret" (some certificate)
    ≡ ok (bound, binding)
unfolding activate activate_tx certificate_spiffe spiffe_gateway_id open_enrollment consume
    bind_gateway set_vehicle trim
gateway_activated = refl

activate-Authorised_example :
    (e : Enrollment) × (c : Certificate) × Authorised morning enrolled "v1" "g1" "secret"
      "spiffe://robot-agent/vehicle/v1/gateway/g1" e
    × (some certificate ≡ some c)
    × (certificate_spiffe (some certificate) ≡ ok "spiffe://robot-agent/vehicle/v1/gateway/g1")
    × (morning.now ≤ℤ c.not_after)
    × (binding.certificate_subject ≡ "spiffe://robot-agent/vehicle/v1/gateway/g1")
    × (binding.certificate_sha256 ≡ digest c.raw)
    × (binding.certificate_not_after ≡ c.not_after)
unfolding trim spiffe_gateway_id
activate-Authorised_example =
    activate-Authorised digest digest_text morning enrolled bound binding "v1" "g1" "secret"
      (some certificate) gateway_activated

-- The gateway's message, another gateway's enrolment, and a failed attempt to enrol nobody.
abbrev quiet : List Op
quiet =
    validates morning "v1" "g1"
    ∷ creates (record morning { token = some "other"; id = some "e2" }) "v1" "g2" "admin" (pos 0)
    ∷ creates morning "" "" "admin" (pos 0)
    ∷ []

activate_once_example :
    is_err (
      activate digest digest_text morning
        (run digest digest_text bound quiet)
        "v1"
        "g1"
        "secret"
        (some certificate))
    ≡ true
unfolding trim
activate_once_example =
    activate_once digest digest_text morning morning enrolled bound binding "v1" "g1" "secret"
      "secret" (some certificate) (some certificate) quiet gateway_activated
      (refl, (refl, (refl, tt)))

abbrev barred : Registry
barred = record bound {
  bindings = record binding { status = revoked; revoke_reason = "stolen" } ∷ [];
  vehicles = record { id = "v1"; gateway_id = "g1"; lifecycle_state = "quarantined" } ∷ [];
  events = ("v1", "g1", "gateway_revoked") ∷ bound.events;
}

gateway_revoked : revoke_gateway bound "v1" "g1" "stolen" ≡ ok barred
unfolding revoke_gateway revoke_bindings set_vehicle trim
gateway_revoked = refl

revoke_bars_example :
    is_err (validate_inbound morning (run digest digest_text barred quiet) "v1" "g1") ≡ true
revoke_bars_example =
    revoke_bars digest digest_text morning bound barred "v1" "g1" "stolen" quiet gateway_revoked
      (refl, (refl, (refl, tt)))
