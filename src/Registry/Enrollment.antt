-- ===== src/Registry/Enrollment.antt =====
-- server/fleet/vehicle_registry.go: CreateEnrollment, Activate, ValidateInbound and Revoke over the
-- tables gateway_enrollments, vehicle_gateways and vehicles (server/migrations/0007). Each is one
-- transaction or one statement with its guards; SHA-256 in hexadecimal and net/url's printing of a
-- URI are arguments.
use Prim.Native.String.{◌++◌ as append}
use manage_robot.Common.{
  Bool, true, false, not, ◌&&◌, ◌||◌, Option, none, some, List, [], ◌∷◌, String, str_eq, trim,
  if◌then◌else◌, any, ℤ, pos, ltb_ℤ, leb_ℤ, ◌+ℤ◌, Result, ok, ◌>>=◌, ◌>>◌, refuse_if, or_fail,
}
use manage_robot.Wire.Envelope.{Bytes}
use manage_robot.Wire.Auth.{is_empty}

-- What the code reads of an x509.Certificate; `text` is what URL.String prints.
pub record Uri : Type 0 where
  pub scheme : String
  pub host : String
  pub raw_query : String
  pub fragment : String
  pub text : String

pub record Certificate : Type 0 where
  pub uris : List Uri
  pub not_after : ℤ
  pub raw : Bytes

pub data GatewayStatus : Type 0 where
  pending active revoked quarantined : GatewayStatus

-- A row of gateway_enrollments; `consumed` is the certificate that it was used for.
pub record Enrollment : Type 0 where
  pub id : String
  pub vehicle_id : String
  pub gateway_id : String
  pub token_sha256 : String
  pub expected_spiffe_id : String
  pub expires_at : ℤ
  pub created_at : ℤ
  pub created_by : String
  pub consumed : Option String

-- A row of vehicle_gateways.
pub record Binding : Type 0 where
  pub gateway_id : String
  pub vehicle_id : String
  pub certificate_sha256 : String
  pub certificate_subject : String
  pub certificate_not_after : ℤ
  pub status : GatewayStatus
  pub activated_at : ℤ
  pub revoke_reason : String
  pub last_authenticated_at : ℤ

-- The columns of vehicles that are read or written here.
pub record VehicleRow : Type 0 where
  pub id : String
  pub gateway_id : String
  pub lifecycle_state : String

pub record Registry : Type 0 where
  pub enrollments : List Enrollment
  pub bindings : List Binding
  pub vehicles : List VehicleRow
  -- vehicle, gateway, kind
  pub events : List (String × String × String)

pub data RegistryError : Type 0 where
  missing_ids ttl_too_long no_random unknown_vehicle constraint_violated : RegistryError
  no_certificate bad_san wrong_identity certificate_expired no_enrollment : RegistryError
  enrollment_expired enrollment_mismatch not_bound not_in_force no_reason : RegistryError

abbrev pub enrollment_ttl_max : ℤ
enrollment_ttl_max = pos 3600000000000

abbrev pub enrollment_ttl_def : ℤ
enrollment_ttl_def = pos 900000000000

unfoldable pub spiffe_gateway_id : String → String → String
spiffe_gateway_id vehicle gateway =
    append (append "spiffe://robot-agent/vehicle/" vehicle) (append "/gateway/" gateway)

uri_bad : Uri → Bool
uri_bad u =
    not (str_eq u.scheme "spiffe")
    || not (str_eq u.host "robot-agent")
    || not (is_empty u.raw_query)
    || not (is_empty u.fragment)

only_uri : List Uri → Option Uri
only_uri (u ∷ []) = some u
only_uri us = none

unfoldable pub certificate_spiffe : Option Certificate → Result RegistryError String
unfolding uri_bad only_uri
certificate_spiffe cert = do
  c ← or_fail cert no_certificate
  u ← or_fail (only_uri c.uris) bad_san
  refuse_if (uri_bad u) bad_san
  ok u.text

-- The readings and draws of one call: PostgreSQL's now(), time.Now(), and what randomEnrollmentToken
-- drew for the token and for the identifier.
pub record Draw : Type 0 where
  pub db_now : ℤ
  pub now : ℤ
  pub token : Option String
  pub id : Option String

abbrev is_unused : Option String → Bool
is_unused none = true
is_unused (some c) = false

abbrev pub is_open_for : String → String → Enrollment → Bool
is_open_for vehicle gateway e =
    str_eq e.vehicle_id vehicle && str_eq e.gateway_id gateway && is_unused e.consumed

-- ORDER BY created_at DESC LIMIT 1, over the enrolments that `is_open_for` admits.
newer_enrollment : Option Enrollment → Enrollment → Enrollment
newer_enrollment none e = e
newer_enrollment (some f) e = if ltb_ℤ e.created_at f.created_at then f else e

unfoldable pub open_enrollment : String → String → List Enrollment → Option Enrollment
unfolding newer_enrollment
open_enrollment vehicle gateway [] = none
open_enrollment vehicle gateway (e ∷ es) =
    let rest = open_enrollment vehicle gateway es in
    if is_open_for vehicle gateway e then some (newer_enrollment rest e) else rest

-- UPDATE gateway_enrollments SET consumed_at=now(), consumed_certificate_sha256=…
unfoldable pub consume : String → String → String → List Enrollment → List Enrollment
consume vehicle gateway cert [] = []
consume vehicle gateway cert (e ∷ es) =
    (if is_open_for vehicle gateway e then record e { consumed = some cert } else e)
    ∷ consume vehicle gateway cert es

-- INSERT … ON CONFLICT (gateway_id) DO UPDATE: activated_at stays that of the first activation.
rebound : Binding → Binding → Binding
rebound old new = record new { activated_at = old.activated_at }

unfoldable pub bind_gateway : Binding → List Binding → List Binding
unfolding rebound
bind_gateway new [] = new ∷ []
bind_gateway new (b ∷ bs) =
    if str_eq b.gateway_id new.gateway_id then rebound b new ∷ bs else b ∷ bind_gateway new bs

-- The certificate's digest is unique in the table.
abbrev certificate_taken : Binding → Binding → Bool
certificate_taken new b =
    str_eq b.certificate_sha256 new.certificate_sha256 && not (str_eq b.gateway_id new.gateway_id)

unfoldable pub set_vehicle : String → Option String → String → List VehicleRow → List VehicleRow
set_vehicle id gateway lifecycle [] = []
set_vehicle id gateway lifecycle (v ∷ vs) =
    (if str_eq v.id id
      then record {
        id = v.id;
        gateway_id = elim gateway [ none ↦ v.gateway_id | some g ↦ g ];
        lifecycle_state = lifecycle;
      }
      else v)
    ∷ set_vehicle id gateway lifecycle vs

abbrev pub is_binding : String → String → Binding → Bool
is_binding vehicle gateway b = str_eq b.vehicle_id vehicle && str_eq b.gateway_id gateway

unfoldable pub find_binding : String → String → List Binding → Option Binding
find_binding vehicle gateway [] = none
find_binding vehicle gateway (b ∷ bs) =
    if is_binding vehicle gateway b then some b else find_binding vehicle gateway bs

abbrev pub in_force : GatewayStatus → Bool
in_force active = true
in_force _ = false

abbrev pub is_revoked : GatewayStatus → Bool
is_revoked revoked = true
is_revoked _ = false

-- UPDATE vehicle_gateways SET status='revoked' … WHERE status <> 'revoked'
unfoldable pub revoke_bindings : String → String → String → List Binding → List Binding
revoke_bindings vehicle gateway reason [] = []
revoke_bindings vehicle gateway reason (b ∷ bs) =
    (if is_binding vehicle gateway b && not (is_revoked b.status)
      then record b { status = revoked; revoke_reason = reason }
      else b)
    ∷ revoke_bindings vehicle gateway reason bs

unfoldable pub touch : String → String → ℤ → List Binding → List Binding
touch vehicle gateway now [] = []
touch vehicle gateway now (b ∷ bs) =
    (if is_binding vehicle gateway b then record b { last_authenticated_at = now } else b)
    ∷ touch vehicle gateway now bs

module _ (digest : Bytes → String) (digest_text : String → String) where
  -- The time to live is a duration, whose 0 asks for the default.
  unfoldable pub create_enrollment :
      Draw → Registry → String → String → String → ℤ → Result RegistryError (Registry × String × ℤ)
  create_enrollment t db vehicle0 gateway0 actor ttl0 = do
    let vehicle = trim vehicle0
    let gateway = trim gateway0
    refuse_if (is_empty vehicle || is_empty gateway || is_empty actor) missing_ids
    let ttl = if leb_ℤ ttl0 (pos 0) then enrollment_ttl_def else ttl0
    refuse_if (ltb_ℤ enrollment_ttl_max ttl) ttl_too_long
    token ← or_fail t.token no_random
    id ← or_fail t.id no_random
    let expires = t.now +ℤ ttl
    refuse_if (not (any (λ v. str_eq v.id vehicle) db.vehicles)) unknown_vehicle
    refuse_if
        (any (λ e. str_eq e.id id || str_eq e.token_sha256 (digest_text token)) db.enrollments
          || leb_ℤ expires t.db_now)
        constraint_violated
    ok (
      record db {
        enrollments =
            record {
              id = id;
              vehicle_id = vehicle;
              gateway_id = gateway;
              token_sha256 = digest_text token;
              expected_spiffe_id = spiffe_gateway_id vehicle gateway;
              expires_at = expires;
              created_at = t.db_now;
              created_by = actor;
              consumed = none;
            }
            ∷ db.enrollments;
        events = (vehicle, gateway, "gateway_enrollment_created") ∷ db.events;
      },
      token,
      expires,
    )

  abbrev new_binding : Draw → String → String → Certificate → String → Binding
  new_binding t vehicle gateway cert spiffe = record {
    gateway_id = gateway;
    vehicle_id = vehicle;
    certificate_sha256 = digest cert.raw;
    certificate_subject = spiffe;
    certificate_not_after = cert.not_after;
    status = active;
    activated_at = t.db_now;
    revoke_reason = "";
    last_authenticated_at = t.db_now;
  }

  -- The transaction of Activate, for identifiers that are trimmed.
  unfoldable pub activate_tx :
      Draw
      → Registry
      → String
      → String
      → String
      → Certificate
      → String
      → Result RegistryError (Registry × Binding)
  activate_tx t db vehicle gateway token cert spiffe = do
    e ← or_fail (open_enrollment vehicle gateway db.enrollments) no_enrollment
    refuse_if (ltb_ℤ e.expires_at t.now) enrollment_expired
    refuse_if
        (not (str_eq e.token_sha256 (digest_text token))
          || not (str_eq e.expected_spiffe_id spiffe))
        enrollment_mismatch
    let b = new_binding t vehicle gateway cert spiffe
    refuse_if (any (certificate_taken b) db.bindings) constraint_violated
    ok (
      record {
        enrollments = consume vehicle gateway b.certificate_sha256 db.enrollments;
        bindings = bind_gateway b db.bindings;
        vehicles = set_vehicle vehicle (some gateway) "offline" db.vehicles;
        events = (vehicle, gateway, "gateway_activated") ∷ db.events;
      },
      b,
    )

  unfoldable pub activate :
      Draw
      → Registry
      → String
      → String
      → String
      → Option Certificate
      → Result RegistryError (Registry × Binding)
  activate t db vehicle0 gateway0 token0 cert0 = do
    let vehicle = trim vehicle0
    let gateway = trim gateway0
    let token = trim token0
    refuse_if (is_empty vehicle || is_empty gateway || is_empty token) missing_ids
    spiffe ← certificate_spiffe cert0
    refuse_if (not (str_eq spiffe (spiffe_gateway_id vehicle gateway))) wrong_identity
    cert ← or_fail cert0 no_certificate
    refuse_if (ltb_ℤ cert.not_after t.now) certificate_expired
    activate_tx t db vehicle gateway token cert spiffe

unfoldable pub validate_inbound : Draw → Registry → String → String → Result RegistryError Registry
validate_inbound t db vehicle gateway = do
  b ← or_fail (find_binding vehicle gateway db.bindings) not_bound
  refuse_if (not (in_force b.status)) not_in_force
  refuse_if (not (ltb_ℤ t.now b.certificate_not_after)) certificate_expired
  ok (record db { bindings = touch vehicle gateway t.db_now db.bindings })

unfoldable pub revoke_gateway : Registry → String → String → String → Result RegistryError Registry
revoke_gateway db vehicle gateway reason = do
  refuse_if (is_empty (trim reason)) no_reason
  refuse_if (not (any (λ b. is_binding vehicle gateway b && not (is_revoked b.status)) db.bindings))
      not_bound
  ok (record db {
    bindings = revoke_bindings vehicle gateway reason db.bindings;
    vehicles = set_vehicle vehicle none "quarantined" db.vehicles;
    events = (vehicle, gateway, "gateway_revoked") ∷ db.events;
  })
