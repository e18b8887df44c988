-- ===== src/Authority/Data.antt =====
-- server/fleet/durable_authority.go: the tables that the authority reads and writes (their columns
-- and constraints are in server/migrations/0007 and 0015), its settings and its errors.
use manage_robot.Common.{ℕ, Bool, Option, List, String, ℤ, Result, ok, err}
use manage_robot.Wire.Envelope.{Bytes}
use manage_robot.Outbox.Table.{Item}

pub data LeaseState : Type 0 where
  active released expired revoked : LeaseState

-- A row of control_leases; `ControlLease` is the same without the state.
pub record Lease : Type 0 where
  pub lease_id : String
  pub vehicle_id : String
  pub gateway_id : String
  pub driver_id : String
  pub device_id : String
  pub fencing : ℕ
  pub state : LeaseState
  pub issued_at : ℤ
  pub valid_until : ℤ
  pub release_reason : String

pub record Gateway : Type 0 where
  pub gateway_id : String
  pub vehicle_id : String
  pub is_active : Bool
  pub certificate_not_after : ℤ
  pub activated_at : ℤ

-- A row of vehicle_control_epochs.
pub record Epoch : Type 0 where
  pub vehicle_id : String
  pub fencing : ℕ
  pub active_lease_id : Option String

pub record Renewal : Type 0 where
  pub lease_id : String
  pub request_id : String
  pub valid_until : ℤ

pub record Capability : Type 0 where
  pub vehicle_id : String
  pub gateway_id : String
  pub control_allowed : Bool

pub data Lifecycle : Type 0 where
  quarantined retired maintenance : Lifecycle
  other_lifecycle : String → Lifecycle

-- A row of vehicles joined with its vehicle_state, if it has one: online, updated_at.
pub record Vehicle : Type 0 where
  pub id : String
  pub lifecycle : Lifecycle
  pub state : Option (Bool × ℤ)

pub data AuditKind : Type 0 where
  lease_issued lease_renewed lease_released emergency_stopped : AuditKind

pub record Audit : Type 0 where
  pub vehicle_id : String
  pub gateway_id : String
  pub lease_id : String
  pub actor : String
  pub kind : AuditKind
  pub fencing : ℕ

pub record Db : Type 0 where
  pub gateways : List Gateway
  pub vehicles : List Vehicle
  pub capabilities : List Capability
  pub epochs : List Epoch
  pub leases : List Lease
  pub renewals : List Renewal
  pub audit : List Audit
  pub outbox : List Item

pub data AuthorityError : Type 0 where
  authority_unavailable lease_busy lease_expired missing_ids no_gateway : AuthorityError
  no_vehicle barred_lifecycle not_live no_capability monitoring_only : AuthorityError
  driver_busy constraint_violated no_lease not_owner short_request_id not_active : AuthorityError
  no_random signing_failed not_queued : AuthorityError

-- What the authority is set up with; `ready` stands for its pointers that are not nil
-- and the length of its key, 32 bytes or more.
pub record Settings : Type 0 where
  pub ready : Bool
  pub lease_ttl : ℤ
  pub grace : ℤ
  pub signer_private : Bytes
  pub signer_key_id : String
  pub envelope_auth_key : Bytes

-- The readings and draws of one call: PostgreSQL's now(), time.Now() in nanoseconds since 1970, the
-- process's monotonic clock, and the identifiers that randomID and outboxID drew.
pub record Draws : Type 0 where
  pub db_now : ℤ
  pub now : ℤ
  pub monotonic : ℕ
  pub lease_id : Option String
  pub outbox_id : Option String

-- A transaction: what it returned, and the tables after it. The deferred Rollback runs on every
-- return that no Commit preceded.
abbrev pub Tx : Type 0 → Type 0
Tx A = Db × Result AuthorityError A

abbrev pub transact : {A : Type 0} → Db → Result AuthorityError (Db × A) → Tx A
transact db (ok (db', a)) = (db', ok a)
transact db (err e) = (db, err e)
