-- ===== src/Registry/Calls.antt =====
-- server/fleet/vehicle_registry.go: the calls on the tables of enrolments and gateways, one after
-- another.
use manage_robot.Common.{◌≡◌, refl, Option, List, [], ◌∷◌, String, trim, ℤ, Result, ok, err, arith}
use manage_robot.Wire.Envelope.{Bytes}
use manage_robot.Registry.Enrollment.{
  Certificate, Binding, Registry, Draw, consume, bind_gateway, revoke_bindings, touch,
  create_enrollment, activate_tx, activate, validate_inbound, revoke_gateway,
}

-- A call of the registry, with its arguments.
pub data Op : Type 0 where
  creates : Draw → String → String → String → ℤ → Op
  activates : Draw → String → String → String → Option Certificate → Op
  validates : Draw → String → String → Op
  revokes : String → String → String → Op

-- The transaction of a call that fails changes nothing.
abbrev pub commit : {A E : Type 0} → (A → Registry) → Registry → Result E A → Registry
commit f db (ok a) = f a
commit f db (err e) = db

module _ (digest : Bytes → String) (digest_text : String → String) where
  -- The registry after a call, with the statement or transaction carried through or rolled back.
  unfoldable pub apply : Registry → Op → Registry
  apply db (creates t v g actor ttl) =
      commit (λ r. r.0) db (create_enrollment digest digest_text t db v g actor ttl)
  apply db (activates t v g token cert) =
      commit (λ r. r.0) db (activate digest digest_text t db v g token cert)
  apply db (validates t v g) = commit (λ r. r) db (validate_inbound t db v g)
  apply db (revokes v g reason) = commit (λ r. r) db (revoke_gateway db v g reason)

  unfoldable pub run : Registry → List Op → Registry
  run db [] = db
  run db (op ∷ ops) = run (apply db op) ops

  pub activate-shape :
      (t : Draw) (db db' : Registry) (b : Binding) (v g token : String) (cert : Option Certificate)
      → activate digest digest_text t db v g token cert ≡ ok (db', b)
      → (db'.enrollments ≡ consume (trim v) (trim g) b.certificate_sha256 db.enrollments)
        × (db'.bindings ≡ bind_gateway b db.bindings)
        × (b.gateway_id ≡ trim g)
  unfolding activate activate_tx
  activate-shape t db db' b v g token cert h = (ground arith, ground arith, ground arith)

  pub validate_inbound-shape :
      (t : Draw) (db db' : Registry) (v g : String)
      → validate_inbound t db v g ≡ ok db'
      → (db'.enrollments ≡ db.enrollments) × (db'.bindings ≡ touch v g t.db_now db.bindings)
  unfolding validate_inbound
  validate_inbound-shape t db db' v g h = ground arith

  pub revoke_gateway-shape :
      (db db' : Registry) (v g reason : String)
      → revoke_gateway db v g reason ≡ ok db'
      → (db'.enrollments ≡ db.enrollments) × (db'.bindings ≡ revoke_bindings v g reason db.bindings)
  unfolding revoke_gateway
  revoke_gateway-shape db db' v g reason h = ground arith

  pub create_enrollment-bindings :
      (t : Draw) (db db' : Registry) (v g actor : String) (ttl : ℤ) (token : String) (expires : ℤ)
      → create_enrollment digest digest_text t db v g actor ttl ≡ ok (db', token, expires)
      → db'.bindings ≡ db.bindings
  unfolding create_enrollment
  create_enrollment-bindings t db db' v g actor ttl token expires h = ground arith

  module _ {ℓ} (P : Registry → Type ℓ) (db : Registry) (kept : P db) where
    -- What a call leaves satisfies what its failure and its success satisfy.
    pub commit_cases :
        {A E : Type 0} (f : A → Registry) (r : Result E A)
        → ((a : A) → r ≡ ok a → P (f a))
        → P (commit f db r)
    commit_cases f (ok a) k = k a refl
    commit_cases f (err e) k = kept
