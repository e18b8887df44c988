-- ===== src/Registry/History.antt =====
-- How often an enrolment serves, and what a revocation stops, over the registry's later calls.
use manage_robot.Common.{
  ◌≡◌, refl, inl, inr, Bool, true, false, not, ◌&&◌, Option, none, some, List, [], ◌∷◌, String,
  if_cases, str_eq, trim, ℤ, ok, is_err, All, arith, Option-cases,
}
use manage_robot.Wire.Envelope.{Bytes}
use manage_robot.Registry.Enrollment.{
  Certificate, Enrollment, Binding, Registry, Draw, open_enrollment, consume, bind_gateway,
  is_binding, find_binding, in_force, revoke_bindings, touch, create_enrollment, activate_tx,
  activate, validate_inbound, revoke_gateway,
}
use manage_robot.Registry.Identity.{consumed}
use manage_robot.Registry.Calls.{
  Op, creates, activates, validates, revokes, apply, run, activate-shape, validate_inbound-shape,
  revoke_gateway-shape, create_enrollment-bindings, commit_cases,
}

-- The call does not create an enrolment for the vehicle and the gateway.
abbrev pub creates_no : String → String → Op → Bool
creates_no v g (creates t v' g' actor ttl) = not (str_eq (trim v') v && str_eq (trim g') g)
creates_no v g op = true

-- The call does not activate the gateway.
abbrev pub activates_no : String → Op → Bool
activates_no g (activates t v' g' token cert) = not (str_eq (trim g') g)
activates_no g op = true

-- No binding of the vehicle to the gateway is in force.
abbrev Barred : String → String → Registry → Type 0
Barred v g db = All (λ b. is_binding v g b ≡ true → in_force b.status ≡ false) db.bindings

revoke_bindings-Barred :
    (v g reason : String) (bs : List Binding)
    → All (λ b. is_binding v g b ≡ true → in_force b.status ≡ false) (revoke_bindings v g reason bs)
unfolding revoke_bindings
revoke_bindings-Barred v g reason [] = tt
revoke_bindings-Barred v g reason (b ∷ bs) = (ground arith, revoke_bindings-Barred v g reason bs)

module _ (v g : String) where
  abbrev Out : Binding → Type 0
  Out b = is_binding v g b ≡ true → in_force b.status ≡ false

  Barred-revoke_bindings :
      (v' g' reason : String) (bs : List Binding)
      → All Out bs
      → All Out (revoke_bindings v' g' reason bs)
  unfolding revoke_bindings
  Barred-revoke_bindings v' g' reason [] h = tt
  Barred-revoke_bindings v' g' reason (b ∷ bs) h =
      let here = h.0 in (ground arith, Barred-revoke_bindings v' g' reason bs h.1)

  Barred-touch :
      (v' g' : String) (now : ℤ) (bs : List Binding) → All Out bs → All Out (touch v' g' now bs)
  unfolding touch
  Barred-touch v' g' now [] h = tt
  Barred-touch v' g' now (b ∷ bs) h =
      let here = h.0 in (ground arith, Barred-touch v' g' now bs h.1)

  Barred-bind_gateway :
      (new : Binding) (bs : List Binding)
      → str_eq new.gateway_id g ≡ false
      → All Out bs
      → All Out (bind_gateway new bs)
  unfolding bind_gateway
  Barred-bind_gateway new [] e h = (ground arith, tt)
  Barred-bind_gateway new (b ∷ bs) e h =
      let rest = Barred-bind_gateway new bs e h.1 in
      if_cases (All Out) (str_eq b.gateway_id new.gateway_id)
        (record new { activated_at = b.activated_at } ∷ bs) (b ∷ bind_gateway new bs)
        (λ q. (ground arith, h.1)) (λ q. (h.0, rest))

  Barred-find_binding :
      (bs : List Binding) (b : Binding)
      → All Out bs
      → find_binding v g bs ≡ some b
      → in_force b.status ≡ false
  unfolding find_binding
  Barred-find_binding [] b h e = absurd (ground arith)
  Barred-find_binding (c ∷ bs) b h e =
      let here = h.0 in ground (arith, Barred-find_binding bs b h.1)

  open_enrollment-consume_other :
      (v' g' cert : String) (es : List Enrollment)
      → open_enrollment v g es ≡ none
      → open_enrollment v g (consume v' g' cert es) ≡ none
  unfolding open_enrollment consume
  open_enrollment-consume_other v' g' cert [] h = refl
  open_enrollment-consume_other v' g' cert (e ∷ es) h =
      ground (arith, open_enrollment-consume_other v' g' cert es)

  open_enrollment-create :
      (digest : Bytes → String) (digest_text : String → String) (t : Draw) (db db' : Registry)
      (v' g' actor : String) (ttl : ℤ) (token : String) (expires : ℤ)
      → create_enrollment digest digest_text t db v' g' actor ttl ≡ ok (db', token, expires)
      → (str_eq (trim v') v && str_eq (trim g') g) ≡ false
      → open_enrollment v g db.enrollments ≡ none
      → open_enrollment v g db'.enrollments ≡ none
  unfolding create_enrollment open_enrollment
  open_enrollment-create digest digest_text t db db' v' g' actor ttl token expires h e k =
      ground arith

module _ (digest : Bytes → String) (digest_text : String → String) where
  apply_closed :
      (v g : String) (db : Registry) (op : Op)
      → creates_no v g op ≡ true
      → open_enrollment v g db.enrollments ≡ none
      → open_enrollment v g (apply digest digest_text db op).enrollments ≡ none
  unfolding apply
  apply_closed v g db (creates t v' g' actor ttl) e h =
      commit_cases digest digest_text (λ d. open_enrollment v g d.enrollments ≡ none) db h
        (λ r. r.0) _
        (λ r q.
          open_enrollment-create v g digest digest_text t db r.0 v' g' actor ttl r.1 r.2 q
            (ground arith) h)
  apply_closed v g db (activates t v' g' token cert) e h =
      commit_cases digest digest_text (λ d. open_enrollment v g d.enrollments ≡ none) db h
        (λ (r : Registry × Binding). r.0) _
        (λ r q.
          rw (activate-shape digest digest_text t db r.0 r.1 v' g' token cert q).0
            (open_enrollment-consume_other v g (trim v') (trim g') _ db.enrollments h))
  apply_closed v g db (validates t v' g') e h =
      commit_cases digest digest_text (λ d. open_enrollment v g d.enrollments ≡ none) db h (λ r. r)
        _ (λ r q. rw (validate_inbound-shape digest digest_text t db r v' g' q).0 h)
  apply_closed v g db (revokes v' g' reason) e h =
      commit_cases digest digest_text (λ d. open_enrollment v g d.enrollments ≡ none) db h (λ r. r)
        _ (λ r q. rw (revoke_gateway-shape digest digest_text db r v' g' reason q).0 h)

  run_closed :
      (v g : String) (db : Registry) (ops : List Op)
      → All (λ op. creates_no v g op ≡ true) ops
      → open_enrollment v g db.enrollments ≡ none
      → open_enrollment v g (run digest digest_text db ops).enrollments ≡ none
  unfolding run
  run_closed v g db [] k h = h
  run_closed v g db (op ∷ ops) k h =
      run_closed v g (apply digest digest_text db op) ops k.1 (apply_closed v g db op k.0 h)

  closed_refuses :
      (t : Draw) (db : Registry) (v g token : String) (cert : Option Certificate)
      → open_enrollment (trim v) (trim g) db.enrollments ≡ none
      → is_err (activate digest digest_text t db v g token cert) ≡ true
  unfolding activate activate_tx
  closed_refuses t db v g token cert h = ground arith

  -- An enrolment is used once: after an activation of a pair of vehicle and gateway, and any calls of
  -- the registry that create no enrolment for that pair, no activation of the same pair succeeds, with
  -- whatever token and certificate.
  pub activate_once :
      (t t' : Draw) (db db' : Registry) (b : Binding) (v g token token' : String)
      (cert cert' : Option Certificate) (ops : List Op)
      → activate digest digest_text t db v g token cert ≡ ok (db', b)
      → All (λ op. creates_no (trim v) (trim g) op ≡ true) ops
      → is_err (activate digest digest_text t' (run digest digest_text db' ops) v g token' cert')
        ≡ true
  activate_once t t' db db' b v g token token' cert cert' ops h k =
      closed_refuses t' (run digest digest_text db' ops) v g token' cert' (
        run_closed (trim v) (trim g) db' ops k
          (consumed digest digest_text t db db' b v g token cert h))

  activate-Barred :
      (v g : String) (t : Draw) (db db' : Registry) (b : Binding) (v' g' token : String)
      (cert : Option Certificate)
      → not (str_eq (trim g') g) ≡ true
      → Barred v g db
      → activate digest digest_text t db v' g' token cert ≡ ok (db', b)
      → Barred v g db'
  activate-Barred v g t db db' b v' g' token cert e h q =
      let shape = activate-shape digest digest_text t db db' b v' g' token cert q in
      rw shape.1 (Barred-bind_gateway v g b db.bindings (rw shape.2 (ground arith)) h)

  apply-Barred :
      (v g : String) (db : Registry) (op : Op)
      → activates_no g op ≡ true
      → Barred v g db
      → Barred v g (apply digest digest_text db op)
  unfolding apply
  apply-Barred v g db (creates t v' g' actor ttl) e h =
      commit_cases digest digest_text (Barred v g) db h (λ (r : Registry × String × ℤ). r.0) _
        (λ r q.
          rw (create_enrollment-bindings digest digest_text t db r.0 v' g' actor ttl r.1 r.2 q) h)
  apply-Barred v g db (activates t v' g' token cert) e h =
      commit_cases digest digest_text (Barred v g) db h (λ (r : Registry × Binding). r.0) _
        (λ r q. activate-Barred v g t db r.0 r.1 v' g' token cert e h q)
  apply-Barred v g db (validates t v' g') e h =
      commit_cases digest digest_text (Barred v g) db h (λ r. r) _
        (λ r q.
          rw (validate_inbound-shape digest digest_text t db r v' g' q).1
            (Barred-touch v g v' g' t.db_now db.bindings h))
  apply-Barred v g db (revokes v' g' reason) e h =
      commit_cases digest digest_text (Barred v g) db h (λ r. r) _
        (λ r q.
          rw (revoke_gateway-shape digest digest_text db r v' g' reason q).1
            (Barred-revoke_bindings v g v' g' reason db.bindings h))

  run-Barred :
      (v g : String) (db : Registry) (ops : List Op)
      → All (λ op. activates_no g op ≡ true) ops
      → Barred v g db
      → Barred v g (run digest digest_text db ops)
  unfolding run
  run-Barred v g db [] k h = h
  run-Barred v g db (op ∷ ops) k h =
      run-Barred v g (apply digest digest_text db op) ops k.1 (apply-Barred v g db op k.0 h)

  Barred-validate_inbound :
      (t : Draw) (db : Registry) (v g : String)
      → Barred v g db
      → is_err (validate_inbound t db v g) ≡ true
  unfolding validate_inbound
  Barred-validate_inbound t db v g h = elim (Option-cases (find_binding v g db.bindings)) [
    | inl e ↦ ground arith
    | inr (b, e) ↦ ground (arith, Barred-find_binding v g db.bindings b h e)
  ]

  -- After a revocation, and any calls of the registry that do not activate a gateway of that
  -- identifier, no message of the gateway for the vehicle is let in.
  pub revoke_bars :
      (t : Draw) (db db' : Registry) (v g reason : String) (ops : List Op)
      → revoke_gateway db v g reason ≡ ok db'
      → All (λ op. activates_no g op ≡ true) ops
      → is_err (validate_inbound t (run digest digest_text db' ops) v g) ≡ true
  revoke_bars t db db' v g reason ops h k =
      Barred-validate_inbound t (run digest digest_text db' ops) v g (
        run-Barred v g db' ops k (
          rw (revoke_gateway-shape digest digest_text db db' v g reason h).1
            (revoke_bindings-Barred v g reason db.bindings)))
