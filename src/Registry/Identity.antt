-- ===== src/Registry/Identity.antt =====
-- server/fleet/vehicle_registry.go, Activate: who may activate a gateway.
use mathlib.Core.List.{Memᴰ}
use manage_robot.Common.{
  ◌≡◌, refl, sym, subst, ◌⊎◌, inl, inr, true, Option, none, some, List, [], ◌∷◌, String, eq_iff,
  trim, ◌≤ℤ◌, Result, ok, err, arith, Option-cases,
}
use manage_robot.Wire.Envelope.{Bytes}
use manage_robot.Registry.Enrollment.{
  Certificate, Enrollment, Binding, Registry, Draw, RegistryError, spiffe_gateway_id,
  certificate_spiffe, is_open_for, open_enrollment, consume, activate_tx, activate,
}

open_enrollment_choice :
    (v g : String) (d : Enrollment) (es : List Enrollment) (e : Enrollment)
    → open_enrollment v g (d ∷ es) ≡ some e
    → ((d ≡ e) × (is_open_for v g d ≡ true)) ⊎ (open_enrollment v g es ≡ some e)
unfolding open_enrollment
open_enrollment_choice v g d es e h = ground arith

open_enrollment-Memᴰ :
    (v g : String) (es : List Enrollment) (e : Enrollment)
    → open_enrollment v g es ≡ some e
    → Memᴰ e es × (is_open_for v g e ≡ true)
unfolding open_enrollment
open_enrollment-Memᴰ v g [] e h = absurd (ground arith)
open_enrollment-Memᴰ v g (d ∷ es) e h = elim (open_enrollment_choice v g d es e h) [
  | inl (same, yes') ↦ (Memᴰ.head (sym same), subst (λ x. is_open_for v g x ≡ true) same yes')
  | inr older ↦ (let rest = open_enrollment-Memᴰ v g es e older in (Memᴰ.tail rest.0, rest.1))
]

open_enrollment-consume :
    (v g cert : String) (es : List Enrollment) → open_enrollment v g (consume v g cert es) ≡ none
unfolding open_enrollment consume
open_enrollment-consume v g cert [] = refl
open_enrollment-consume v g cert (e ∷ es) = ground (arith, open_enrollment-consume v g cert es)

-- The enrolment `e` allows a gateway of the given identity to be activated with a token.
pub record Authorised (t : Draw) (db : Registry) (vehicle gateway token_sha256 spiffe : String)
    (e : Enrollment) : Type 0 where
  pub member : Memᴰ e db.enrollments
  pub unused : is_open_for vehicle gateway e ≡ true
  pub token : e.token_sha256 ≡ token_sha256
  pub identity : e.expected_spiffe_id ≡ spiffe
  pub in_time : t.now ≤ℤ e.expires_at

module _ (digest : Bytes → String) (digest_text : String → String) where
  pub consumed :
      (t : Draw) (db db' : Registry) (b : Binding) (v g token : String) (cert : Option Certificate)
      → activate digest digest_text t db v g token cert ≡ ok (db', b)
      → open_enrollment (trim v) (trim g) db'.enrollments ≡ none
  unfolding activate activate_tx
  consumed t db db' b v g token cert h =
      ground (arith, open_enrollment-consume (trim v) (trim g) b.certificate_sha256 db.enrollments)

  activate_tx-Authorised :
      (t : Draw) (db db' : Registry) (b : Binding) (v g token : String) (cert : Certificate)
      (spiffe : String) (e : Enrollment)
      → open_enrollment v g db.enrollments ≡ some e
      → activate_tx digest digest_text t db v g token cert spiffe ≡ ok (db', b)
      → Authorised t db v g (digest_text token) spiffe e × (b.certificate_subject ≡ spiffe)
  unfolding activate_tx
  activate_tx-Authorised t db db' b v g token cert spiffe e found h =
      let member = open_enrollment-Memᴰ v g db.enrollments e found in
      let facts : (t.now ≤ℤ e.expires_at)
          × (e.token_sha256 ≡ digest_text token)
          × (e.expected_spiffe_id ≡ spiffe)
          × (b.certificate_subject ≡ spiffe) =
        ground
          (arith, eq_iff e.token_sha256 (digest_text token), eq_iff e.expected_spiffe_id spiffe) in
      (
        record {
          member = member.0;
          unused = member.1;
          token = facts.1;
          identity = facts.2;
          in_time = facts.0;
        },
        facts.3,
      )

  nothing_open :
      (t : Draw) (db db' : Registry) (b : Binding) (v g token : String) (c : Certificate)
      (spiffe : String)
      → open_enrollment v g db.enrollments ≡ none
      → activate_tx digest digest_text t db v g token c spiffe ≡ ok (db', b)
      → ⊥
  unfolding activate_tx
  nothing_open t db db' b v g token c spiffe e h = ground arith

  activate_inner :
      (t : Draw) (db db' : Registry) (b : Binding) (v g token : String) (c : Certificate)
      (r : Result RegistryError String)
      → certificate_spiffe (some c) ≡ r
      → activate digest digest_text t db v g token (some c) ≡ ok (db', b)
      → (r ≡ ok (spiffe_gateway_id (trim v) (trim g)))
        × (t.now ≤ℤ c.not_after)
        × (activate_tx digest digest_text t db
              (trim v)
              (trim g)
              (trim token)
              c
              (spiffe_gateway_id (trim v) (trim g))
            ≡ ok (db', b))
  unfolding activate
  activate_inner t db db' b v g token c (err x) e h = absurd (ground arith)
  activate_inner t db db' b v g token c (ok spiffe) e h =
      let same : spiffe ≡ spiffe_gateway_id (trim v) (trim g) =
        ground (arith, eq_iff spiffe (spiffe_gateway_id (trim v) (trim g))) in
      (
        rw same refl,
        ground arith,
        ground (arith, eq_iff spiffe (spiffe_gateway_id (trim v) (trim g))),
      )

  activate_tx-digest :
      (t : Draw) (db db' : Registry) (b : Binding) (v g token : String) (c : Certificate)
      (spiffe : String)
      → activate_tx digest digest_text t db v g token c spiffe ≡ ok (db', b)
      → (b.certificate_sha256 ≡ digest c.raw) × (b.certificate_not_after ≡ c.not_after)
  unfolding activate_tx
  activate_tx-digest t db db' b v g token c spiffe h = ground arith

  -- An activation succeeds only with the token of an enrolment of that vehicle and gateway that is
  -- stored, unused and in time, and with a certificate that has not run out and whose SPIFFE
  -- identifier is the one spelled from the two identifiers; the binding holds that certificate's
  -- digest and end.
  pub activate-Authorised :
      (t : Draw) (db db' : Registry) (b : Binding) (v g token : String) (cert : Option Certificate)
      → activate digest digest_text t db v g token cert ≡ ok (db', b)
      → (e : Enrollment) × (c : Certificate) × Authorised t db
          (trim v)
          (trim g)
          (digest_text (trim token))
          (spiffe_gateway_id (trim v) (trim g))
          e
        × (cert ≡ some c)
        × (certificate_spiffe cert ≡ ok (spiffe_gateway_id (trim v) (trim g)))
        × (t.now ≤ℤ c.not_after)
        × (b.certificate_subject ≡ spiffe_gateway_id (trim v) (trim g))
        × (b.certificate_sha256 ≡ digest c.raw)
        × (b.certificate_not_after ≡ c.not_after)
  unfolding activate
  activate-Authorised t db db' b v g token none h = absurd (ground arith)
  activate-Authorised t db db' b v g token (some c) h =
      let (own, timely, inner) =
        activate_inner t db db' b v g token c (certificate_spiffe (some c)) refl h in
      elim (Option-cases (open_enrollment (trim v) (trim g) db.enrollments)) [
        | inl e ↦ absurd (
            nothing_open t db db' b (trim v) (trim g) (trim token) c
              (spiffe_gateway_id (trim v) (trim g)) e inner)
        | inr (e, found) ↦
            (let sure =
                activate_tx-Authorised t db db' b (trim v) (trim g) (trim token) c
                  (spiffe_gateway_id (trim v) (trim g)) e found inner in
              let digests =
                activate_tx-digest t db db' b (trim v) (trim g) (trim token) c
                  (spiffe_gateway_id (trim v) (trim g)) inner in
              (e, c, sure.0, refl, own, timely, sure.1, digests.0, digests.1))
      ]
