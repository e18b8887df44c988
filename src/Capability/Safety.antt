-- ===== src/Capability/Safety.antt =====
-- Control is allowed only to a gateway that the matrix lists and that has all that the entry wants.
use manage_robot.Common.{
  ◌≤◌, ◌≡◌, refl, ◌⊎◌, inl, inr, true, false, Bool-cases, Option, none, some, List, [], ◌∷◌, String,
  length, all, ℤ, ok, arith,
}
use mathlib.Core.List.{Memᴰ}
use manage_robot.Capability.Assess.{
  Capabilities, Entry, Matrix, CapabilityDecision, load_compatibility_matrix, matches, declares,
  decide_entry, decide_first, assess_gateway_capabilities, control_ready, capability_outcome,
}

module _ (stack_name number : ℤ → String) where
  -- The gateway is one of the entry's, and meets its requirements.
  pub record Fulfils (caps : Capabilities) (e : Entry) : Type 0 where
    pub same : matches stack_name number caps e ≡ true
    pub certificate : (e.requires_certificate ≡ false) ⊎ (caps.certificate_installed ≡ true)
    pub modes : all (declares stack_name number caps) e.required_control_modes ≡ true
    pub tpm : (e.requires_tpm_for_control ≡ false) ⊎ (caps.tpm_available ≡ true)
    pub modems : e.required_modems_for_control ≤ length caps.modems

  decide_entry-Fulfils :
      (caps : Capabilities) (e : Entry)
      → matches stack_name number caps e ≡ true
      → (decide_entry stack_name number caps e).control_allowed ≡ true
      → Fulfils caps e
  unfolding decide_entry
  decide_entry-Fulfils caps e m h = record {
    same = m;
    certificate = ground arith;
    modes = ground arith;
    tpm = ground arith;
    modems = ground arith;
  }

  decide_first-Fulfils :
      (caps : Capabilities) (es : List Entry)
      → (decide_first stack_name number caps es).control_allowed ≡ true
      → (e : Entry) × Memᴰ e es × Fulfils caps e
  unfolding decide_first
  decide_first-Fulfils caps [] h = cc
  decide_first-Fulfils caps (e ∷ es) h = elim (Bool-cases (matches stack_name number caps e)) [
    | inl m ↦ (e, Memᴰ.head refl, decide_entry-Fulfils caps e m (rw m at h))
    | inr m ↦
        (let rest = decide_first-Fulfils caps es (rw m at h) in (rest.0, Memᴰ.tail rest.1, rest.2))
  ]

  -- Control is allowed only if some entry of the matrix names the gateway's versions, and the gateway
  -- has the certificate, the control modes, the TPM and the modems that the entry requires.
  pub assess_control_sound :
      (file : Option Matrix) (caps : Capabilities) (d : CapabilityDecision)
      → assess_gateway_capabilities stack_name number file (some caps) ≡ ok d
      → d.control_allowed ≡ true
      → (m : Matrix) × (e : Entry) × (file ≡ some m) × Memᴰ e m.entries × Fulfils caps e
  unfolding assess_gateway_capabilities load_compatibility_matrix
  assess_control_sound none caps d h k = absurd (ground arith)
  assess_control_sound (some m) caps d h k =
      let same : d ≡ decide_first stack_name number caps m.entries = ground arith in
      let found = decide_first-Fulfils caps m.entries (rw same at k) in
      (m, found.0, refl, found.1, found.2)

  decide_first-monitoring :
      (caps : Capabilities) (es : List Entry)
      → (decide_first stack_name number caps es).control_allowed ≡ true
      → (decide_first stack_name number caps es).monitoring_allowed ≡ true
  unfolding decide_first decide_entry
  decide_first-monitoring caps [] h = cc
  decide_first-monitoring caps (e ∷ es) h = ground (arith, decide_first-monitoring caps es)

  -- A gateway that may control may monitor, and the outcome that is recorded for it is control_ready.
  pub assess_control_monitors :
      (file : Option Matrix) (caps : Capabilities) (d : CapabilityDecision)
      → assess_gateway_capabilities stack_name number file (some caps) ≡ ok d
      → d.control_allowed ≡ true
      → (d.monitoring_allowed ≡ true) × (capability_outcome d ≡ control_ready)
  unfolding assess_gateway_capabilities load_compatibility_matrix capability_outcome
  assess_control_monitors none caps d h k = absurd (ground arith)
  assess_control_monitors (some m) caps d h k =
      ground (arith, decide_first-monitoring caps m.entries)
