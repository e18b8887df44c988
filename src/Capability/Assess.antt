-- ===== src/Capability/Assess.antt =====
-- protocols/platform/v1/capability_validation.go: AssessGatewayCapabilities over the compatibility
-- matrix, which json.Unmarshal reads from a file that is compiled in. `stack_name` and `number` print
-- the numbers of an enum as the generated code does.
use manage_robot.Common.{
  ℕ, Bool, true, false, not, ◌&&◌, ◌||◌, Option, none, some, List, [], ◌∷◌, ◌++◌, String, str_eq,
  trim, if◌then◌else◌, length, any, all, ltb, ◌==◌, ℤ, pos, eqb_ℤ, Result, ok, err, ◌>>=◌, ◌>>◌,
  refuse_if, or_fail,
}
use manage_robot.Wire.Envelope.{
  ControlMode, mode_unspecified, direct_actuation, target_motion, trajectory, minimal_risk,
  unknown_mode,
}
use manage_robot.Wire.Auth.{is_empty}

pub record Camera : Type 0 where
  pub camera_id : String
  pub width : ℕ
  pub height : ℕ
  pub fps : ℕ
  pub codec : String
  pub max_bitrate_kbps : ℕ

pub record Capabilities : Type 0 where
  pub vehicle_id : String
  pub gateway_version : String
  pub stack : ℤ
  pub stack_version : String
  pub topic_mapping_version : String
  pub adapter_version : String
  pub safety_arbiter_version : String
  pub supported_control_modes : List ControlMode
  pub cameras : List (Option Camera)
  pub modems : List (Option String)
  pub workspace_features : List String
  pub tpm_available : Bool
  pub certificate_installed : Bool

pub record Entry : Type 0 where
  pub id : String
  pub stack : String
  pub stack_version : String
  pub gateway_version : String
  pub adapter_version : String
  pub safety_arbiter_version : String
  pub topic_mapping_version : String
  pub required_control_modes : List String
  pub requires_certificate : Bool
  pub requires_tpm_for_control : Bool
  pub required_modems_for_control : ℕ

-- What json.Unmarshal made of the file. A negative number of modems is refused when it is read.
pub record Matrix : Type 0 where
  pub schema_major : ℕ
  pub schema_minor : ℕ
  pub entries : List Entry

pub data Reason : Type 0 where
  no_certificate no_tpm : Reason
  missing_mode : String → Reason
  too_few_modems : ℕ → Reason

pub data ControlReason : Type 0 where
  no_reason complete unmatched : ControlReason
  because : List Reason → ControlReason

pub record CapabilityDecision : Type 0 where
  pub matrix_entry : String
  pub monitoring_allowed : Bool
  pub control_allowed : Bool
  pub control_reason : ControlReason

pub data CapabilityError : Type 0 where
  caps_nil missing_identity no_modes too_many unknown_control_mode duplicate_mode : CapabilityError
  bad_camera duplicate_camera bad_modem duplicate_modem : CapabilityError
  bad_json bad_matrix bad_entry : CapabilityError

entry_incomplete : Entry → Bool
entry_incomplete e =
    is_empty e.id
    || is_empty e.stack
    || is_empty e.stack_version
    || is_empty e.gateway_version
    || is_empty e.adapter_version
    || is_empty e.safety_arbiter_version
    || is_empty e.topic_mapping_version

unfoldable pub load_compatibility_matrix : Option Matrix → Result CapabilityError Matrix
unfolding entry_incomplete
load_compatibility_matrix parsed = do
  matrix ← or_fail parsed bad_json
  refuse_if
      (not (matrix.schema_major == 1)
        || not (matrix.schema_minor == 0)
        || length matrix.entries == 0)
      bad_matrix
  refuse_if (any entry_incomplete matrix.entries) bad_entry
  ok matrix

unfoldable pub mode_name : (ℤ → String) → ControlMode → String
mode_name number mode_unspecified = "CONTROL_MODE_UNSPECIFIED"
mode_name number direct_actuation = "CONTROL_MODE_DIRECT_ACTUATION"
mode_name number target_motion = "CONTROL_MODE_TARGET_MOTION"
mode_name number trajectory = "CONTROL_MODE_TRAJECTORY"
mode_name number minimal_risk = "CONTROL_MODE_MINIMAL_RISK"
mode_name number (unknown_mode n) = number n

abbrev known_mode : ControlMode → Bool
known_mode mode_unspecified = false
known_mode (unknown_mode n) = false
known_mode _ = true

same_mode : ControlMode → ControlMode → Bool
same_mode direct_actuation direct_actuation = true
same_mode target_motion target_motion = true
same_mode trajectory trajectory = true
same_mode minimal_risk minimal_risk = true
same_mode _ _ = false

-- The loop over the modes, with those it has seen.
check_modes : List ControlMode → List ControlMode → Result CapabilityError (Unit {0})
unfolding same_mode
check_modes seen [] = ok tt
check_modes seen (m ∷ ms) =
    let rest = check_modes (m ∷ seen) ms in
    if not (known_mode m)
    then err unknown_control_mode
    else if any (same_mode m) seen
    then err duplicate_mode
    else rest

is_blank : String → Bool
is_blank s = is_empty (trim s)

camera_bad : Camera → Bool
unfolding is_blank
camera_bad cam =
    is_blank cam.camera_id
    || cam.width == 0
    || cam.height == 0
    || ltb 16384 cam.width
    || ltb 16384 cam.height
    || cam.fps == 0
    || ltb 240 cam.fps
    || is_blank cam.codec
    || cam.max_bitrate_kbps == 0

check_cameras : List String → List (Option Camera) → Result CapabilityError (Unit {0})
unfolding camera_bad
check_cameras seen [] = ok tt
check_cameras seen (none ∷ cams) = err bad_camera
check_cameras seen (some cam ∷ cams) =
    let rest = check_cameras (cam.camera_id ∷ seen) cams in
    if camera_bad cam
    then err bad_camera
    else if any (str_eq cam.camera_id) seen
    then err duplicate_camera
    else rest

-- A modem is its identifier.
check_modems : List String → List (Option String) → Result CapabilityError (Unit {0})
unfolding is_blank
check_modems seen [] = ok tt
check_modems seen (none ∷ modems) = err bad_modem
check_modems seen (some id ∷ modems) =
    let rest = check_modems (id ∷ seen) modems in
    if is_blank id
    then err bad_modem
    else if any (str_eq id) seen
    then err duplicate_modem
    else rest

identity_missing : Capabilities → Bool
unfolding is_blank
identity_missing caps =
    is_blank caps.vehicle_id
    || is_blank caps.gateway_version
    || is_blank caps.stack_version
    || is_blank caps.topic_mapping_version
    || is_blank caps.adapter_version
    || is_blank caps.safety_arbiter_version
    || eqb_ℤ caps.stack (pos 0)

unfoldable pub validate_capabilities : Capabilities → Result CapabilityError (Unit {0})
unfolding identity_missing check_modes check_cameras check_modems
validate_capabilities caps = do
  refuse_if (identity_missing caps) missing_identity
  refuse_if (length caps.supported_control_modes == 0) no_modes
  refuse_if
      (ltb 16 (length caps.supported_control_modes)
        || ltb 8 (length caps.modems)
        || ltb 64 (length caps.cameras)
        || ltb 64 (length caps.workspace_features))
      too_many
  check_modes [] caps.supported_control_modes
  check_cameras [] caps.cameras
  check_modems [] caps.modems

module _ (stack_name number : ℤ → String) where
  unfoldable pub matches : Capabilities → Entry → Bool
  matches caps e =
      str_eq e.stack (stack_name caps.stack)
      && str_eq e.stack_version caps.stack_version
      && str_eq e.gateway_version caps.gateway_version
      && str_eq e.adapter_version caps.adapter_version
      && str_eq e.safety_arbiter_version caps.safety_arbiter_version
      && str_eq e.topic_mapping_version caps.topic_mapping_version

  abbrev pub declares : Capabilities → String → Bool
  declares caps name = any (λ m. str_eq (mode_name number m) name) caps.supported_control_modes

  -- The loop over the required modes: a reason for each that is not declared.
  unfoldable pub mode_reasons : Capabilities → List String → List Reason
  mode_reasons caps [] = []
  mode_reasons caps (name ∷ names) =
      let rest = mode_reasons caps names in
      if declares caps name then rest else missing_mode name ∷ rest

  abbrev lacks_certificate : Capabilities → Entry → Bool
  lacks_certificate caps e = e.requires_certificate && not caps.certificate_installed

  abbrev lacks_tpm : Capabilities → Entry → Bool
  lacks_tpm caps e = e.requires_tpm_for_control && not caps.tpm_available

  abbrev lacks_modems : Capabilities → Entry → Bool
  lacks_modems caps e = ltb (length caps.modems) e.required_modems_for_control

  abbrev when : Bool → Reason → List Reason
  when true r = r ∷ []
  when false r = []

  unfoldable pub reasons_of : Capabilities → Entry → List Reason
  reasons_of caps e =
      when (lacks_certificate caps e) no_certificate
      ++ mode_reasons caps e.required_control_modes
      ++ when (lacks_tpm caps e) no_tpm
      ++ when (lacks_modems caps e) (too_few_modems e.required_modems_for_control)

  unfoldable pub decide_entry : Capabilities → Entry → CapabilityDecision
  decide_entry caps e =
      let monitoring = not (lacks_certificate caps e) in
      let control =
        monitoring
        && all (declares caps) e.required_control_modes
        && not (lacks_tpm caps e)
        && not (lacks_modems caps e) in
      record {
        matrix_entry = e.id;
        monitoring_allowed = monitoring;
        control_allowed = control;
        control_reason = if monitoring && control then complete else because (reasons_of caps e);
      }

  -- The loop over the matrix returns at the first entry that matches.
  unfoldable pub decide_first : Capabilities → List Entry → CapabilityDecision
  decide_first caps [] = record {
    matrix_entry = "";
    monitoring_allowed = false;
    control_allowed = false;
    control_reason = unmatched;
  }
  decide_first caps (e ∷ es) =
      let rest = decide_first caps es in if matches caps e then decide_entry caps e else rest

  unfoldable pub assess_gateway_capabilities :
      Option Matrix → Option Capabilities → Result CapabilityError CapabilityDecision
  assess_gateway_capabilities file none = err caps_nil
  assess_gateway_capabilities file (some caps) = do
    validate_capabilities caps
    matrix ← load_compatibility_matrix file
    ok (decide_first caps matrix.entries)

pub data Outcome : Type 0 where
  rejected control_ready monitoring_only : Outcome

-- server/fleet/capabilities.go: capabilityOutcome
unfoldable pub capability_outcome : CapabilityDecision → Outcome
capability_outcome d =
    if not d.monitoring_allowed
    then rejected
    else if d.control_allowed
    then control_ready
    else monitoring_only
