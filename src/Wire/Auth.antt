-- ===== src/Wire/Auth.antt =====
-- protocols/platform/v1/auth.go: the transport contract of an envelope and its two tags.
use manage_robot.Common.{
  ℕ, ◌*◌, Bool, true, false, not, ◌&&◌, ◌||◌, Option, none, some, [], ◌∷◌, String, str_eq, ltb,
  ◌==◌, if◌then◌else◌, length, ℤ, pos, negsuc, ltb_ℤ, leb_ℤ, ◌+ℤ◌, Result, ok, err, ◌>>◌, refuse_if,
}
use manage_robot.Wire.GoTime.{Time, time_sub, unix_ns, is_zero}
use manage_robot.Wire.Envelope.{Bytes, Envelope, ControlCommand}
use manage_robot.Wire.Codec.{Codec}

abbrev pub max_envelope_payload : ℕ
max_envelope_payload = 1048576

abbrev pub max_envelope_ttl_ms : ℕ
max_envelope_ttl_ms = 60000

-- One constructor for each message of an error.
pub data EnvelopeError : Type 0 where
  envelope_nil unsupported_schema unexpected_type identity_mismatch : EnvelopeError
  missing_freshness invalid_ttl_or_trace invalid_payload_size envelope_expired : EnvelopeError

abbrev pub is_empty : String → Bool
is_empty s = str_eq s ""

-- time.Duration(ttl) * time.Millisecond
abbrev pub ttl_ns : ℕ → ℤ
ttl_ns ttl = pos (ttl * 1000000)

abbrev effective_now : Time → Time → Time
effective_now now clock = if is_zero now then clock else now

unfoldable pub wrong_identity : Envelope → String → String → Bool
wrong_identity env vehicle_id gateway_id =
    is_empty env.vehicle_id
    || not (str_eq env.vehicle_id vehicle_id)
    || is_empty env.gateway_id
    || not (str_eq env.gateway_id gateway_id)

unfoldable pub no_freshness : Envelope → Bool
no_freshness env =
    is_empty env.session_id
    || env.sequence == 0
    || leb_ℤ env.utc_time_ns (pos 0)
    || env.monotonic_time_ns == 0

unfoldable pub outside_window : Envelope → Time → Bool
outside_window env now =
    let age = time_sub now (unix_ns env.utc_time_ns) in
    ltb_ℤ age (negsuc 1999999999) || ltb_ℤ (ttl_ns env.ttl_ms +ℤ pos 2000000000) age

-- `clock` is what time.Now returns, which is read where `now` is the zero time.
unfoldable pub validate_envelope :
    Option Envelope → String → String → String → Time → Time → Result EnvelopeError (Unit {0})
validate_envelope none expected_type vehicle_id gateway_id now clock = err envelope_nil
validate_envelope (some env) expected_type vehicle_id gateway_id now clock = do
  refuse_if (not (env.schema_major == 1) || not (env.schema_minor == 0)) unsupported_schema
  refuse_if (not (is_empty expected_type) && not (str_eq env.message_type expected_type))
      unexpected_type
  refuse_if (wrong_identity env vehicle_id gateway_id) identity_mismatch
  refuse_if (no_freshness env) missing_freshness
  refuse_if (env.ttl_ms == 0 || ltb max_envelope_ttl_ms env.ttl_ms || is_empty env.trace_id)
      invalid_ttl_or_trace
  refuse_if (length env.payload == 0 || ltb max_envelope_payload (length env.payload))
      invalid_payload_size
  refuse_if (outside_window env (effective_now now clock)) envelope_expired
  ok tt

-- hmac.Equal
unfoldable pub bytes_eq : Bytes → Bytes → Bool
bytes_eq [] [] = true
bytes_eq [] (y ∷ ys) = false
bytes_eq (x ∷ xs) [] = false
bytes_eq (x ∷ xs) (y ∷ ys) = x == y && bytes_eq xs ys

module _ {F : Type 0} (c : Codec F) where
  -- `none` is the error: a short key, or a message that does not marshal.
  unfoldable pub sign_envelope : Option Envelope → Bytes → Option Envelope
  sign_envelope none key = none
  sign_envelope (some env) key =
      if ltb (length key) 32
      then none
      else elim (c.marshal_envelope (record env { auth_tag = [] })) [
        | none ↦ none
        | some canonical ↦ some (record env { auth_tag = c.hmac key canonical })
      ]

  unfoldable pub tag_matches : Bytes → Bytes → Option Bytes → Bool
  tag_matches got key none = false
  tag_matches got key (some canonical) = bytes_eq got (c.hmac key canonical)

  unfoldable pub verify_envelope_auth : Option Envelope → Bytes → Bool
  unfolding tag_matches
  verify_envelope_auth none key = false
  verify_envelope_auth (some env) key =
      if ltb (length key) 32 || not (length env.auth_tag == 32)
      then false
      else tag_matches env.auth_tag key (c.marshal_envelope (record env { auth_tag = [] }))

  -- The envelope around the command, with both tags cleared.
  unfoldable pub control_command_mac_input :
      Option Envelope → Option (ControlCommand F) → Option Bytes
  control_command_mac_input none command = none
  control_command_mac_input (some env) none = none
  control_command_mac_input (some env) (some command) =
      elim (c.marshal_command (record command { end_to_end_mac = [] })) [
        | none ↦ none
        | some bytes ↦ c.marshal_envelope (record env { payload = bytes; auth_tag = [] })
      ]

  unfoldable pub sign_control_command_mac :
      Option Envelope → ControlCommand F → Bytes → Option (ControlCommand F)
  sign_control_command_mac env command key =
      if ltb (length key) 32 then none else elim (control_command_mac_input env (some command)) [
        | none ↦ none
        | some canonical ↦ some (record command { end_to_end_mac = c.hmac key canonical })
      ]

  unfoldable pub verify_control_command_mac :
      Option Envelope → Option (ControlCommand F) → Bytes → Bool
  unfolding tag_matches
  verify_control_command_mac none command key = false
  verify_control_command_mac (some env) none key = false
  verify_control_command_mac (some env) (some command) key =
      if ltb (length key) 32 || not (length command.end_to_end_mac == 32)
      then false
      else tag_matches command.end_to_end_mac key
          (control_command_mac_input (some env) (some command))
