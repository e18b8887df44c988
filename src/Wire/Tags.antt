-- ===== src/Wire/Tags.antt =====
-- protocols/platform/v1/auth.go: what signing gives to verification.
use manage_robot.Common.{◌≡◌, refl, true, some, inl, inr, Option-cases, [], ◌∷◌, arith}
use manage_robot.Wire.Envelope.{Bytes, Envelope, ControlCommand}
use manage_robot.Wire.Codec.{Codec, Lawful}
use manage_robot.Wire.Auth.{
  bytes_eq, sign_envelope, verify_envelope_auth, control_command_mac_input,
  sign_control_command_mac, verify_control_command_mac,
}

pub bytes_eq_refl : (xs : Bytes) → bytes_eq xs xs ≡ true
unfolding bytes_eq
bytes_eq_refl [] = refl
bytes_eq_refl (x ∷ xs) = ground (arith, bytes_eq_refl xs)

module _ {F : Type 0} (c : Codec F) (lawful : Lawful c) where
  -- An envelope that was signed is verified under the same key, whatever tag it had before.
  pub verify_envelope_auth-sign_envelope :
      (env signed : Envelope) (key : Bytes)
      → sign_envelope c (some env) key ≡ some signed
      → verify_envelope_auth c (some signed) key ≡ true
  unfolding sign_envelope verify_envelope_auth
  verify_envelope_auth-sign_envelope env signed key h =
      elim (Option-cases (c.marshal_envelope (record env { auth_tag = [] }))) [
        | inl e ↦ ground arith
        | inr (b, e) ↦ ground (arith, lawful.length-hmac key b, bytes_eq_refl (c.hmac key b))
      ]

  -- A command that was given its end-to-end MAC is verified under the same key, in any envelope that differs from the one it was made for in
  -- payload and tag only: the envelope's payload is filled in after the command was signed.
  pub verify_control_command_mac-sign :
      (env : Envelope) (payload tag : Bytes) (cmd signed : ControlCommand F) (key : Bytes)
      → sign_control_command_mac c (some env) cmd key ≡ some signed
      → verify_control_command_mac c
          (some (record env { payload = payload; auth_tag = tag }))
          (some signed)
          key
        ≡ true
  unfolding sign_control_command_mac verify_control_command_mac control_command_mac_input
  verify_control_command_mac-sign env payload tag cmd signed key h =
      elim (Option-cases (control_command_mac_input c (some env) (some cmd))) [
        | inl e ↦ ground arith
        | inr (b, e) ↦ ground (arith, lawful.length-hmac key b, bytes_eq_refl (c.hmac key b))
      ]
