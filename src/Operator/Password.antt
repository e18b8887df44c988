-- ===== src/Operator/Password.antt =====
-- server/fleet/auth.go: hashPassword, pbkdf2SHA256 and verifyPassword.
use Prim.Native.String.{◌++◌ as append}
use manage_robot.Common.{
  ℕ, zero, suc, ◌+◌, ◌*◌, ◌-◌, ◌/◌, ◌%◌, Bool, false, not, ◌||◌, Option, some, [], ◌∷◌, ◌++◌,
  String, str_eq, length, take, ltb, ◌==◌, ℤ, pos, if◌then◌else◌,
}
use manage_robot.Wire.Envelope.{Bytes}
use manage_robot.Wire.Auth.{bytes_eq}
use manage_robot.Operator.Data.{Host}

abbrev pub password_kdf_iterations : ℕ
password_kdf_iterations = 310000

-- The exclusive or of the lowest bits.
xor_bits : ℕ → ℕ → ℕ → ℕ
xor_bits zero a b = 0
xor_bits (suc n) a b = (a % 2 + b % 2) % 2 + 2 * xor_bits n (a / 2) (b / 2)

-- for j := range t { t[j] ^= u[j] }
unfoldable pub xor_bytes : Bytes → Bytes → Bytes
unfolding xor_bits
xor_bytes [] us = []
xor_bytes (t ∷ ts) [] = t ∷ ts
xor_bytes (t ∷ ts) (u ∷ us) = xor_bits 8 t u ∷ xor_bytes ts us

-- byte(block >> 24), byte(block >> 16), byte(block >> 8), byte(block)
abbrev pub big_endian : ℕ → Bytes
big_endian n = n / 16777216 % 256 ∷ n / 65536 % 256 ∷ n / 256 % 256 ∷ n % 256 ∷ []

module _ (host : Host) (password salt : Bytes) where
  -- The loop over the iterations after the first.
  unfoldable pub rounds : ℕ → Bytes → Bytes → Bytes
  rounds zero u t = t
  rounds (suc n) u t = let v = host.hmac_sha256 password u in rounds n v (xor_bytes t v)

  unfoldable pub block_of : ℕ → ℕ → Bytes
  block_of iterations block =
      let u = host.hmac_sha256 password (salt ++ big_endian (block % 4294967296)) in
      rounds (iterations - 1) u u

  -- The loop over the blocks, on fuel.
  unfoldable pub blocks : ℕ → ℕ → ℕ → ℕ → Bytes → Bytes
  blocks zero iterations key_len block out = out
  blocks (suc fuel) iterations key_len block out =
      let rest = blocks fuel iterations key_len (block + 1) (out ++ block_of iterations block) in
      if ltb (length out) key_len then rest else out

  -- A block has a byte at least, so that the loop ends after `key_len` blocks.
  unfoldable pub pbkdf2_sha256 : ℕ → ℕ → Bytes
  pbkdf2_sha256 iterations key_len = take key_len (blocks key_len iterations key_len 1 [])

unfoldable pub hash_password : Host → String → String → String
hash_password host salt pwd =
    let derived = pbkdf2_sha256 host (host.utf8 pwd) (host.utf8 salt) password_kdf_iterations 32 in
    append "pbkdf2-sha256$"
      (append (host.itoa password_kdf_iterations) (append "$" (host.hex_encode derived)))

-- The record of three parts.
unfoldable pub verify_parts : Host → String → String → Option ℤ → Option Bytes → Bool
verify_parts host salt pwd (some (pos iterations)) (some want) =
    if ltb iterations 100000 || ltb 1000000 iterations || not (length want == 32)
    then false
    else bytes_eq (pbkdf2_sha256 host (host.utf8 pwd) (host.utf8 salt) iterations (length want))
        want
verify_parts host salt pwd iterations want = false

-- A record from before the key derivation.
unfoldable pub verify_legacy : Host → String → String → String → Bool
verify_legacy host salt pwd stored = str_eq (host.sha256_hex (append salt (append ":" pwd))) stored

unfoldable pub verify_password : Host → String → String → String → Bool
verify_password host salt pwd stored = elim (host.split_dollar stored) [
  | kind ∷ iterations ∷ want ∷ [] ↦
      if str_eq kind "pbkdf2-sha256"
      then verify_parts host salt pwd (host.atoi iterations) (host.hex_decode want)
      else verify_legacy host salt pwd stored
  | _ ↦ verify_legacy host salt pwd stored
]
