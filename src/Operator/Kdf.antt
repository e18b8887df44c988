-- ===== src/Operator/Kdf.antt =====
-- server/fleet/auth.go: pbkdf2SHA256, beside the description of PBKDF2 in RFC 8018.
use manage_robot.Common.{
  ℕ, zero, suc, ◌+◌, ◌*◌, ◌-◌, ◌/◌, ◌%◌, ◌≤◌, ◌<◌, ◌≡◌, refl, ◌∙◌, ap, sym, true, false, ◌⊎◌, List,
  [], ◌∷◌, ◌++◌, length, take, ltb, length-append, length-take, arith,
}
use mathlib.Core.List.{append-nil, append_assoc}
use manage_robot.Wire.Envelope.{Bytes}
use manage_robot.Operator.Data.{Host}
use manage_robot.Operator.Password.{xor_bytes, big_endian, rounds, block_of, blocks, pbkdf2_sha256}

length-xor_bytes : (ts us : Bytes) → length (xor_bytes ts us) ≡ length ts
unfolding xor_bytes
length-xor_bytes [] us = refl
length-xor_bytes (t ∷ ts) [] = refl
length-xor_bytes (t ∷ ts) (u ∷ us) = ap suc (length-xor_bytes ts us)

module _ (host : Host) (password salt : Bytes) where
  -- U_2, ..., U_c, each the tag of the one before.
  abbrev pub chain : ℕ → Bytes → List Bytes
  chain zero u = []
  chain (suc n) u = host.hmac_sha256 password u ∷ chain n (host.hmac_sha256 password u)

  abbrev pub xor_all : Bytes → List Bytes → Bytes
  xor_all t [] = t
  xor_all t (u ∷ us) = xor_all (xor_bytes t u) us

  -- T_i = U_1 xor U_2 xor ... xor U_c, where U_1 is the tag of the salt and the number i in four bytes.
  unfoldable pub rfc_block : ℕ → ℕ → Bytes
  rfc_block c i =
      let u = host.hmac_sha256 password (salt ++ big_endian (i % 4294967296)) in
      xor_all u (chain (c - 1) u)

  -- T_i || T_(i+1) || ..., so many of them.
  unfoldable pub rfc_blocks : ℕ → ℕ → ℕ → Bytes
  rfc_blocks zero c i = []
  rfc_blocks (suc n) c i = rfc_block c i ++ rfc_blocks n c (i + 1)

  rounds-xor_all : (n : ℕ) (u t : Bytes) → rounds host password salt n u t ≡ xor_all t (chain n u)
  unfolding rounds
  rounds-xor_all zero u t = refl
  rounds-xor_all (suc n) u t =
      rounds-xor_all n (host.hmac_sha256 password u) (xor_bytes t (host.hmac_sha256 password u))

  block_of-rfc_block : (c i : ℕ) → block_of host password salt c i ≡ rfc_block c i
  unfolding block_of rfc_block
  block_of-rfc_block c i = rounds-xor_all (c - 1) _ _

  length-xor_all : (t : Bytes) (us : List Bytes) → length (xor_all t us) ≡ length t
  length-xor_all t [] = refl
  length-xor_all t (u ∷ us) = length-xor_all (xor_bytes t u) us ∙ length-xor_bytes t u

  module _ (long : (m : Bytes) → length (host.hmac_sha256 password m) ≡ 32) where
    length-rfc_block : (c i : ℕ) → length (rfc_block c i) ≡ 32
    unfolding rfc_block
    length-rfc_block c i =
        length-xor_all _ (chain (c - 1) _) ∙ long (salt ++ big_endian (i % 4294967296))

    length-rfc_blocks : (n c i : ℕ) → length (rfc_blocks n c i) ≡ 32 * n
    unfolding rfc_blocks
    length-rfc_blocks zero c i = omega arith
    length-rfc_blocks (suc n) c i = omega (
      arith,
      length-append (rfc_block c i) (rfc_blocks n c (i + 1)),
      length-rfc_block c i,
      length-rfc_blocks n c (i + 1),
    )

    blocks-rfc_blocks :
        (n fuel c k i : ℕ) (out : Bytes)
        → n ≤ fuel
        → k ≤ length out + 32 * n
        → (n ≡ 0) ⊎ (length out + 32 * n < k + 32)
        → blocks host password salt fuel c k i out ≡ out ++ rfc_blocks n c i
    unfolding blocks rfc_blocks
    blocks-rfc_blocks zero zero c k i out f enough tight = sym (append-nil out)
    blocks-rfc_blocks zero (suc fuel) c k i out f enough tight =
        let done : ltb (length out) k ≡ false = ground arith in rw done (sym (append-nil out))
    blocks-rfc_blocks (suc n) zero c k i out f enough tight = ground arith
    blocks-rfc_blocks (suc n) (suc fuel) c k i out f enough tight =
        let more : ltb (length out) k ≡ true = ground arith in
        let size = length-append out (rfc_block c i) in
        let wide = length-rfc_block c i in
        let rest =
          blocks-rfc_blocks n fuel c k (i + 1) (out ++ rfc_block c i) (omega arith) (omega arith)
            (ground arith) in
        rw (more, block_of-rfc_block c i, rest)
          (append_assoc out (rfc_block c i) (rfc_blocks n c (i + 1)))

    -- Where the tags have 32 bytes, the derived key is the first bytes of T_1 || ... || T_l as RFC 8018
    -- has it, with l the number of blocks that are needed, rounded up; and it has as many bytes as were
    -- asked for, so that the loop's fuel is enough.
    pub pbkdf2_sha256-rfc_blocks :
        (c k : ℕ)
        → (pbkdf2_sha256 host password salt c k ≡ take k (rfc_blocks ((k + 31) / 32) c 1))
          × (length (pbkdf2_sha256 host password salt c k) ≡ k)
    unfolding pbkdf2_sha256
    pbkdf2_sha256-rfc_blocks c k =
        let same : blocks host password salt k c k 1 [] ≡ rfc_blocks ((k + 31) / 32) c 1 =
          blocks-rfc_blocks ((k + 31) / 32) k c k 1 [] (omega arith) (omega arith) (ground arith) in
        (
          ap (take k) same,
          ap (λ b. length (take k b)) same
              ∙ omega (
                arith,
                length-take k (rfc_blocks ((k + 31) / 32) c 1),
                length-rfc_blocks ((k + 31) / 32) c 1,
              ),
        )
