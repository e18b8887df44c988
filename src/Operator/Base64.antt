-- ===== src/Operator/Base64.antt =====
-- server/fleet/auth.go: b64, with a decoder to compare it with. The text is the list of its bytes.
use Prim.Native.Char.{code}
use manage_robot.Common.{
  ℕ, zero, suc, ◌+◌, ◌*◌, ◌-◌, ◌/◌, ◌%◌, ◌<◌, ◌≡◌, refl, ap, inl, inr, Bool, true, false, not, ◌&&◌,
  [], ◌∷◌, String, ltb, ◌==◌, if◌then◌else◌, Bool-cases, All, arith,
}
use manage_robot.Wire.Envelope.{Bytes}

abbrev tbl : String
tbl = "ABCDEFGHIJKLMNOPQRSTUVWXYZabcdefghijklmnopqrstuvwxyz0123456789+/"

byte_at : String → ℕ → ℕ
byte_at String.[] n = 0
byte_at (String.◌∷◌ c s) zero = code c
byte_at (String.◌∷◌ c s) (suc n) = byte_at s n

unfoldable pub letter : ℕ → ℕ
unfolding byte_at
letter n = byte_at tbl n

unfoldable pub b64 : Bytes → Bytes
b64 [] = []
b64 (a ∷ []) =
    let n = a * 65536 in letter (n / 262144 % 64) ∷ letter (n / 4096 % 64) ∷ b'=' ∷ b'=' ∷ []
b64 (a ∷ b ∷ []) =
    let n = a * 65536 + b * 256 in
    letter (n / 262144 % 64) ∷ letter (n / 4096 % 64) ∷ letter (n / 64 % 64) ∷ b'=' ∷ []
b64 (a ∷ b ∷ c ∷ rest) =
    let n = a * 65536 + b * 256 + c in
    letter (n / 262144 % 64)
    ∷ letter (n / 4096 % 64)
    ∷ letter (n / 64 % 64)
    ∷ letter (n % 64)
    ∷ b64 rest

-- The value of a letter, by the ranges of RFC 4648.
unfoldable pub value_of : ℕ → ℕ
value_of ch =
    if ltb ch 44
    then 62
    else if ltb ch 48
    then 63
    else if ltb ch 58
    then ch + 4
    else if ltb ch 91
    then ch - 65
    else ch - 71

-- Four letters give three bytes, or fewer before a padding.
unfoldable pub decode64 : Bytes → Bytes
decode64 (w ∷ x ∷ y ∷ z ∷ rest) =
    let more = decode64 rest in
    let high = value_of w * 262144 + value_of x * 4096 in
    if y == b'='
    then high / 65536 ∷ []
    else if z == b'='
    then (high + value_of y * 64) / 65536 ∷ (high + value_of y * 64) / 256 % 256 ∷ []
    else let n = high + value_of y * 64 + value_of z in n / 65536 ∷ n / 256 % 256 ∷ n % 256 ∷ more
decode64 text = []

-- The test holds of all numbers below.
below : ℕ → (ℕ → Bool) → Bool
below zero p = true
below (suc k) p = let rest = below k p in p k && rest

below-at : (k n : ℕ) (p : ℕ → Bool) → below k p ≡ true → n < k → p n ≡ true
unfolding below
below-at zero n p h lt = ground arith
below-at (suc k) n p h lt = elim (Bool-cases (n == k)) [
  | inl same ↦ ground arith
  | inr other ↦ below-at k n p (ground arith) (ground arith)
]

sound_letter : ℕ → Bool
sound_letter n = value_of (letter n) == n && not (letter n == b'=')

sound_letters : below 64 sound_letter ≡ true
unfolding below sound_letter value_of letter
sound_letters = refl

letter-value : (n : ℕ) → n < 64 → (value_of (letter n) ≡ n) × ((letter n == b'=') ≡ false)
unfolding sound_letter
letter-value n lt = ground (arith, below-at 64 n sound_letter sound_letters lt)

joined :
    (n : ℕ)
    → n < 16777216
    → n / 262144 % 64 * 262144 + n / 4096 % 64 * 4096 + n / 64 % 64 * 64 + n % 64 ≡ n
joined n lt = omega arith

one_byte :
    (a : ℕ)
    → a < 256
    → (a * 65536 / 262144 % 64 * 262144 + a * 65536 / 4096 % 64 * 4096) / 65536 ≡ a
one_byte a la = omega arith

bytes_of :
    (a b c : ℕ)
    → b < 256
    → c < 256
    → ((a * 65536 + b * 256 + c) / 65536 ≡ a)
      × ((a * 65536 + b * 256 + c) / 256 % 256 ≡ b)
      × ((a * 65536 + b * 256 + c) % 256 ≡ c)
bytes_of a b c lb lc = (omega arith, omega arith, omega arith)

two_bytes :
    (a b : ℕ)
    → a < 256
    → b < 256
    → let n = a * 65536 + b * 256 in
      let m = n / 262144 % 64 * 262144 + n / 4096 % 64 * 4096 + n / 64 % 64 * 64 in
      m / 65536 ∷ m / 256 % 256 ∷ [] ≡ a ∷ b ∷ []
two_bytes a b la lb =
    let n = a * 65536 + b * 256 in
    let whole : n / 262144 % 64 * 262144 + n / 4096 % 64 * 4096 + n / 64 % 64 * 64 ≡ n =
      omega (arith, joined n (omega arith)) in
    let high : n / 65536 ≡ a = omega arith in
    let low : n / 256 % 256 ≡ b = omega arith in rw (whole, high, low) refl

three_bytes :
    (a b c : ℕ) (rest : Bytes) {more : Bytes}
    → a < 256
    → b < 256
    → c < 256
    → more ≡ rest
    → let n = a * 65536 + b * 256 + c in
      let m = n / 262144 % 64 * 262144 + n / 4096 % 64 * 4096 + n / 64 % 64 * 64 + n % 64 in
      m / 65536 ∷ m / 256 % 256 ∷ m % 256 ∷ more ≡ a ∷ b ∷ c ∷ rest
three_bytes a b c rest la lb lc same =
    let n = a * 65536 + b * 256 + c in
    let (high, low, last) = bytes_of a b c lb lc in
    rw (joined n (omega arith), high, low, last, same) refl

-- The decoder gives back what was encoded, for every list of bytes.
pub decode64-b64 : (bs : Bytes) → All (λ b. b < 256) bs → decode64 (b64 bs) ≡ bs
unfolding b64 decode64
decode64-b64 [] all = refl
decode64-b64 (a ∷ []) (la, all) =
    let n = a * 65536 in
    let w = letter-value (n / 262144 % 64) (omega arith) in
    let x = letter-value (n / 4096 % 64) (omega arith) in
    rw (w.0, x.0) (ap (λ v. v ∷ []) (one_byte a la))
decode64-b64 (a ∷ b ∷ []) (la, (lb, all)) =
    let n = a * 65536 + b * 256 in
    let w = letter-value (n / 262144 % 64) (omega arith) in
    let x = letter-value (n / 4096 % 64) (omega arith) in
    let y = letter-value (n / 64 % 64) (omega arith) in
    rw (w.0, x.0, y.0, y.1) (two_bytes a b la lb)
decode64-b64 (a ∷ b ∷ c ∷ rest) (la, (lb, (lc, all))) =
    let n = a * 65536 + b * 256 + c in
    let w = letter-value (n / 262144 % 64) (omega arith) in
    let x = letter-value (n / 4096 % 64) (omega arith) in
    let y = letter-value (n / 64 % 64) (omega arith) in
    let z = letter-value (n % 64) (omega arith) in
    rw (w.0, x.0, y.0, z.0, y.1, z.1) (three_bytes a b c rest la lb lc (decode64-b64 rest all))
