-- ===== src/OpenApi/Store.antt =====
-- server/fleet/openapi.go: APIKey, lockEntry and OpenAPI, and the lists that a key is checked against.
use Prim.Native.Char.{code}
use manage_robot.Common.{
  ℕ, Bool, false, ◌&&◌, ◌||◌, Option, List, [], ◌∷◌, String, str_eq, trim, take, length, any, all,
  ltb, ◌==◌, ℤ, if◌then◌else◌,
}
use manage_robot.Wire.Envelope.{Bytes}

pub record Key : Type 0 where
  pub id : String
  pub name : String
  pub remark : String
  pub prefix : String
  pub key_hash : String
  pub scopes : List String
  pub vehicles : List String
  pub ips : List String
  pub created_ns : ℤ
  pub expires_ns : ℤ
  pub revoked_ns : ℤ
  pub last_used_ns : ℤ

-- Times in seconds since 1970.
pub record LockEntry : Type 0 where
  pub fails : List ℤ
  pub until : ℤ

-- The maps of the source; an audit entry is the key's identifier and what was done.
pub record Store : Type 0 where
  pub keys : List (String × Key)
  pub by_hash : List (String × String)
  pub nonces : List (String × ℤ)
  pub hits : List (String × List ℤ)
  pub locks : List (String × LockEntry)
  pub audit : List (String × String)

-- The settings as cfgNum and the conversion to an integer read them.
pub record Policy : Type 0 where
  pub lockout_threshold : ℕ
  pub lockout_window_s : ℕ
  pub lockout_seconds : ℕ
  pub replay_window_s : ℕ
  pub rate_limit : ℕ
  pub default_lifetime_s : ℕ
  pub max_lifetime_s : ℕ

-- time.Now() in seconds and in nanoseconds since 1970; one call reads the clock once here.
pub record Clock : Type 0 where
  pub s : ℤ
  pub ns : ℤ

-- What comes from outside the repository: strconv, SHA-256 and HMAC-SHA256 in hexadecimal, and the
-- package net: whether a text is an address, whether it is a network, and whether a network has an
-- address in it.
pub record Host : Type 0 where
  pub parse_int : String → Option ℤ
  pub sha256_hex : Bytes → String
  pub sha256_text : String → String
  -- key, message
  pub hmac_hex : String → String → String
  pub is_address : String → Bool
  pub is_network : String → Bool
  -- network, address
  pub in_network : String → String → Bool
  -- The number of runes, and the first so many of them.
  pub runes : String → ℕ
  pub first_runes : ℕ → String → String

-- openScopeCatalog
abbrev pub scope_catalog : List String
scope_catalog =
    "vehicle.read" ∷ "telemetry.read" ∷ "alarm.read" ∷ "task.read" ∷ "task.write" ∷ "control.write"
    ∷ []

unfoldable pub valid_scope : String → Bool
valid_scope id = any (λ s. str_eq s id) scope_catalog

-- strings.Contains(s, "/")
abbrev pub has_slash : String → Bool
has_slash String.[] = false
has_slash (String.◌∷◌ c s) = code c == b'/' || has_slash s

module _ (host : Host) where
  unfoldable pub valid_ips : List String → Bool
  valid_ips = all λ s. if has_slash s then host.is_network s else host.is_address s

  unfoldable pub ip_allowed : Key → String → Bool
  ip_allowed k ip =
      length k.ips == 0
      || any
          (λ item.
            str_eq item ip
            || (has_slash item
                && host.is_network item
                && host.is_address ip
                && host.in_network item ip))
          k.ips

unfoldable pub has_scope : Key → String → Bool
has_scope k scope = any (λ s. str_eq s scope) k.scopes

unfoldable pub vehicle_allowed : Key → String → Bool
vehicle_allowed k vid = any (λ v. str_eq v "*" || str_eq v vid) k.vehicles

-- The loop of dedupeStr, with the texts that it has seen.
unfoldable pub dedupe_from : List String → List String → List String
dedupe_from seen [] = []
dedupe_from seen (s ∷ ss) =
    let t = trim s in
    let skip = str_eq t "" || any (str_eq t) seen in
    let rest = dedupe_from (if skip then seen else t ∷ seen) ss in if skip then rest else t ∷ rest

unfoldable pub dedupe_str : List String → List String
dedupe_str = dedupe_from []

unfoldable pub trim_rune : Host → String → ℕ → String
trim_rune host s n = let t = trim s in if ltb n (host.runes t) then host.first_runes n t else t

-- logAudit keeps the last 500 entries in memory; the row of the table audit_log is left out.
unfoldable pub log_audit : Store → String → String → Store
log_audit st id what = record st { audit = take 500 ((id, what) ∷ st.audit) }
