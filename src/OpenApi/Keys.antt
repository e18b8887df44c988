-- ===== src/OpenApi/Keys.antt =====
-- server/fleet/openapi.go: resolveAPIKeyExpiry, CreateKeyWithExpiry, UpdateKey and Revoke. Whether
-- PostgreSQL has taken the change is the argument `stored`.
use Prim.Native.String.{◌++◌ as append, slice}
use manage_robot.Common.{
  ℕ, ◌*◌, Bool, not, ◌||◌, Option, none, some, List, String, trim, all, ltb, ◌==◌, is_some, ℤ, pos,
  ltb_ℤ, eqb_ℤ, ◌+ℤ◌, if◌then◌else◌, get, put, delete, Result, ok, ◌>>=◌, ◌>>◌, refuse_if, or_fail,
}
use manage_robot.Wire.Auth.{is_empty}
use manage_robot.OpenApi.Store.{
  Key, Store, Policy, Clock, Host, valid_scope, valid_ips, dedupe_str, trim_rune, log_audit,
}

pub data KeyError : Type 0 where
  name_too_long name_empty unknown_scope bad_ip bad_policy expiry_past expiry_too_far : KeyError
  no_random not_stored id_taken key_missing key_revoked : KeyError

abbrev pub max_key_lifetime_s : ℕ
max_key_lifetime_s = 31536000

abbrev pub seconds : ℕ → ℤ
seconds n = pos (n * 1000000000)

-- `none` asks for the default lifetime.
unfoldable pub resolve_expiry : Policy → ℤ → Option ℤ → Result KeyError ℤ
resolve_expiry p now requested = do
  refuse_if
      (p.default_lifetime_s == 0
        || p.max_lifetime_s == 0
        || ltb p.max_lifetime_s p.default_lifetime_s
        || ltb max_key_lifetime_s p.max_lifetime_s)
      bad_policy
  elim requested [
    | none ↦ ok (now +ℤ seconds p.default_lifetime_s)
    | some at ↦ do
      refuse_if (not (ltb_ℤ now at)) expiry_past
      refuse_if (ltb_ℤ (now +ℤ seconds p.max_lifetime_s) at) expiry_too_far
      ok at
  ]

abbrev named : String → String
named name = if is_empty name then "open-api" else name

-- The key that belongs to a secret.
new_key :
    Host → Clock → String → String → String → List String → List String → List String → ℤ → Key
new_key host t secret name remark scopes vehicles ips expires =
    let hash = host.sha256_text secret in
    record {
      id = append "key-" (slice hash 0 8);
      name = name;
      remark = trim_rune host remark 200;
      prefix = slice secret 0 12;
      key_hash = hash;
      scopes = scopes;
      vehicles = vehicles;
      ips = ips;
      created_ns = t.ns;
      expires_ns = expires;
      revoked_ns = pos 0;
      last_used_ns = pos 0;
    }

-- The checks of CreateKeyWithExpiry, and the key that it makes of 24 random bytes in hexadecimal.
unfoldable pub draft_key :
    Host
    → Policy
    → Clock
    → Option String
    → String
    → String
    → List String
    → List String
    → List String
    → Option ℤ
    → Result KeyError (Key × String)
unfolding new_key
draft_key host p t random name0 remark scopes0 vehicles ips0 requested = do
  let name = named (trim name0)
  refuse_if (ltb 100 (host.runes name)) name_too_long
  let scopes = dedupe_str scopes0
  refuse_if (not (all valid_scope scopes)) unknown_scope
  let ips = dedupe_str ips0
  refuse_if (not (valid_ips host ips)) bad_ip
  expires ← resolve_expiry p t.ns requested
  raw ← or_fail random no_random
  let secret = append "ra_ak_" raw
  ok (new_key host t secret name remark scopes (dedupe_str vehicles) ips expires, secret)

unfoldable pub create_key :
    Host
    → Policy
    → Clock
    → Store
    → Option String
    → Bool
    → String
    → String
    → List String
    → List String
    → List String
    → Option ℤ
    → Result KeyError (Store × Key × String)
create_key host p t st random stored name remark scopes vehicles ips requested = do
  (k, secret) ← draft_key host p t random name remark scopes vehicles ips requested
  refuse_if (not stored) not_stored
  refuse_if (is_some (get k.id st.keys)) id_taken
  ok (
    log_audit (record st { keys = put k.id k st.keys; by_hash = put k.key_hash k.id st.by_hash })
        k.id "created",
    k,
    secret,
  )

-- Fields that are `none` stay as they are.
pub record Patch : Type 0 where
  pub name : Option String
  pub remark : Option String
  pub scopes : Option (List String)
  pub vehicles : Option (List String)
  pub ips : Option (List String)
  pub expires_ns : Option ℤ

patch_name : Host → Option String → Key → Result KeyError Key
patch_name host none k = do refuse_if (ltb 100 (host.runes k.name)) name_too_long; ok k
patch_name host (some n) k = do
  refuse_if (is_empty (trim n)) name_empty
  refuse_if (ltb 100 (host.runes (trim n))) name_too_long
  ok (record k { name = trim n })

patch_scopes : Option (List String) → Key → Result KeyError Key
patch_scopes none k = ok k
patch_scopes (some ss) k = do
  refuse_if (not (all valid_scope (dedupe_str ss))) unknown_scope
  ok (record k { scopes = dedupe_str ss })

patch_ips : Host → Option (List String) → Key → Result KeyError Key
patch_ips host none k = ok k
patch_ips host (some ss) k = do
  refuse_if (not (valid_ips host (dedupe_str ss))) bad_ip
  ok (record k { ips = dedupe_str ss })

patch_expiry : Policy → Clock → Option ℤ → Key → Result KeyError Key
patch_expiry p t none k = ok k
patch_expiry p t (some at) k = do
  expires ← resolve_expiry p t.ns (some at)
  ok (record k { expires_ns = expires })

patch_remark : Host → Option String → Key → Key
patch_remark host none k = k
patch_remark host (some r) k = record k { remark = trim_rune host r 200 }

patch_vehicles : Option (List String) → Key → Key
patch_vehicles none k = k
patch_vehicles (some vs) k = record k { vehicles = dedupe_str vs }

unfoldable pub patched : Host → Policy → Clock → Patch → Key → Result KeyError Key
unfolding patch_name patch_scopes patch_ips patch_expiry patch_remark patch_vehicles
patched host p t patch k0 = do
  k1 ← patch_name host patch.name k0
  k2 ← patch_scopes patch.scopes (patch_remark host patch.remark k1)
  k3 ← patch_ips host patch.ips (patch_vehicles patch.vehicles k2)
  patch_expiry p t patch.expires_ns k3

unfoldable pub update_key :
    Host → Policy → Clock → Store → Bool → String → Patch → Result KeyError (Store × Key)
update_key host p t st stored id patch = do
  current ← or_fail (get id st.keys) key_missing
  refuse_if (not (eqb_ℤ current.revoked_ns (pos 0))) key_revoked
  k ← patched host p t patch current
  refuse_if (not stored) not_stored
  ok (log_audit (record st { keys = put id k st.keys }) id "updated", k)

unfoldable pub revoke_key : Clock → Store → Bool → String → Result KeyError Store
revoke_key t st stored id = do
  k ← or_fail (get id st.keys) key_missing
  refuse_if (not (eqb_ℤ k.revoked_ns (pos 0))) key_revoked
  refuse_if (not stored) not_stored
  ok (
      log_audit
        (record st {
          keys = put id (record k { revoked_ns = t.ns }) st.keys;
          by_hash = delete k.key_hash st.by_hash;
        })
        id "revoked")
