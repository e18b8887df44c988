-- ===== src/Examples/Api.antt =====
-- The theorems on the signed interface, at one platform with one key.
use manage_robot.Common.{
  ℕ, ◌*◌, ◌≡◌, ◌≢◌, refl, true, false, none, some, List, [], ◌∷◌, String, ℤ, pos, ◌+ℤ◌, ◌-ℤ◌, arith,
  ok, get, put, delete, trim,
}
use manage_robot.OpenApi.Store.{
  Key, Store, Policy, Clock, Host, log_audit, ip_allowed, valid_scope, valid_ips, dedupe_str,
  dedupe_from, trim_rune,
}
use manage_robot.OpenApi.Locks.{targets, locked}
use manage_robot.OpenApi.Authenticate.{
  Request, accepted, outside, is_replay, note_nonce, recent, canonical, limited, signed, keyed,
  timed, headed, authenticate, run,
}
use manage_robot.OpenApi.Admission.{Genuine, authenticate-Genuine}
use manage_robot.OpenApi.Replay.{replay_denied, replay_passes}
use manage_robot.OpenApi.Keys.{resolve_expiry, draft_key, create_key, revoke_key, seconds}
use manage_robot.OpenApi.Lifetime.{revokes, acts, revoked_denied}

-- A platform whose stamps all read as one second count.
abbrev toy_at : ℕ → Host
toy_at stamp = record {
  parse_int = λ s. some (pos stamp);
  sha256_hex = λ b. "body";
  sha256_text = λ s. "0123456789";
  hmac_hex = λ k m. k;
  is_address = λ s. true;
  is_network = λ s. true;
  in_network = λ n a. true;
  runes = λ s. 3;
  first_runes = λ n s. s;
}

abbrev toy : Host
toy = toy_at 1000

abbrev policy_of : ℕ → Policy
policy_of window = record {
  lockout_threshold = 5;
  lockout_window_s = 300;
  lockout_seconds = 900;
  replay_window_s = window;
  rate_limit = 20;
  default_lifetime_s = 3600;
  max_lifetime_s = 7200;
}

abbrev strict : Policy
strict = policy_of 60

abbrev clock_at : ℕ → Clock
clock_at n = record { s = pos n; ns = pos (n * 1000000000) }

abbrev partner : Key
partner = record {
  id = "key-1";
  name = "partner";
  remark = "";
  prefix = "ra_ak_";
  key_hash = "hash";
  scopes = "vehicle.read" ∷ [];
  vehicles = "*" ∷ [];
  ips = [];
  created_ns = pos 0;
  expires_ns = seconds 9000;
  revoked_ns = pos 0;
  last_used_ns = pos 0;
}

abbrev one_key : Store
one_key = record {
  keys = ("key-1", partner) ∷ [];
  by_hash = ("hash", "key-1") ∷ [];
  nonces = [];
  hits = [];
  locks = [];
  audit = [];
}

abbrev ask : String → Request
ask nonce = record {
  method = "GET";
  path = "/open/v1/vehicles";
  ip = "10.0.0.1";
  key_id = "key-1";
  timestamp = "1000";
  nonce = nonce;
  signature = "hash";
  body = [];
}

abbrev used_at : ℕ → Key
used_at n = record partner { last_used_ns = pos (n * 1000000000) }

asked : (authenticate toy strict (clock_at 1000) (ask "n1") one_key).1 ≡ accepted (used_at 1000)
unfolding authenticate locked targets get headed timed keyed signed limited outside ◌-ℤ◌ ip_allowed
    is_replay canonical recent put
asked = refl

authenticate-Genuine_example :
    (k : Key) × (ts : ℤ) × Genuine toy strict (clock_at 1000) (ask "n1") one_key k ts
    × (used_at 1000 ≡ record k { last_used_ns = pos 1000000000000 })
    × ((authenticate toy strict (clock_at 1000) (ask "n1") one_key).0.nonces
        ≡ note_nonce [] "n1" (pos 1000))
authenticate-Genuine_example =
    authenticate-Genuine toy strict (clock_at 1000) (ask "n1") one_key (used_at 1000) asked

-- A call of somebody else's in between.
abbrev between : List (Clock × Request)
between = (clock_at 1010, ask "n2") ∷ []

replay_denied_example :
    (authenticate toy strict
      (clock_at 1020)
      (ask "n1")
      (run toy strict (authenticate toy strict (clock_at 1000) (ask "n1") one_key).0 between)).1
    ≢ accepted (used_at 1020)
replay_denied_example =
    replay_denied toy strict one_key (clock_at 1000) (clock_at 1020) (ask "n1") (ask "n1") between
      (used_at 1000) (used_at 1020) (omega arith) refl refl asked (omega arith, omega arith)

-- A window of an hour, and a request that is dated an hour ahead.
late :
    (authenticate (toy_at 4600) (policy_of 3600) (clock_at 1000) (ask "n1") one_key).1
    ≡ accepted (used_at 1000)
unfolding authenticate locked targets get headed timed keyed signed limited outside ◌-ℤ◌ ip_allowed
    is_replay canonical recent put
late = refl

replay_passes_example :
    (is_replay
        (authenticate (toy_at 4600) (policy_of 3600) (clock_at 1000) (ask "n1") one_key).0.nonces
        "n1"
        (pos 1600)
      ≡ false)
    × (outside (pos 1600) (pos 4600) 3600 ≡ false)
unfolding ◌+ℤ◌
replay_passes_example =
    replay_passes (toy_at 4600) (policy_of 3600) one_key (clock_at 1000) (clock_at 1600) (ask "n1")
      (used_at 1000) (pos 4600) (omega arith) refl refl late

abbrev without_key : Store
without_key = record one_key {
  keys = ("key-1", record partner { revoked_ns = seconds 1000 }) ∷ [];
  by_hash = [];
  audit = ("key-1", "revoked") ∷ [];
}

revoked : revoke_key (clock_at 1000) one_key true "key-1" ≡ ok without_key
unfolding revoke_key get put delete log_audit
revoked = refl

revoked_denied_example :
    (authenticate toy strict
      (clock_at 1020)
      (ask "n1")
      (acts toy strict without_key (revokes (clock_at 1010) true "key-1" ∷ []))).1
    ≢ accepted partner
revoked_denied_example =
    revoked_denied toy strict (clock_at 1000) (clock_at 1020) one_key without_key true "key-1"
      (revokes (clock_at 1010) true "key-1" ∷ []) (ask "n1") partner revoked (omega arith) refl

abbrev drawn : Key
drawn = record {
  id = "key-01234567";
  name = "open-api";
  remark = "";
  prefix = "ra_ak_aabbcc";
  key_hash = "0123456789";
  scopes = "task.read" ∷ [];
  vehicles = [];
  ips = [];
  created_ns = seconds 1000;
  expires_ns = seconds 4600;
  revoked_ns = pos 0;
  last_used_ns = pos 0;
}

abbrev two_keys : Store
two_keys = record one_key {
  keys = ("key-1", partner) ∷ ("key-01234567", drawn) ∷ [];
  by_hash = ("hash", "key-1") ∷ ("0123456789", "key-01234567") ∷ [];
  audit = ("key-01234567", "created") ∷ [];
}

created :
    create_key toy strict
      (clock_at 1000)
      one_key
      (some "aabbccddeeff")
      true
      ""
      ""
      ("task.read" ∷ "task.read" ∷ [])
      []
      []
      none
    ≡ ok (two_keys, drawn, "ra_ak_aabbccddeeff")
unfolding create_key draft_key resolve_expiry ◌+ℤ◌ valid_scope valid_ips dedupe_str dedupe_from
    trim_rune get put log_audit trim
created = refl
