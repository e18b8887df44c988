-- ===== src/OpenApi/Authenticate.antt =====
-- server/fleet/openapi.go: authenticate. The address is what clientIP made of the request.
use Prim.Native.String.{◌++◌ as append}
use manage_robot.Common.{
  ℕ, Bool, false, not, ◌||◌, Option, none, some, List, [], ◌∷◌, ◌++◌, String, str_eq, length, drop,
  leb, ℤ, pos, ltb_ℤ, leb_ℤ, ◌+ℤ◌, ◌-ℤ◌, if◌then◌else◌, get, put, delete, delete_if,
}
use manage_robot.Wire.Envelope.{Bytes}
use manage_robot.Wire.Auth.{is_empty}
use manage_robot.OpenApi.Store.{Key, Store, Policy, Clock, Host, LockEntry, ip_allowed}
use manage_robot.OpenApi.Locks.{targets, locked, record_fail}

pub record Request : Type 0 where
  pub method : String
  pub path : String
  pub ip : String
  pub key_id : String
  pub timestamp : String
  pub nonce : String
  pub signature : String
  pub body : Bytes

pub data Denial : Type 0 where
  locked_out : ℤ → Denial
  missing_header bad_timestamp outside_window no_key ip_denied replayed : Denial
  bad_signature rate_limited : Denial
  key_expired : Key → Denial

pub data Outcome : Type 0 where
  accepted : Key → Outcome
  denied : Denial → Outcome

-- The nonce is remembered for ten minutes.
abbrev pub nonce_ttl : ℤ
nonce_ttl = pos 600

abbrev line : String → String → String
line s rest = append s (append "\n" rest)

-- The text that is signed.
unfoldable pub canonical : Host → Request → String
canonical host r =
    line r.method (line r.path (line r.timestamp (line r.nonce (line (host.sha256_hex r.body) ""))))

unfoldable pub outside : ℤ → ℤ → ℕ → Bool
outside now ts window = let d = now -ℤ ts in ltb_ℤ (pos window) d || ltb_ℤ d (pos 0 -ℤ pos window)

unfoldable pub is_replay : List (String × ℤ) → String → ℤ → Bool
is_replay nonces nonce now = elim (get nonce nonces) [ none ↦ false | some exp ↦ ltb_ℤ now exp ]

-- The nonce is stored, and those that have run out are swept.
unfoldable pub note_nonce : List (String × ℤ) → String → ℤ → List (String × ℤ)
note_nonce nonces nonce now = delete_if (λ exp. leb_ℤ exp now) (put nonce (now +ℤ nonce_ttl) nonces)

abbrev hits_or_none : Option (List ℤ) → List ℤ
hits_or_none none = []
hits_or_none (some ts) = ts

unfoldable pub recent : ℤ → List ℤ → List ℤ
recent cut [] = []
recent cut (t ∷ ts) = let rest = recent cut ts in if ltb_ℤ cut t then t ∷ rest else rest

module _ (host : Host) (p : Policy) (t : Clock) (r : Request) where
  abbrev fail : Store → Denial → Store × Outcome
  fail st why =
      (record st { locks = record_fail p t.s st.locks (targets r.ip r.key_id) }, denied why)

  -- The limit of requests in ten seconds. `kept` shares its array with the old slice, so a refusal
  -- leaves the old slice with its front overwritten.
  unfoldable pub limited : Store → Key → Store × Outcome
  limited st k =
      let old = hits_or_none (get r.key_id st.hits) in
      let kept = recent (t.ns -ℤ pos 10000000000) old in
      let used = record k { last_used_ns = t.ns } in
      if leb p.rate_limit (length kept)
      then (
        record st { hits = put r.key_id (kept ++ drop (length kept) old) st.hits },
        denied rate_limited,
      )
      else (
        record st {
          hits = put r.key_id (kept ++ (t.ns ∷ [])) st.hits;
          keys = put r.key_id used st.keys;
          locks = delete (append "ip:" r.ip) (delete (append "id:" r.key_id) st.locks);
        },
        accepted used,
      )

  unfoldable pub signed : Store → Key → Store × Outcome
  unfolding limited
  signed st k =
      if str_eq (host.hmac_hex k.key_hash (canonical host r)) r.signature
      then limited st k
      else fail st bad_signature

  unfoldable pub keyed : Store → Key → Store × Outcome
  unfolding signed
  keyed st k =
      if ltb_ℤ (pos 0) k.revoked_ns
      then fail st no_key
      else if leb_ℤ k.expires_ns (pos 0) || leb_ℤ k.expires_ns t.ns
      then (st, denied (key_expired k))
      else if not (ip_allowed host k r.ip)
      then fail st ip_denied
      else if is_replay st.nonces r.nonce t.s
      then fail st replayed
      else signed (record st { nonces = note_nonce st.nonces r.nonce t.s }) k

  abbrev pub find_key : Store → Option Key → Store × Outcome
  find_key st none = fail st no_key
  find_key st (some k) = keyed st k

  unfoldable pub timed : Store → Option ℤ → Store × Outcome
  unfolding keyed
  timed st none = fail st bad_timestamp
  timed st (some ts) =
      if outside t.s ts p.replay_window_s
      then fail st outside_window
      else find_key st (get r.key_id st.keys)

  unfoldable pub headed : Store → Store × Outcome
  unfolding timed
  headed st =
      if is_empty r.key_id || is_empty r.timestamp || is_empty r.nonce || is_empty r.signature
      then fail st missing_header
      else timed st (host.parse_int r.timestamp)

  abbrev pub unlocked : Store → List (String × LockEntry) × Option ℤ → Store × Outcome
  unlocked st (locks, some left) = (record st { locks = locks }, denied (locked_out left))
  unlocked st (locks, none) = headed (record st { locks = locks })

  unfoldable pub authenticate : Store → Store × Outcome
  authenticate st = unlocked st (locked st.locks (targets r.ip r.key_id) t.s)

-- Calls one after another.
unfoldable pub run : Host → Policy → Store → List (Clock × Request) → Store
run host p st [] = st
run host p st ((t, r) ∷ calls) = run host p (authenticate host p t r st).0 calls
