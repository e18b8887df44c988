-- ===== src/OpenApi/Admission.antt =====
-- server/fleet/openapi.go: what authenticate asks of a request, and what it does to the store.
use manage_robot.Common.{
  ◌≡◌, refl, ◌⊎◌, inl, inr, true, false, Option, none, some, List, String, str_eq, eq_iff, ℤ, pos,
  ◌<ℤ◌, ◌≤ℤ◌, Bool-cases, if_cases, ◌||◌, get, put, get-put, arith,
}
use manage_robot.Wire.Auth.{is_empty}
use manage_robot.OpenApi.Store.{Key, Store, LockEntry, Policy, Clock, Host, ip_allowed}
use manage_robot.OpenApi.Locks.{locked, targets}
use manage_robot.OpenApi.Authenticate.{
  Request, Outcome, accepted, denied, Denial, no_key, bad_timestamp, outside_window, missing_header,
  locked_out, find_key, unlocked, outside, is_replay, note_nonce, canonical, keyed, timed, headed,
  authenticate,
}

-- What has been shown of a request: the key is known, neither revoked nor expired, the address is one
-- of its own, the time is in the window, the nonce is new, and the signature is that of the key.
pub record Genuine (host : Host) (p : Policy) (t : Clock) (r : Request) (st : Store) (k : Key)
    (ts : ℤ) : Type 0 where
  pub time : host.parse_int r.timestamp ≡ some ts
  pub window : outside t.s ts p.replay_window_s ≡ false
  pub known : get r.key_id st.keys ≡ some k
  pub in_force : k.revoked_ns ≤ℤ pos 0
  pub lives : t.ns <ℤ k.expires_ns
  pub address : ip_allowed host k r.ip ≡ true
  pub fresh : is_replay st.nonces r.nonce t.s ≡ false
  pub signature : r.signature ≡ host.hmac_hex k.key_hash (canonical host r)

module _ (host : Host) (p : Policy) (t : Clock) (r : Request) where
  -- A request is refused before its key is read, which touches the locks only, or its key is checked.
  module _ (P : Store × Outcome → Type 0) (st : Store)
      (refused : (locks : List (String × LockEntry)) (d : Denial)
        → P (record st { locks = locks }, denied d))
      (checked : (locks : List (String × LockEntry)) (k : Key) (ts : ℤ)
        → host.parse_int r.timestamp ≡ some ts
        → outside t.s ts p.replay_window_s ≡ false
        → get r.key_id st.keys ≡ some k
        → P (keyed host p t r (record st { locks = locks }) k)) where
    key_rule :
        (locks : List (String × LockEntry)) (ts : ℤ) (o : Option Key)
        → host.parse_int r.timestamp ≡ some ts
        → outside t.s ts p.replay_window_s ≡ false
        → get r.key_id st.keys ≡ o
        → P (find_key host p t r (record st { locks = locks }) o)
    key_rule locks ts none a b e = refused _ no_key
    key_rule locks ts (some k) a b e = checked locks k ts a b e

    time_rule :
        (locks : List (String × LockEntry)) (o : Option ℤ)
        → host.parse_int r.timestamp ≡ o
        → P (timed host p t r (record st { locks = locks }) o)
    unfolding timed
    time_rule locks none e = refused _ bad_timestamp
    time_rule locks (some ts) e =
        if_cases P (outside t.s ts p.replay_window_s) _
          (find_key host p t r (record st { locks = locks }) (get r.key_id st.keys))
          (λ h. refused _ outside_window) (λ h. key_rule locks ts (get r.key_id st.keys) e h refl)

    header_rule :
        (locks : List (String × LockEntry)) → P (headed host p t r (record st { locks = locks }))
    unfolding headed
    header_rule locks =
        if_cases P
          (is_empty r.key_id || is_empty r.timestamp || is_empty r.nonce || is_empty r.signature) _
          (timed host p t r (record st { locks = locks }) (host.parse_int r.timestamp))
          (λ h. refused _ missing_header) (λ h. time_rule locks (host.parse_int r.timestamp) refl)

    lock_rule : (found : List (String × LockEntry) × Option ℤ) → P (unlocked host p t r st found)
    lock_rule (locks, some left) = refused locks (locked_out left)
    lock_rule (locks, none) = header_rule locks

    pub authenticate_rule : P (authenticate host p t r st)
    unfolding authenticate
    authenticate_rule = lock_rule (locked st.locks (targets r.ip r.key_id) t.s)

  keyed-accepted :
      (st : Store) (k u : Key) (ts : ℤ)
      → host.parse_int r.timestamp ≡ some ts
      → outside t.s ts p.replay_window_s ≡ false
      → get r.key_id st.keys ≡ some k
      → (keyed host p t r st k).1 ≡ accepted u
      → Genuine host p t r st k ts
        × (u ≡ record k { last_used_ns = t.ns })
        × ((keyed host p t r st k).0.nonces ≡ note_nonce st.nonces r.nonce t.s)
  unfolding keyed
  keyed-accepted st k u ts a b c h =
      ground (arith, eq_iff (host.hmac_hex k.key_hash (canonical host r)) r.signature)

  -- A request is let in only if it is genuine under a stored key, and as that key with the time of
  -- its last use; its nonce is stored then.
  pub authenticate-Genuine :
      (st : Store) (u : Key)
      → (authenticate host p t r st).1 ≡ accepted u
      → (k : Key) × (ts : ℤ) × Genuine host p t r st k ts
        × (u ≡ record k { last_used_ns = t.ns })
        × ((authenticate host p t r st).0.nonces ≡ note_nonce st.nonces r.nonce t.s)
  authenticate-Genuine st u =
      authenticate_rule
        (λ o.
          o.1 ≡ accepted u
          → (k : Key) × (ts : ℤ) × Genuine host p t r st k ts
            × (u ≡ record k { last_used_ns = t.ns })
            × (o.0.nonces ≡ note_nonce st.nonces r.nonce t.s))
        st (λ locks d h. cc)
        (λ locks k ts a b c h.
          let sure = keyed-accepted (record st { locks = locks }) k u ts a b c h in
          (k, ts, ground (arith, sure.0), sure.1, sure.2))

  keyed_nonces :
      (st : Store) (k : Key)
      → ((keyed host p t r st k).0.nonces ≡ st.nonces)
        ⊎ (((keyed host p t r st k).0.nonces ≡ note_nonce st.nonces r.nonce t.s)
            × (is_replay st.nonces r.nonce t.s ≡ false))
  unfolding keyed
  keyed_nonces st k = ground arith

  -- A request leaves the nonces as they are, or adds its own, which is new.
  pub authenticate_nonces :
      (st : Store)
      → ((authenticate host p t r st).0.nonces ≡ st.nonces)
        ⊎ (((authenticate host p t r st).0.nonces ≡ note_nonce st.nonces r.nonce t.s)
            × (is_replay st.nonces r.nonce t.s ≡ false))
  authenticate_nonces st =
      authenticate_rule
        (λ o.
          (o.0.nonces ≡ st.nonces)
          ⊎ ((o.0.nonces ≡ note_nonce st.nonces r.nonce t.s)
              × (is_replay st.nonces r.nonce t.s ≡ false)))
        st (λ locks d. inl refl) (λ locks k ts a b c. keyed_nonces (record st { locks = locks }) k)

  keyed_keys :
      (st : Store) (k : Key)
      → ((keyed host p t r st k).0.keys ≡ st.keys)
        ⊎ ((keyed host p t r st k).0.keys ≡ put r.key_id (record k { last_used_ns = t.ns }) st.keys)
  unfolding keyed
  keyed_keys st k = ground arith

  -- A request changes no key but for the time of its last use.
  pub authenticate_keys :
      (st : Store) (id : String) (k : Key)
      → get id st.keys ≡ some k
      → (ns : ℤ) × (get id (authenticate host p t r st).0.keys
          ≡ some (record k { last_used_ns = ns }))
  authenticate_keys st id k h =
      authenticate_rule (λ o. (ns : ℤ) × (get id o.0.keys ≡ some (record k { last_used_ns = ns })))
        st (λ locks d. (k.last_used_ns, h))
        (λ locks l ts a b c. elim (keyed_keys (record st { locks = locks }) l) [
          | inl same ↦ (k.last_used_ns, rw same h)
          | inr used ↦ elim (Bool-cases (str_eq r.key_id id)) [
            | inl mine ↦ (t.ns, rw (used, get-put) (ground (arith, eq_iff r.key_id id)))
            | inr other ↦ (k.last_used_ns, rw (used, get-put, other) h)
          ]
        ])
