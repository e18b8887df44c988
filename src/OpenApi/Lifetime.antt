-- ===== src/OpenApi/Lifetime.antt =====
-- server/fleet/openapi.go: the keys, from their creation to after their revocation.
use manage_robot.Common.{
  ◌≡◌, ◌≢◌, refl, inl, inr, Bool, Option, none, some, List, [], ◌∷◌, String, eq_iff, ℤ, pos, ◌<ℤ◌,
  ◌≤ℤ◌, ◌+ℤ◌, +ℤ_parts, Option-cases, get, put, get-put, Result, ok, err, arith,
}
use manage_robot.OpenApi.Store.{Key, Store, Policy, Clock, Host, log_audit}
use manage_robot.OpenApi.Authenticate.{Request, accepted, authenticate}
use manage_robot.OpenApi.Admission.{authenticate-Genuine, authenticate_keys}
use manage_robot.OpenApi.Keys.{
  KeyError, Patch, max_key_lifetime_s, seconds, resolve_expiry, draft_key, create_key, update_key,
  revoke_key,
}

-- An expiry that lies after `now`, and within a year of it.
abbrev InYear : ℤ → ℤ → Type 0
InYear now at = (now <ℤ at) × (at ≤ℤ now +ℤ seconds max_key_lifetime_s)

resolve_expiry-InYear :
    (p : Policy) (now at : ℤ) (requested : Option ℤ)
    → resolve_expiry p now requested ≡ ok at
    → InYear now at
unfolding resolve_expiry
resolve_expiry-InYear p now at none h =
    ground (
      arith,
      +ℤ_parts now (seconds p.default_lifetime_s),
      +ℤ_parts now (seconds max_key_lifetime_s),
    )
resolve_expiry-InYear p now at (some x) h =
    ground
      (arith, +ℤ_parts now (seconds p.max_lifetime_s), +ℤ_parts now (seconds max_key_lifetime_s))

-- The operations on a store, one after another; a refusal changes nothing.
pub data Act : Type 0 where
  asks : Clock → Request → Act
  creates :
      Clock
      → Option String
      → Bool
      → String
      → String
      → List String
      → List String
      → List String
      → Option ℤ
      → Act
  updates : Clock → Bool → String → Patch → Act
  revokes : Clock → Bool → String → Act

abbrev created_or : Store → Result KeyError (Store × Key × String) → Store
created_or st (ok (st', k, s)) = st'
created_or st (err e) = st

abbrev updated_or : Store → Result KeyError (Store × Key) → Store
updated_or st (ok (st', k)) = st'
updated_or st (err e) = st

abbrev revoked_or : Store → Result KeyError Store → Store
revoked_or st (ok st') = st'
revoked_or st (err e) = st

module _ (host : Host) (p : Policy) where
  unfoldable pub act : Store → Act → Store
  act st (asks t r) = (authenticate host p t r st).0
  act st (creates t random stored name remark scopes vehicles ips requested) =
      created_or st (create_key host p t st random stored name remark scopes vehicles ips requested)
  act st (updates t stored id patch) = updated_or st (update_key host p t st stored id patch)
  act st (revokes t stored id) = revoked_or st (revoke_key t st stored id)

  unfoldable pub acts : Store → List Act → Store
  acts st [] = st
  acts st (a ∷ as') = acts (act st a) as'

  -- The key of that identifier has been revoked.
  abbrev Dead : String → Store → Type 0
  Dead id st = (k : Key) × (get id st.keys ≡ some k) × (pos 0 <ℤ k.revoked_ns)

  -- What a creation that is not refused has done.
  create_shape :
      (t : Clock) (st st' : Store) (random : Option String) (stored : Bool) (name remark : String)
      (scopes vehicles ips : List String) (requested : Option ℤ) (k : Key) (secret : String)
      → create_key host p t st random stored name remark scopes vehicles ips requested
        ≡ ok (st', k, secret)
      → (draft_key host p t random name remark scopes vehicles ips requested ≡ ok (k, secret))
        × (get k.id st.keys ≡ none)
        × (st'.keys ≡ put k.id k st.keys)
  unfolding create_key log_audit
  create_shape t st st' random stored name remark scopes vehicles ips requested k secret h =
      ground arith

  create_key-Dead :
      (t : Clock) (st : Store) (id : String) (random : Option String) (stored : Bool)
      (name remark : String) (scopes vehicles ips : List String) (requested : Option ℤ)
      (r : Result KeyError (Store × Key × String))
      → create_key host p t st random stored name remark scopes vehicles ips requested ≡ r
      → Dead id st
      → Dead id (created_or st r)
  create_key-Dead t st id random stored name remark scopes vehicles ips requested (err e) h d = d
  create_key-Dead t st id random stored name remark scopes vehicles ips requested (ok (st', k, s)) h
        (l, found, dead) =
      let (drawn, new, keys) =
        create_shape t st st' random stored name remark scopes vehicles ips requested k s h in
      (l, rw (keys, get-put) (ground (arith, eq_iff k.id id)), dead)

  update_key-Dead :
      (t : Clock) (st : Store) (id id' : String) (stored : Bool) (patch : Patch)
      (r : Result KeyError (Store × Key))
      → update_key host p t st stored id' patch ≡ r
      → Dead id st
      → Dead id (updated_or st r)
  unfolding update_key log_audit
  update_key-Dead t st id id' stored patch (err e) h d = d
  update_key-Dead t st id id' stored patch (ok (st', k)) h (l, found, dead) =
      (l, ground (arith, eq_iff id' id, get-put id' id k st.keys), dead)

  -- What a revocation that is not refused has done.
  revoke_shape :
      (t : Clock) (st st' : Store) (stored : Bool) (id : String)
      → revoke_key t st stored id ≡ ok st'
      → (k : Key) × (get id st.keys ≡ some k)
        × (k.revoked_ns ≡ pos 0)
        × (st'.keys ≡ put id (record k { revoked_ns = t.ns }) st.keys)
  unfolding revoke_key log_audit
  revoke_shape t st st' stored id h = elim (Option-cases (get id st.keys)) [
    | inl missing ↦ ground arith
    | inr (k, found) ↦ let (live, keys) = revoked k found in (k, found, live, keys)
  ]
    where
      revoked :
          (k : Key)
          → get id st.keys ≡ some k
          → (k.revoked_ns ≡ pos 0) × (st'.keys ≡ put id (record k { revoked_ns = t.ns }) st.keys)
      revoked k found = ground arith

  revoke_key-Dead :
      (t : Clock) (st : Store) (id id' : String) (stored : Bool) (r : Result KeyError Store)
      → revoke_key t st stored id' ≡ r
      → Dead id st
      → Dead id (revoked_or st r)
  revoke_key-Dead t st id id' stored (err e) h d = d
  revoke_key-Dead t st id id' stored (ok st') h (l, found, dead) =
      let (k, held, live, keys) = revoke_shape t st st' stored id' h in
      (l, rw (keys, get-put) (ground (arith, eq_iff id' id)), dead)

  act-Dead : (st : Store) (id : String) (a : Act) → Dead id st → Dead id (act st a)
  unfolding act
  act-Dead st id (asks t r) (k, found, dead) =
      let (ns, kept) = authenticate_keys host p t r st id k found in
      (record k { last_used_ns = ns }, kept, dead)
  act-Dead st id (creates t random stored name remark scopes vehicles ips requested) d =
      create_key-Dead t st id random stored name remark scopes vehicles ips requested _ refl d
  act-Dead st id (updates t stored id' patch) d = update_key-Dead t st id id' stored patch _ refl d
  act-Dead st id (revokes t stored id') d = revoke_key-Dead t st id id' stored _ refl d

  acts-Dead : (st : Store) (id : String) (as' : List Act) → Dead id st → Dead id (acts st as')
  unfolding acts
  acts-Dead st id [] d = d
  acts-Dead st id (a ∷ as') d = acts-Dead (act st a) id as' (act-Dead st id a d)

  -- A key that was revoked at a time after 1970 lets no request in any more, whatever requests,
  -- creations, changes and revocations follow.
  pub revoked_denied :
      (t t' : Clock) (st st' : Store) (stored : Bool) (id : String) (as' : List Act) (r : Request)
      (u : Key)
      → revoke_key t st stored id ≡ ok st'
      → pos 0 <ℤ t.ns
      → r.key_id ≡ id
      → (authenticate host p t' r (acts st' as')).1 ≢ accepted u
  revoked_denied t t' st st' stored id as' r u done after mine let_in =
      let (k, held, live, keys) = revoke_shape t st st' stored id done in
      let dead : Dead id st' = (
        record k { revoked_ns = t.ns },
        rw (keys, get-put) (ground (arith, eq_iff id id)),
        after,
      ) in
      let (l, found, gone) = acts-Dead st' id as' dead in
      let (k', ts, g, e, noted) = authenticate-Genuine host p t' r (acts st' as') u let_in in
      ground (arith, mine, g.known, g.in_force)

  draft_key_expiry :
      (t : Clock) (random : Option String) (name remark : String)
      (scopes vehicles ips : List String) (requested : Option ℤ) (k : Key) (secret : String)
      → draft_key host p t random name remark scopes vehicles ips requested ≡ ok (k, secret)
      → resolve_expiry p t.ns requested ≡ ok k.expires_ns
  unfolding draft_key
  draft_key_expiry t random name remark scopes vehicles ips requested k secret h = ground arith

  -- A key that is created is stored under its identifier, runs out later than now, and within a year.
  create_key-InYear :
      (t : Clock) (st st' : Store) (random : Option String) (stored : Bool) (name remark : String)
      (scopes vehicles ips : List String) (requested : Option ℤ) (k : Key) (secret : String)
      → create_key host p t st random stored name remark scopes vehicles ips requested
        ≡ ok (st', k, secret)
      → InYear t.ns k.expires_ns × (get k.id st'.keys ≡ some k)
  create_key-InYear t st st' random stored name remark scopes vehicles ips requested k secret h =
      let (drawn, new, keys) =
        create_shape t st st' random stored name remark scopes vehicles ips requested k secret h in
      let lives =
        draft_key_expiry t random name remark scopes vehicles ips requested k secret drawn in
      (
        resolve_expiry-InYear p t.ns k.expires_ns requested lives,
        rw (keys, get-put) (ground (arith, eq_iff k.id k.id)),
      )
