-- ===== src/OpenApi/Replay.antt =====
-- server/fleet/openapi.go: authenticate, on a request that comes twice.
use manage_robot.Common.{
  ℕ, ◌≤◌, ◌<◌, ◌≡◌, ◌≢◌, subst, ◌⊎◌, inl, inr, false, some, List, [], ◌∷◌, String, eq_iff, ℤ, pos,
  leb_ℤ, ◌≤ℤ◌, ◌+ℤ◌, +ℤ_parts, -ℤ_parts, Bool-cases, get, put, get-put, get-delete_if, arith,
}
use manage_robot.OpenApi.Store.{Key, Store, Policy, Clock, Host}
use manage_robot.OpenApi.Authenticate.{
  Request, accepted, outside, is_replay, nonce_ttl, note_nonce, authenticate, run,
}
use manage_robot.OpenApi.Admission.{authenticate-Genuine, authenticate_nonces}

-- A nonce that was stored at `start` is still stored, or its ten minutes have passed at `now`.
abbrev Remembered : ℤ → String → List (String × ℤ) → ℤ → Type 0
Remembered start nonce nonces now =
    ((e : ℤ) × (get nonce nonces ≡ some e) × (start +ℤ nonce_ttl ≤ℤ e))
    ⊎ (start +ℤ nonce_ttl ≤ℤ now)

get-note_nonce :
    (nonce : String) (nonces : List (String × ℤ)) (now : ℤ)
    → get nonce (note_nonce nonces nonce now) ≡ some (now +ℤ nonce_ttl)
unfolding note_nonce
get-note_nonce nonce nonces now =
    get-delete_if (λ exp. leb_ℤ exp now) nonce (now +ℤ nonce_ttl)
      (put nonce (now +ℤ nonce_ttl) nonces) (rw get-put (ground (arith, eq_iff nonce nonce)))
      (ground (arith, +ℤ_parts now nonce_ttl))

later_note :
    (start : ℤ) (nonce other : String) (nonces : List (String × ℤ)) (now later : ℤ)
    → now ≤ℤ later
    → is_replay nonces other later ≡ false
    → Remembered start nonce nonces now
    → Remembered start nonce (note_nonce nonces other later) later
unfolding note_nonce is_replay
later_note start nonce other nonces now later le new (inr past) = inr (omega arith)
later_note start nonce other nonces now later le new (inl (e, found, far)) =
    elim (Bool-cases (leb_ℤ e later)) [
      | inl past ↦ inr (ground arith)
      | inr live ↦ inl (
        e,
        get-delete_if (λ exp. leb_ℤ exp later) nonce e (put other (later +ℤ nonce_ttl) nonces)
            (rw get-put (ground (arith, eq_iff other nonce))) live,
        far,
      )
    ]

-- A remembered nonce that counts as new has had its ten minutes.
fresh_past :
    (start : ℤ) (nonce : String) (nonces : List (String × ℤ)) (now : ℤ)
    → is_replay nonces nonce now ≡ false
    → Remembered start nonce nonces now
    → start +ℤ nonce_ttl ≤ℤ now
unfolding is_replay
fresh_past start nonce nonces now new (inr past) = past
fresh_past start nonce nonces now new (inl (e, found, far)) = ground arith

-- Both times lie within a window of the same stamp that is too short for ten minutes.
too_short :
    (start now ts : ℤ) (window : ℕ)
    → window < 300
    → outside start ts window ≡ false
    → outside now ts window ≡ false
    → start +ℤ nonce_ttl ≤ℤ now
    → ⊥
unfolding outside
too_short start now ts window short early late past = ground (
  arith,
  +ℤ_parts start nonce_ttl,
  -ℤ_parts start ts,
  -ℤ_parts now ts,
  -ℤ_parts (pos 0) (pos window),
)

-- The calls follow one another from `now` to `stop`.
abbrev pub Forward : ℤ → List (Clock × Request) → ℤ → Type 0
Forward now [] stop = now ≤ℤ stop
Forward now ((t, r) ∷ calls) stop = (now ≤ℤ t.s) × Forward t.s calls stop

module _ (host : Host) (p : Policy) where
  run-Remembered :
      (start : ℤ) (nonce : String) (st : Store) (calls : List (Clock × Request)) (now stop : ℤ)
      → Forward now calls stop
      → Remembered start nonce st.nonces now
      → Remembered start nonce (run host p st calls).nonces stop
  unfolding run
  run-Remembered start nonce st [] now stop f (inl e) = inl e
  run-Remembered start nonce st [] now stop f (inr past) = inr (omega arith)
  run-Remembered start nonce st ((t, r) ∷ calls) now stop f m =
      run-Remembered start nonce (authenticate host p t r st).0 calls t.s stop f.1
        (elim (authenticate_nonces host p t r st) [
          | inl same ↦ rw same (later start nonce st.nonces now t.s f.0 m)
          | inr new ↦ rw (new.0) (later_note start nonce r.nonce st.nonces now t.s f.0 new.1 m)
        ])
    where
      later :
          (start : ℤ) (nonce : String) (nonces : List (String × ℤ)) (now then' : ℤ)
          → now ≤ℤ then'
          → Remembered start nonce nonces now
          → Remembered start nonce nonces then'
      later start nonce nonces now then' le (inl e) = inl e
      later start nonce nonces now then' le (inr past) = inr (omega arith)

  -- Under a window below five minutes and a clock that does not go back: a request that was let in is
  -- not let in again, whatever requests come in between, as long as its nonce and its time are the same.
  pub replay_denied :
      (st : Store) (t t' : Clock) (r r' : Request) (calls : List (Clock × Request)) (u u' : Key)
      → p.replay_window_s < 300
      → r'.nonce ≡ r.nonce
      → r'.timestamp ≡ r.timestamp
      → (authenticate host p t r st).1 ≡ accepted u
      → Forward t.s calls t'.s
      → (authenticate host p t' r' (run host p (authenticate host p t r st).0 calls)).1
        ≢ accepted u'
  replay_denied st t t' r r' calls u u' short same_nonce same_time first f second =
      let (k, ts, g, e, noted) = authenticate-Genuine host p t r st u first in
      let after = run host p (authenticate host p t r st).0 calls in
      let (k', ts', g', e', noted') = authenticate-Genuine host p t' r' after u' second in
      let stored : Remembered t.s r.nonce (authenticate host p t r st).0.nonces t.s =
        inl (t.s +ℤ nonce_ttl, rw noted (get-note_nonce r.nonce st.nonces t.s), omega arith) in
      let kept =
        run-Remembered t.s r.nonce (authenticate host p t r st).0 calls t.s t'.s f stored in
      let same_ts : ts' ≡ ts = ground (arith, g.time, g'.time) in
      too_short t.s t'.s ts p.replay_window_s short g.window (rw (← same_ts) g'.window) (
        fresh_past t.s r.nonce after.nonces t'.s
          (subst (λ n. is_replay after.nonces n t'.s ≡ false) same_nonce g'.fresh) kept)

  spent :
      (nonces : List (String × ℤ)) (nonce : String) (e : ℤ)
      → get nonce nonces ≡ some e
      → is_replay nonces nonce e ≡ false
  unfolding is_replay
  spent nonces nonce e h = ground arith

  still_inside :
      (start : ℤ) (window : ℕ)
      → 300 ≤ window
      → outside (start +ℤ pos 600) (start +ℤ pos window) window ≡ false
  unfolding outside
  still_inside start window long = ground (
    arith,
    +ℤ_parts start (pos 600),
    +ℤ_parts start (pos window),
    -ℤ_parts (start +ℤ pos 600) (start +ℤ pos window),
    -ℤ_parts (pos 0) (pos window),
  )

  -- Under a window of five minutes or more, a request that was dated as late as the window allows
  -- passes both guards against a replay again ten minutes after it was let in: its nonce counts as new
  -- and its time lies in the window.
  pub replay_passes :
      (st : Store) (t t' : Clock) (r : Request) (u : Key) (ts : ℤ)
      → 300 ≤ p.replay_window_s
      → ts ≡ t.s +ℤ pos p.replay_window_s
      → t'.s ≡ t.s +ℤ pos 600
      → (authenticate host p t r st).1 ≡ accepted u
      → (is_replay (authenticate host p t r st).0.nonces r.nonce t'.s ≡ false)
        × (outside t'.s ts p.replay_window_s ≡ false)
  replay_passes st t t' r u ts long dated later first =
      let (k, ts0, g, e, noted) = authenticate-Genuine host p t r st u first in
      let found : get r.nonce (authenticate host p t r st).0.nonces ≡ some (t.s +ℤ nonce_ttl) =
        rw noted (get-note_nonce r.nonce st.nonces t.s) in
      (
        rw later (spent (authenticate host p t r st).0.nonces r.nonce (t.s +ℤ nonce_ttl) found),
        rw (later, dated) (still_inside t.s p.replay_window_s long),
      )
