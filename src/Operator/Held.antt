-- ===== src/Operator/Held.antt =====
-- server/fleet/auth.go: the tokens under which the sessions of the cache stand.
use manage_robot.Common.{
  ◌≡◌, refl, subst, ◌⊎◌, inl, inr, Bool, true, false, Option, none, some, List, String, eq_iff,
  if_cases, All, get, put, delete, All-put, All-get, All-delete, arith,
}
use manage_robot.Wire.Auth.{is_empty}
use manage_robot.Operator.Data.{Session, AuthStore, Call, Host}
use manage_robot.Operator.Session.{
  over_age, restore_session, persist_session, revoke_session, drop_session, use_cached, by_cache,
  use_restored, session_by_token, cached, if_stored,
}

pub persist_sessions :
    (host : Host) (c : Call) (s : Session) (st : AuthStore)
    → (persist_session host c s st).0.sessions ≡ st.sessions
unfolding persist_session
persist_sessions host c s st = ground arith

pub revoke_sessions :
    (host : Host) (c : Call) (t : String) (st : AuthStore)
    → (revoke_session host c t st).sessions ≡ st.sessions
unfolding revoke_session
revoke_sessions host c t st = ground arith

pub restored_token :
    (host : Host) (c : Call) (t : String) (st : AuthStore) (s : Session)
    → restore_session host c t st ≡ some s
    → s.token ≡ t
unfolding restore_session
restored_token host c t st s h = ground arith

-- Every session stands under its token, and the tokens are allowed ones.
abbrev pub Held : (String → Type 0) → List (String × Session) → Type 0
Held Q = All λ e. (e.1.token ≡ e.0) × Q e.0

module _ (host : Host) (c : Call) (Q : String → Type 0) where
  pub lookup_own :
      (t : String) (s : Session) (m : List (String × Session))
      → Held Q m
      → get t m ≡ some s
      → (s.token ≡ t) × Q t
  lookup_own t s m held h =
      let (j, same, (own, q)) = All-get (λ e. (e.1.token ≡ e.0) × Q e.0) t s m held h in
      let e : j ≡ t = ground (arith, eq_iff j t) in (ground arith, subst Q e q)

  pub put-Held :
      (t : String) (s : Session) (m : List (String × Session))
      → s.token ≡ t
      → Q t
      → Held Q m
      → Held Q (put t s m)
  put-Held t s m own q held = All-put (λ e. (e.1.token ≡ e.0) × Q e.0) t s m (own, q) held

  pub drop_session-Held :
      (t : String) (st : AuthStore)
      → Held Q st.sessions
      → Held Q (drop_session host c t st).sessions
  unfolding drop_session
  drop_session-Held t st held =
      rw (revoke_sessions host c t (record st { sessions = delete t st.sessions }))
        (All-delete (λ e. (e.1.token ≡ e.0) × Q e.0) t st.sessions held)

  pub if_stored_sessions : (s : Session) (r : AuthStore × Bool) → (if_stored host c s r).0 ≡ r.0
  if_stored_sessions s (st, true) = refl
  if_stored_sessions s (st, false) = refl

  cached-Held :
      (t : String) (s : Session) (r : AuthStore × Bool)
      → s.token ≡ t
      → Q t
      → Held Q r.0.sessions
      → Held Q (cached host c t s r).0.sessions
  cached-Held t s (st, false) own q held = held
  cached-Held t s (st, true) own q held = put-Held t s st.sessions own q held

  use_cached-Held :
      (t : String) (s : Session) (st : AuthStore)
      → s.token ≡ t
      → Q t
      → Held Q st.sessions
      → Held Q (use_cached host c t s st).0.sessions
  unfolding use_cached
  use_cached-Held t s st own q held =
      let used = record s { last_use = c.now } in
      let st' = record st { sessions = put t used st.sessions } in
      if_cases (λ o. Held Q o.0.sessions) (over_age c.now s) (drop_session host c t st, none)
        (if_stored host c used (persist_session host c used st'))
        (λ old. drop_session-Held t st held)
        (λ young.
          rw
            (
              if_stored_sessions used (persist_session host c used st'),
              persist_sessions host c used st',
            )
            (put-Held t used st.sessions own q held))

  use_restored-Held :
      (t : String) (st : AuthStore) (o : Option Session)
      → restore_session host c t st ≡ o
      → (o ≡ none) ⊎ Q t
      → Held Q st.sessions
      → Held Q (use_restored host c t o st).0.sessions
  use_restored-Held t st none h q held = held
  use_restored-Held t st (some s) h (inl missing) held = ground arith
  use_restored-Held t st (some s) h (inr q) held =
      let used = record s { last_use = c.now } in
      cached-Held t used (persist_session host c used st) (restored_token host c t st s h) q
        (rw (persist_sessions host c used st) held)

  by_cache-Held :
      (t : String) (st : AuthStore) (o : Option Session)
      → get t st.sessions ≡ o
      → (restore_session host c t st ≡ none) ⊎ Q t
      → Held Q st.sessions
      → Held Q (by_cache host c t o st).0.sessions
  by_cache-Held t st none h q held =
      use_restored-Held t st (restore_session host c t st) refl q held
  by_cache-Held t st (some s) h q held =
      let (own, allowed) = lookup_own t s st.sessions held h in
      use_cached-Held t s st own allowed held

  pub session_by_token-Held :
      (t : String) (st : AuthStore)
      → (restore_session host c t st ≡ none) ⊎ Q t
      → Held Q st.sessions
      → Held Q (session_by_token host c t st).0.sessions
  unfolding session_by_token
  session_by_token-Held t st q held =
      if_cases (λ o. Held Q o.0.sessions) (is_empty t) (st, none)
        (by_cache host c t (get t st.sessions) st) (λ e. held)
        (λ n. by_cache-Held t st (get t st.sessions) refl q held)
