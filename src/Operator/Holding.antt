-- ===== src/Operator/Holding.antt =====
-- server/fleet/auth.go: the same, for snapshots, logins and the operations on many sessions.
use manage_robot.Common.{
  ◌≡◌, refl, ◌∙◌, ◌⊎◌, inl, inr, Bool, true, false, Option, none, some, List, [], ◌∷◌, String,
  str_eq, if_cases, if◌then◌else◌, get, arith,
}
use manage_robot.Operator.Data.{User, Session, AuthStore, Call, Host}
use manage_robot.Operator.Session.{
  over_age, restore_session, persist_session, revoke_session, drop_session, session_snapshot,
  snapshot_by_cache, keep_restored, kill_sessions, revoke_all, doomed, doomed_tokens, spared,
}
use manage_robot.Operator.Upkeep.{refresh_sessions, refreshed, persist_of}
use manage_robot.Operator.Login.{session_for, enter, entered}
use manage_robot.Operator.Held.{
  Held, persist_sessions, revoke_sessions, restored_token, put-Held, drop_session-Held,
}

module _ (host : Host) (c : Call) (Q : String → Type 0) where
  keep_restored-Held :
      (t : String) (st : AuthStore) (o : Option Session)
      → restore_session host c t st ≡ o
      → (o ≡ none) ⊎ Q t
      → Held Q st.sessions
      → Held Q (keep_restored host c t o st).0.sessions
  keep_restored-Held t st none h q held = held
  keep_restored-Held t st (some s) h (inl missing) held = ground arith
  keep_restored-Held t st (some s) h (inr q) held =
      put-Held host c Q t s st.sessions (restored_token host c t st s h) q held

  snapshot_by_cache-Held :
      (t : String) (st : AuthStore) (o : Option Session)
      → (restore_session host c t st ≡ none) ⊎ Q t
      → Held Q st.sessions
      → Held Q (snapshot_by_cache host c t o st).0.sessions
  snapshot_by_cache-Held t st none q held =
      keep_restored-Held t st (restore_session host c t st) refl q held
  snapshot_by_cache-Held t st (some s) q held =
      if_cases (λ (o : AuthStore × Option Session). Held Q o.0.sessions) (over_age c.now s)
        (drop_session host c t st, none) (st, some s) (λ old. drop_session-Held host c Q t st held)
        (λ young. held)

  pub session_snapshot-Held :
      (t : String) (st : AuthStore)
      → (restore_session host c t st ≡ none) ⊎ Q t
      → Held Q st.sessions
      → Held Q (session_snapshot host c t st).0.sessions
  unfolding session_snapshot
  session_snapshot-Held t st q held = snapshot_by_cache-Held t st (get t st.sessions) q held

  pub revoke_all_sessions :
      (ts : List String) (st : AuthStore) → (revoke_all host c ts st).sessions ≡ st.sessions
  unfolding revoke_all
  revoke_all_sessions [] st = refl
  revoke_all_sessions (t ∷ ts) st =
      revoke_all_sessions ts (revoke_session host c t st) ∙ revoke_sessions host c t st

  spared-Held :
      (username except : String) (m : List (String × Session))
      → Held Q m
      → Held Q (spared host c username except m)
  unfolding spared
  spared-Held username except [] held = held
  spared-Held username except ((t, s) ∷ m) (q, held) =
      if_cases (Held Q) (doomed host c username except t s) (spared host c username except m)
        ((t, s) ∷ spared host c username except m) (λ d. spared-Held username except m held)
        (λ k. (q, spared-Held username except m held))

  pub kill_sessions-Held :
      (username except : String) (st : AuthStore)
      → Held Q st.sessions
      → Held Q (kill_sessions host c username except st).sessions
  unfolding kill_sessions
  kill_sessions-Held username except st held =
      rw
        (revoke_all_sessions (doomed_tokens host c username except st.sessions)
          (record st { sessions = spared host c username except st.sessions }))
        (spared-Held username except st.sessions held)

  pub refreshed-Held :
      (username role : String) (groups : List String) (m : List (String × Session))
      → Held Q m
      → Held Q (refreshed username groups role m)
  unfolding refreshed
  refreshed-Held username role groups [] held = held
  refreshed-Held username role groups ((t, s) ∷ m) ((own, q), held) =
      ((ground arith, q), refreshed-Held username role groups m held)

  persist_of_sessions :
      (username : String) (m : List (String × Session)) (st : AuthStore)
      → (persist_of host c username m st).sessions ≡ st.sessions
  unfolding persist_of
  persist_of_sessions username [] st = refl
  persist_of_sessions username ((t, s) ∷ m) st = ground (
    arith,
    persist_of_sessions username m
        (if str_eq s.username username then (persist_session host c s st).0 else st),
    persist_sessions host c s st,
  )

  pub refresh_sessions-Held :
      (username role : String) (groups : List String) (st : AuthStore)
      → Held Q st.sessions
      → Held Q (refresh_sessions host c username groups role st).sessions
  unfolding refresh_sessions
  refresh_sessions-Held username role groups st held =
      let now_held = refreshed username groups role st.sessions in
      rw (persist_of_sessions username now_held (record st { sessions = now_held }))
        (refreshed-Held username role groups st.sessions held)

  entered-Held :
      (s : Session) (r : AuthStore × Bool)
      → Q s.token
      → Held Q r.0.sessions
      → Held Q (entered s r).0.sessions
  entered-Held s (st, false) q held = held
  entered-Held s (st, true) q held = put-Held host c Q s.token s st.sessions refl q held

  pub enter-Held :
      (t : String) (u : User) (st : AuthStore)
      → Q t
      → Held Q st.sessions
      → Held Q (enter host c t u st).0.sessions
  unfolding enter
  enter-Held t u st q held =
      let s = session_for c.now t u in
      entered-Held s (persist_session host c s st) q (rw (persist_sessions host c s st) held)
