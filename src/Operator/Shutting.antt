-- ===== src/Operator/Shutting.antt =====
-- server/fleet/auth.go: the operations, over a row that is revoked or missing.
use manage_robot.Common.{
  ◌≡◌, refl, ◌⊎◌, inl, inr, Bool, true, false, not, Option, none, some, List, [], ◌∷◌, String,
  str_eq, if_cases, if◌then◌else◌, get, put, delete_if, get-delete_if_cases, arith,
}
use manage_robot.Wire.Auth.{is_empty}
use manage_robot.Operator.Data.{User, Session, Row, AuthStore, Call, Host, session_token_hash}
use manage_robot.Operator.Session.{
  over_age, row_lives, restore_session, persist_session, revoke_session, drop_session, use_cached,
  use_restored, by_cache, if_stored, cached, session_by_token, session_snapshot, keep_restored,
  snapshot_by_cache, kill_sessions, revoke_all, doomed_tokens, spared,
}
use manage_robot.Operator.Upkeep.{refresh_sessions, refreshed, persist_of, cleanup}
use manage_robot.Operator.Login.{session_for, enter, entered}
use manage_robot.Operator.Held.{Held, lookup_own, restored_token, if_stored_sessions}
use manage_robot.Operator.Holding.{refreshed-Held}
use manage_robot.Operator.Shut.{dead_row, Distinct, shut, persist_shut, revoke_shut, drop_shut}

module _ (host : Host) (token : String) (c : Call) where
  shut-use_cached :
      (t : String) (s : Session) (st : AuthStore)
      → Distinct host token
      → str_eq s.token token ≡ false
      → shut host token st ≡ true
      → shut host token (use_cached host c t s st).0 ≡ true
  unfolding use_cached
  shut-use_cached t s st distinct other closed =
      let used = record s { last_use = c.now } in
      let st' = record st { sessions = put t used st.sessions } in
      if_cases (λ (o : AuthStore × Option Session). shut host token o.0 ≡ true) (over_age c.now s)
        (drop_session host c t st, none) (if_stored host c used (persist_session host c used st'))
        (λ old. drop_shut host token c t st closed)
        (λ young.
          rw (if_stored_sessions host c (λ k. Unit) used (persist_session host c used st'))
            (persist_shut host token c used st' distinct other closed))

  cached_shut :
      (t : String) (s : Session) (r : AuthStore × Bool)
      → shut host token r.0 ≡ true
      → shut host token (cached host c t s r).0 ≡ true
  cached_shut t s (st, true) closed = closed
  cached_shut t s (st, false) closed = closed

  shut-use_restored :
      (t : String) (st : AuthStore) (o : Option Session)
      → Distinct host token
      → restore_session host c t st ≡ o
      → (o ≡ none) ⊎ (str_eq t token ≡ false)
      → shut host token st ≡ true
      → shut host token (use_restored host c t o st).0 ≡ true
  shut-use_restored t st none distinct h q closed = closed
  shut-use_restored t st (some s) distinct h (inl missing) closed = ground arith
  shut-use_restored t st (some s) distinct h (inr other) closed =
      let used = record s { last_use = c.now } in
      let own = restored_token host c t st s h in
      cached_shut t used (persist_session host c used st)
        (persist_shut host token c used st distinct (rw own other) closed)

  shut-by_cache :
      (t : String) (st : AuthStore) (o : Option Session)
      → Distinct host token
      → get t st.sessions ≡ o
      → (restore_session host c t st ≡ none) ⊎ (str_eq t token ≡ false)
      → Held (λ k. str_eq k token ≡ false) st.sessions
      → shut host token st ≡ true
      → shut host token (by_cache host c t o st).0 ≡ true
  shut-by_cache t st none distinct h q held closed =
      shut-use_restored t st (restore_session host c t st) distinct refl q closed
  shut-by_cache t st (some s) distinct h q held closed =
      let (own, other) = lookup_own host c (λ k. str_eq k token ≡ false) t s st.sessions held h in
      shut-use_cached t s st distinct (rw own other) closed

  pub shut-session_by_token :
      (t : String) (st : AuthStore)
      → Distinct host token
      → (restore_session host c t st ≡ none) ⊎ (str_eq t token ≡ false)
      → Held (λ k. str_eq k token ≡ false) st.sessions
      → shut host token st ≡ true
      → shut host token (session_by_token host c t st).0 ≡ true
  unfolding session_by_token
  shut-session_by_token t st distinct q held closed =
      if_cases (λ (o : AuthStore × Option Session). shut host token o.0 ≡ true) (is_empty t)
        (st, none) (by_cache host c t (get t st.sessions) st) (λ e. closed)
        (λ n. shut-by_cache t st (get t st.sessions) distinct refl q held closed)

  shut-keep_restored :
      (t : String) (st : AuthStore) (o : Option Session)
      → shut host token st ≡ true
      → shut host token (keep_restored host c t o st).0 ≡ true
  shut-keep_restored t st none closed = closed
  shut-keep_restored t st (some s) closed = closed

  shut-snapshot_by_cache :
      (t : String) (st : AuthStore) (o : Option Session)
      → shut host token st ≡ true
      → shut host token (snapshot_by_cache host c t o st).0 ≡ true
  shut-snapshot_by_cache t st none closed =
      shut-keep_restored t st (restore_session host c t st) closed
  shut-snapshot_by_cache t st (some s) closed =
      if_cases (λ (o : AuthStore × Option Session). shut host token o.0 ≡ true) (over_age c.now s)
        (drop_session host c t st, none) (st, some s) (λ old. drop_shut host token c t st closed)
        (λ young. closed)

  pub shut-session_snapshot :
      (t : String) (st : AuthStore)
      → shut host token st ≡ true
      → shut host token (session_snapshot host c t st).0 ≡ true
  unfolding session_snapshot
  shut-session_snapshot t st closed = shut-snapshot_by_cache t st (get t st.sessions) closed

  shut-revoke_all :
      (ts : List String) (st : AuthStore)
      → shut host token st ≡ true
      → shut host token (revoke_all host c ts st) ≡ true
  unfolding revoke_all
  shut-revoke_all [] st closed = closed
  shut-revoke_all (t ∷ ts) st closed =
      shut-revoke_all ts (revoke_session host c t st) (revoke_shut host token c t st closed)

  pub shut-kill_sessions :
      (username except : String) (st : AuthStore)
      → shut host token st ≡ true
      → shut host token (kill_sessions host c username except st) ≡ true
  unfolding kill_sessions
  shut-kill_sessions username except st closed =
      shut-revoke_all (doomed_tokens host c username except st.sessions)
        (record st { sessions = spared host c username except st.sessions }) closed

  shut-persist_of :
      (username : String) (m : List (String × Session)) (st : AuthStore)
      → Distinct host token
      → Held (λ k. str_eq k token ≡ false) m
      → shut host token st ≡ true
      → shut host token (persist_of host c username m st) ≡ true
  unfolding persist_of
  shut-persist_of username [] st distinct held closed = closed
  shut-persist_of username ((t, s) ∷ m) st distinct ((own, other), held) closed =
      shut-persist_of username m
        (if str_eq s.username username then (persist_session host c s st).0 else st) distinct held
        (if_cases (λ (o : AuthStore). shut host token o ≡ true) (str_eq s.username username)
          (persist_session host c s st).0 st
          (λ his. persist_shut host token c s st distinct (rw own other) closed)
          (λ not_his. closed))

  pub shut-refresh_sessions :
      (username role : String) (groups : List String) (st : AuthStore)
      → Distinct host token
      → Held (λ k. str_eq k token ≡ false) st.sessions
      → shut host token st ≡ true
      → shut host token (refresh_sessions host c username groups role st) ≡ true
  unfolding refresh_sessions
  shut-refresh_sessions username role groups st distinct held closed =
      let now_held = refreshed username groups role st.sessions in
      shut-persist_of username now_held (record st { sessions = now_held }) distinct
        (refreshed-Held host c (λ k. str_eq k token ≡ false) username role groups st.sessions held)
        closed

  swept_row :
      (m : List (String × Row))
      → dead_row (get (session_token_hash host token) m) ≡ true
      → dead_row
          (get (session_token_hash host token) (delete_if (λ row. not (row_lives c.db_now row)) m))
        ≡ true
  swept_row m closed =
      elim (get-delete_if_cases (λ row. not (row_lives c.db_now row))
        (session_token_hash host token) m) [ inl gone ↦ rw gone refl | inr same ↦ rw same closed ]

  pub shut-cleanup :
      (st : AuthStore) → shut host token st ≡ true → shut host token (cleanup c st) ≡ true
  unfolding cleanup
  shut-cleanup st closed = ground (arith, swept_row st.rows)

  shut-entered :
      (s : Session) (r : AuthStore × Bool)
      → shut host token r.0 ≡ true
      → shut host token (entered s r).0 ≡ true
  shut-entered s (st, true) closed = closed
  shut-entered s (st, false) closed = closed

  pub shut-enter :
      (t : String) (u : User) (st : AuthStore)
      → Distinct host token
      → str_eq t token ≡ false
      → shut host token st ≡ true
      → shut host token (enter host c t u st).0 ≡ true
  unfolding enter
  shut-enter t u st distinct other closed =
      let s = session_for c.now t u in
      shut-entered s (persist_session host c s st)
        (persist_shut host token c s st distinct other closed)
