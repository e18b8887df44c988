-- ===== src/Operator/Logout.antt =====
-- server/fleet/auth.go: sessions after Logout and after KillSessions.
use manage_robot.Common.{
  ◌≡◌, refl, ◌∙◌, inl, inr, true, false, none, some, List, [], ◌∷◌, String, str_eq, eq_iff,
  Option-cases, if_cases, All, get, delete, get-put, arith,
}
use manage_robot.Wire.Auth.{is_empty}
use manage_robot.Operator.Data.{Session, Row, AuthStore, Call, Host, session_token_hash}
use manage_robot.Operator.Session.{
  forget_session, row_lives, session_of, restore_session, persist_session, revoke_session,
  session_by_token, session_snapshot, kill_sessions, revoke_all, doomed, doomed_tokens, spared,
}
use manage_robot.Operator.Held.{Held, lookup_own, revoke_sessions}
use manage_robot.Operator.Holding.{revoke_all_sessions}
use manage_robot.Operator.Shut.{Distinct, revoked_shut, shut_restore}
use manage_robot.Operator.Steps.{Step, steps}
use manage_robot.Operator.Gone.{
  Absent, steps-Others, Elsewhere, Others, Gone, steps-Gone, steps_own,
}

module _ (host : Host) (token : String) where
  forget_session-Others :
      (m : List (String × Session)) → Held (λ k. Unit) m → Others host token (delete token m)
  unfolding delete
  forget_session-Others [] held = tt
  forget_session-Others ((j, s) ∷ m) ((own, any), held) =
      if_cases (Others host token) (str_eq j token) (delete token m) ((j, s) ∷ delete token m)
        (λ same. forget_session-Others m held)
        (λ other. ((own, other), forget_session-Others m held))

  gone_cache :
      (c : Call) (st : AuthStore) → Others host token st.sessions → get token st.sessions ≡ none
  gone_cache c st held = elim (Option-cases (get token st.sessions)) [
    | inl missing ↦ missing
    | inr (s, found) ↦ ground (
      arith,
      (lookup_own host c (λ k. str_eq k token ≡ false) token s st.sessions held found).1,
      eq_iff token token,
    )
  ]

  session_by_token_over :
      (c : Call) (st : AuthStore) → Gone host token st → (session_by_token host c token st).1 ≡ none
  unfolding session_by_token
  session_by_token_over c st (held, closed) =
      ground (arith, gone_cache c st held, shut_restore host token c st closed)

  session_snapshot_over :
      (c : Call) (st : AuthStore) → Gone host token st → (session_snapshot host c token st).1 ≡ none
  unfolding session_snapshot
  session_snapshot_over c st (held, closed) =
      ground (arith, gone_cache c st held, shut_restore host token c st closed)

  -- The two parts of a logout, first the cache and then the row, with any steps before, between and
  -- after them. If the database takes the revocation, the token opens no session afterwards, not for a
  -- request and not for an open connection, provided that no login draws the same token from the
  -- first part on; that no request and no snapshot with the token runs between the parts; that none
  -- which restored the session caches it after the first part; and that no other token has its digest.
  -- The server starts with an empty cache.
  pub logout_final :
      (st : AuthStore) (before between after : List Step) (c c' : Call)
      → st.sessions ≡ []
      → c.writes ≡ true
      → Distinct host token
      → All (Absent host token) between
      → All (Elsewhere host token) after
      → let forgotten = forget_session token (steps host st before) in
        let out = revoke_session host c token (steps host forgotten between) in
        ((session_by_token host c' token (steps host out after)).1 ≡ none)
        × ((session_snapshot host c' token (steps host out after)).1 ≡ none)
  logout_final st before between after c c' empty w d y x =
      let held = steps_own host st before (rw empty tt) in
      let forgotten = forget_session token (steps host st before) in
      let others =
        steps-Others host token forgotten between y
          (forget_session-Others (steps host st before).sessions held) in
      let st' = steps host forgotten between in
      let gone =
        steps-Gone host token (revoke_session host c token st') after d x
          (rw (revoke_sessions host c token st') others, revoked_shut host token c st' w) in
      (session_by_token_over c' _ gone, session_snapshot_over c' _ gone)

  revoke_row :
      (c : Call) (t : String) (st : AuthStore)
      → Distinct host token
      → str_eq t token ≡ false
      → (get (session_token_hash host token) (revoke_session host c t st).rows
          ≡ get (session_token_hash host token) st.rows)
        × ((revoke_session host c t st).durable ≡ st.durable)
  unfolding revoke_session
  revoke_row c t st d other = elim (Option-cases (get (session_token_hash host t) st.rows)) [
    | inl missing ↦ ground arith
    | inr (row, found) ↦ ground (
      arith,
      d t other,
      get-put (session_token_hash host t) (session_token_hash host token)
          (record row { revoked = true }) st.rows,
    )
  ]

  revoke_all_row :
      (c : Call) (ts : List String) (st : AuthStore)
      → Distinct host token
      → All (λ t. str_eq t token ≡ false) ts
      → (get (session_token_hash host token) (revoke_all host c ts st).rows
          ≡ get (session_token_hash host token) st.rows)
        × ((revoke_all host c ts st).durable ≡ st.durable)
  unfolding revoke_all
  revoke_all_row c [] st d x = (refl, refl)
  revoke_all_row c (t ∷ ts) st d (x, xs) =
      let (row, mode) = revoke_row c t st d x in
      let (rows, modes) = revoke_all_row c ts (revoke_session host c t st) d xs in
      (rows ∙ row, modes ∙ mode)

  doomed_others :
      (c : Call) (username except : String) (m : List (String × Session))
      → get token m ≡ none
      → All (λ t. str_eq t token ≡ false) (doomed_tokens host c username except m)
  unfolding doomed_tokens get
  doomed_others c username except [] h = tt
  doomed_others c username except ((t, s) ∷ m) h =
      let rest = doomed_others c username except m (ground arith) in
      if_cases (All λ t. str_eq t token ≡ false) (doomed host c username except t s)
        (t ∷ doomed_tokens host c username except m) (doomed_tokens host c username except m)
        (λ his. (ground arith, rest)) (λ not_his. rest)

  get-spared :
      (c : Call) (username except : String) (m : List (String × Session))
      → get token m ≡ none
      → get token (spared host c username except m) ≡ none
  unfolding spared get
  get-spared c username except [] h = refl
  get-spared c username except ((t, s) ∷ m) h =
      let rest = get-spared c username except m (ground arith) in ground arith

  -- A live row that the cache does not have opens a session.
  row_opens :
      (st : AuthStore) (c : Call) (row : Row)
      → st.durable ≡ true
      → is_empty token ≡ false
      → get token st.sessions ≡ none
      → get (session_token_hash host token) st.rows ≡ some row
      → row_lives c.db_now row ≡ true
      → c.reads ≡ true
      → c.writes ≡ true
      → (session_by_token host c token st).1
        ≡ some (record (session_of token row) { last_use = c.now })
  unfolding session_by_token restore_session persist_session row_lives
  row_opens st c row durable named uncached stored lives r w = ground arith

  -- A session whose row in the database is live, and that no request has brought into the cache of
  -- this server since it started, outlives the call that ends all sessions of its user: the next
  -- request with its token opens it, when the database answers and no other token has its digest.
  pub kill_sessions_misses :
      (st : AuthStore) (c c' : Call) (username except : String) (row : Row)
      → st.durable ≡ true
      → is_empty token ≡ false
      → Distinct host token
      → get token st.sessions ≡ none
      → get (session_token_hash host token) st.rows ≡ some row
      → row_lives c'.db_now row ≡ true
      → c'.reads ≡ true
      → c'.writes ≡ true
      → (session_by_token host c' token (kill_sessions host c username except st)).1
        ≡ some (record (session_of token row) { last_use = c'.now })
  unfolding kill_sessions
  kill_sessions_misses st c c' username except row durable named d uncached stored lives r w =
      let ts = doomed_tokens host c username except st.sessions in
      let kept = record st { sessions = spared host c username except st.sessions } in
      let (rows, mode) =
        revoke_all_row c ts kept d (doomed_others c username except st.sessions uncached) in
      row_opens (revoke_all host c ts kept) c' row (mode ∙ durable) named
        (rw (revoke_all_sessions host c (λ k. Unit) ts kept)
          (get-spared c username except st.sessions uncached))
        (rows ∙ stored) lives r w
