-- ===== src/Operator/Shut.antt =====
-- server/fleet/auth.go: the statements on auth_sessions, over a row that is revoked or missing.
use manage_robot.Common.{
  ◌≡◌, inl, inr, Bool, true, false, not, ◌||◌, Option, none, some, String, str_eq, eq_iff,
  Option-cases, get, delete, get-put, arith,
}
use manage_robot.Wire.Auth.{is_empty}
use manage_robot.Operator.Data.{Session, Row, AuthStore, Call, Host, session_token_hash}
use manage_robot.Operator.Session.{
  row_lives, row_of, restore_session, persist_session, revoke_session, drop_session,
}

-- The row is revoked, or there is none.
abbrev pub dead_row : Option Row → Bool
dead_row none = true
dead_row (some row) = row.revoked

module _ (host : Host) (token : String) where
  abbrev hash_of : String → String
  hash_of = session_token_hash host

  -- No other token has the same digest.
  abbrev pub Distinct : Type 0
  Distinct = (t : String) → str_eq t token ≡ false → str_eq (hash_of t) (hash_of token) ≡ false

  -- The database cannot give the session back.
  abbrev pub shut : AuthStore → Bool
  shut st = not st.durable || is_empty token || dead_row (get (hash_of token) st.rows)

  module _ (c : Call) where
    pub persist_shut :
        (s : Session) (st : AuthStore)
        → Distinct
        → str_eq s.token token ≡ false
        → shut st ≡ true
        → shut (persist_session host c s st).0 ≡ true
    unfolding persist_session
    persist_shut s st distinct other closed = elim (Option-cases (get (hash_of s.token) st.rows)) [
      | inl missing ↦ ground (
        arith,
        distinct s.token other,
        get-put (hash_of s.token) (hash_of token) (row_of s) st.rows,
      )
      | inr (row, found) ↦ ground (
        arith,
        distinct s.token other,
        get-put (hash_of s.token) (hash_of token)
            (record row {
              username = s.username;
              role = s.role;
              groups = s.groups;
              last_use = s.last_use;
            })
            st.rows,
      )
    ]

    pub revoke_shut :
        (t : String) (st : AuthStore) → shut st ≡ true → shut (revoke_session host c t st) ≡ true
    unfolding revoke_session
    revoke_shut t st closed = elim (Option-cases (get (hash_of t) st.rows)) [
      | inl missing ↦ ground arith
      | inr (row, found) ↦ ground (
        arith,
        eq_iff (hash_of t) (hash_of token),
        get-put (hash_of t) (hash_of token) (record row { revoked = true }) st.rows,
      )
    ]

    pub revoked_shut :
        (st : AuthStore) → c.writes ≡ true → shut (revoke_session host c token st) ≡ true
    unfolding revoke_session
    revoked_shut st w = elim (Option-cases (get (hash_of token) st.rows)) [
      | inl missing ↦ ground arith
      | inr (row, found) ↦ ground (
        arith,
        eq_iff (hash_of token) (hash_of token),
        get-put (hash_of token) (hash_of token) (record row { revoked = true }) st.rows,
      )
    ]

    -- A session whose row is shut is not restored.
    pub shut_restore : (st : AuthStore) → shut st ≡ true → restore_session host c token st ≡ none
    unfolding restore_session row_lives
    shut_restore st closed = ground arith

    pub drop_shut :
        (t : String) (st : AuthStore) → shut st ≡ true → shut (drop_session host c t st) ≡ true
    unfolding drop_session
    drop_shut t st closed = revoke_shut t (record st { sessions = delete t st.sessions }) closed
