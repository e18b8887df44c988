-- ===== src/Operator/Session.antt =====
-- server/fleet/auth.go: restoreSession, persistSession, revokeSession, SessionByToken, SessionSnapshot,
-- Logout, RefreshSessions, killSessions and one turn of cleanupLoop.
use manage_robot.Common.{
  Bool, true, false, not, ◌&&◌, ◌||◌, Option, none, some, List, [], ◌∷◌, String, str_eq, ℤ, ltb_ℤ,
  ◌-ℤ◌, if◌then◌else◌, get, put, delete,
}
use manage_robot.Wire.Auth.{is_empty}
use manage_robot.Operator.Data.{
  Session, Row, AuthStore, Call, Host, session_idle_ttl, session_abs_ttl, session_token_hash,
}

unfoldable pub over_age : ℤ → Session → Bool
over_age now s =
    ltb_ℤ session_idle_ttl (now -ℤ s.last_use) || ltb_ℤ session_abs_ttl (now -ℤ s.created_ns)

-- The conditions of the query: not revoked, used and made lately enough.
unfoldable pub row_lives : ℤ → Row → Bool
row_lives db_now row =
    not row.revoked
    && ltb_ℤ (db_now -ℤ session_idle_ttl) row.last_use
    && ltb_ℤ (db_now -ℤ session_abs_ttl) row.created_ns

abbrev pub session_of : String → Row → Session
session_of token row = record {
  token = token;
  username = row.username;
  role = row.role;
  groups = row.groups;
  created_ns = row.created_ns;
  last_use = row.last_use;
}

abbrev pub row_of : Session → Row
row_of s = record {
  username = s.username;
  role = s.role;
  groups = s.groups;
  created_ns = s.created_ns;
  last_use = s.last_use;
  revoked = false;
}

abbrev pub if_lives : ℤ → String → Option Row → Option Session
if_lives db_now token none = none
if_lives db_now token (some row) =
    if row_lives db_now row then some (session_of token row) else none

-- The row that the statement leaves, where it changes one.
abbrev pub upserted : Session → Option Row → Option Row
upserted s none = some (row_of s)
upserted s (some row) =
    if row.revoked
    then none
    else some (record row {
      username = s.username;
      role = s.role;
      groups = s.groups;
      last_use = s.last_use;
    })

abbrev pub stored_row : String → AuthStore → Option Row → AuthStore × Bool
stored_row hash st none = (st, false)
stored_row hash st (some row) = (record st { rows = put hash row st.rows }, true)

abbrev pub revoked_row : String → List (String × Row) → Option Row → List (String × Row)
revoked_row hash rows none = rows
revoked_row hash rows (some row) =
    if row.revoked then rows else put hash (record row { revoked = true }) rows

-- The parts of an operation that hold the mutex: the cache without the session of the token, and the
-- cache with one.
abbrev pub forget_session : String → AuthStore → AuthStore
forget_session token st = record st { sessions = delete token st.sessions }

abbrev pub cache_session : String → Session → AuthStore → AuthStore
cache_session token s st = record st { sessions = put token s st.sessions }

module _ (host : Host) (c : Call) where
  -- An error of the query gives no session, as the callers treat it.
  unfoldable pub restore_session : String → AuthStore → Option Session
  restore_session token st =
      if not st.durable || is_empty token || not c.reads
      then none
      else if_lives c.db_now token (get (session_token_hash host token) st.rows)

  -- INSERT ... ON CONFLICT DO UPDATE ... WHERE revoked_at IS NULL; no row changed is an error.
  unfoldable pub persist_session : Session → AuthStore → AuthStore × Bool
  persist_session s st =
      if not st.durable
      then (st, true)
      else if not c.writes
      then (st, false)
      else stored_row (session_token_hash host s.token) st
          (upserted s (get (session_token_hash host s.token) st.rows))

  unfoldable pub revoke_session : String → AuthStore → AuthStore
  revoke_session token st =
      if not st.durable || is_empty token || not c.writes then st else record st {
        rows =
            revoked_row (session_token_hash host token) st.rows
              (get (session_token_hash host token) st.rows);
      }

  -- The two parts one after the other: the cache's entry, under the mutex, and then the row.
  unfoldable pub drop_session : String → AuthStore → AuthStore
  unfolding revoke_session
  drop_session token st = revoke_session token (forget_session token st)

  abbrev pub if_stored : Session → AuthStore × Bool → AuthStore × Option Session
  if_stored s (st, false) = (st, none)
  if_stored s (st, true) = (st, some s)

  abbrev pub cached : String → Session → AuthStore × Bool → AuthStore × Option Session
  cached token s (st, false) = (st, none)
  cached token s (st, true) = (cache_session token s st, some s)

  unfoldable pub use_cached : String → Session → AuthStore → AuthStore × Option Session
  unfolding drop_session persist_session
  use_cached token s st =
      if over_age c.now s
      then (drop_session token st, none)
      else let used = record s { last_use = c.now } in
        if_stored used (persist_session used (record st { sessions = put token used st.sessions }))

  abbrev pub use_restored : String → Option Session → AuthStore → AuthStore × Option Session
  use_restored token none st = (st, none)
  use_restored token (some s) st =
      let used = record s { last_use = c.now } in cached token used (persist_session used st)

  abbrev pub by_cache : String → Option Session → AuthStore → AuthStore × Option Session
  by_cache token (some s) st = use_cached token s st
  by_cache token none st = use_restored token (restore_session token st) st

  unfoldable pub session_by_token : String → AuthStore → AuthStore × Option Session
  unfolding use_cached restore_session persist_session
  session_by_token token st =
      if is_empty token then (st, none) else by_cache token (get token st.sessions) st

  abbrev pub keep_restored : String → Option Session → AuthStore → AuthStore × Option Session
  keep_restored token none st = (st, none)
  keep_restored token (some s) st = (cache_session token s st, some s)

  abbrev pub snapshot_by_cache : String → Option Session → AuthStore → AuthStore × Option Session
  snapshot_by_cache token (some s) st =
      if over_age c.now s then (drop_session token st, none) else (st, some s)
  snapshot_by_cache token none st = keep_restored token (restore_session token st) st

  unfoldable pub session_snapshot : String → AuthStore → AuthStore × Option Session
  unfolding drop_session restore_session
  session_snapshot token st = snapshot_by_cache token (get token st.sessions) st

  -- The value of the cookie, where the request has one.
  unfoldable pub logout : Option String → AuthStore → AuthStore
  unfolding drop_session
  logout none st = st
  logout (some token) st = drop_session token st

  unfoldable pub revoke_all : List String → AuthStore → AuthStore
  unfolding revoke_session
  revoke_all [] st = st
  revoke_all (t ∷ ts) st = revoke_all ts (revoke_session t st)

  abbrev pub doomed : String → String → String → Session → Bool
  doomed username except token s = str_eq s.username username && not (str_eq token except)

  unfoldable pub doomed_tokens : String → String → List (String × Session) → List String
  doomed_tokens username except [] = []
  doomed_tokens username except ((t, s) ∷ m) =
      let rest = doomed_tokens username except m in
      if doomed username except t s then t ∷ rest else rest

  unfoldable pub spared : String → String → List (String × Session) → List (String × Session)
  spared username except [] = []
  spared username except ((t, s) ∷ m) =
      let rest = spared username except m in
      if doomed username except t s then rest else (t, s) ∷ rest

  unfoldable pub kill_sessions : String → String → AuthStore → AuthStore
  unfolding revoke_all doomed_tokens spared
  kill_sessions username except st =
      revoke_all (doomed_tokens username except st.sessions)
        (record st { sessions = spared username except st.sessions })
