-- ===== src/Operator/Upkeep.antt =====
-- server/fleet/auth.go: RefreshSessions and one turn of cleanupLoop.
use manage_robot.Common.{
  not, ◌&&◌, List, [], ◌∷◌, String, str_eq, ltb_ℤ, ◌-ℤ◌, ◌+ℤ◌, if◌then◌else◌, delete_if,
}
use manage_robot.Operator.Data.{Session, AuthStore, Call, Host, session_idle_ttl, minutes}
use manage_robot.Operator.Session.{row_lives, persist_session}

abbrev pub changed : String → List String → String → Session → Session
changed username groups role s =
    if str_eq s.username username then record s { groups = groups; role = role } else s

unfoldable pub refreshed :
    String → List String → String → List (String × Session) → List (String × Session)
refreshed username groups role [] = []
refreshed username groups role ((t, s) ∷ m) =
    (t, changed username groups role s) ∷ refreshed username groups role m

unfoldable pub persist_of : Host → Call → String → List (String × Session) → AuthStore → AuthStore
persist_of host c username [] st = st
persist_of host c username ((t, s) ∷ m) st =
    persist_of host c username m
      (if str_eq s.username username then (persist_session host c s st).0 else st)

-- An error of one write does not stop the next.
unfoldable pub refresh_sessions :
    Host → Call → String → List String → String → AuthStore → AuthStore
unfolding refreshed persist_of
refresh_sessions host c username groups role st =
    let now_held = refreshed username groups role st.sessions in
    persist_of host c username now_held (record st { sessions = now_held })

unfoldable pub cleanup : Call → AuthStore → AuthStore
cleanup c st = record st {
  captchas = delete_if (λ e. ltb_ℤ e.exp c.now) st.captchas;
  sms = delete_if (λ e. ltb_ℤ (e.exp +ℤ minutes 60) c.now) st.sms;
  sessions = delete_if (λ s. ltb_ℤ session_idle_ttl (c.now -ℤ s.last_use)) st.sessions;
  rows =
      if st.durable && c.writes
      then delete_if (λ row. not (row_lives c.db_now row)) st.rows
      else st.rows;
}
