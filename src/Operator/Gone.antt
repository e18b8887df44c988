-- ===== src/Operator/Gone.antt =====
-- server/fleet/auth.go: the operations, over a session that is neither in the cache nor to be
-- restored.
use manage_robot.Common.{
  ◌≡◌, refl, All-delete, pos, ◌⊎◌, inl, inr, true, false, none, some, List, [], ◌∷◌, String, str_eq,
  eq_iff, Bool-cases, All, All-delete_if, arith,
}
use manage_robot.Operator.Data.{Session, AuthStore, Call, Host}
use manage_robot.Operator.Session.{restore_session, logout}
use manage_robot.Operator.Upkeep.{cleanup}
use manage_robot.Operator.Login.{login_password}
use manage_robot.Operator.Held.{
  Held, put-Held, revoke_sessions, drop_session-Held, session_by_token-Held,
}
use manage_robot.Operator.Holding.{
  session_snapshot-Held, kill_sessions-Held, refresh_sessions-Held, enter-Held,
}
use manage_robot.Operator.Shut.{Distinct, shut, shut_restore, drop_shut, revoke_shut}
use manage_robot.Operator.Shutting.{
  shut-session_by_token, shut-session_snapshot, shut-kill_sessions, shut-refresh_sessions,
  shut-cleanup, shut-enter,
}
use manage_robot.Operator.Phone.{set_phone}
use manage_robot.Operator.Steps.{
  forgets, revokes, caches, Step, uses, looks, leaves, refreshes, kills, cleans, finishes, phones,
  tries_password, draws_captcha, sets_phone, saved_or, step, steps, SameSessions,
  login_password-SameSessions, set_phone-SameSessions, finish_login_rule, login_phone_rule,
  new_captcha,
}

-- The tokens that an operation may bring in.
abbrev Allowed : Host → (String → Type 0) → AuthStore → Step → Type 0
Allowed host Q st (uses c t) = (restore_session host c t st ≡ none) ⊎ Q t
Allowed host Q st (looks c t) = (restore_session host c t st ≡ none) ⊎ Q t
Allowed host Q st (caches t row) = Q t
Allowed host Q st (finishes c token pre id ans) = Q token
Allowed host Q st (phones c token phone given) = Q token
Allowed host Q st e = Unit

abbrev never : Call
never = record { now = pos 0; db_now = pos 0; reads = false; writes = false }

module _ (host : Host) where
  step-Held :
      (Q : String → Type 0) (st : AuthStore) (e : Step)
      → Allowed host Q st e
      → Held Q st.sessions
      → Held Q (step host st e).sessions
  unfolding step logout cleanup new_captcha
  step-Held Q st (forgets t) q held = All-delete (λ e. (e.1.token ≡ e.0) × Q e.0) t st.sessions held
  step-Held Q st (revokes c t) q held = rw (revoke_sessions host c t st) held
  step-Held Q st (caches t row) q held = put-Held host never Q t _ st.sessions refl q held
  step-Held Q st (uses c t) q held = session_by_token-Held host c Q t st q held
  step-Held Q st (looks c t) q held = session_snapshot-Held host c Q t st q held
  step-Held Q st (leaves c none) q held = held
  step-Held Q st (leaves c (some t)) q held = drop_session-Held host c Q t st held
  step-Held Q st (refreshes c username groups role) q held =
      refresh_sessions-Held host c Q username role groups st held
  step-Held Q st (kills c username except) q held =
      kill_sessions-Held host c Q username except st held
  step-Held Q st (cleans c) q held =
      All-delete_if (λ e. (e.1.token ≡ e.0) × Q e.0) _ st.sessions held
  step-Held Q st (finishes c token pre id ans) q held =
      finish_login_rule host c token st (λ st'. Held Q st'.sessions) (λ st' same. rw same.0 held)
        (λ u st' same. enter-Held host c Q token u st' q (rw same.0 held)) pre id ans
  step-Held Q st (phones c token phone given) q held =
      login_phone_rule host c token st (λ st'. Held Q st'.sessions) (λ st' same. rw same.0 held)
        (λ u st' same. enter-Held host c Q token u st' q (rw same.0 held)) phone given
  step-Held Q st (tries_password now username pwd token) q held =
      rw (login_password-SameSessions host now username pwd token st).0 held
  step-Held Q st (draws_captcha now id text) q held = held
  step-Held Q st (sets_phone stored username phone) q held =
      rw (set_phone-SameSessions host stored username phone st).0 held

  pub steps_own :
      (st : AuthStore) (es : List Step)
      → Held (λ k. Unit) st.sessions
      → Held (λ k. Unit) (steps host st es).sessions
  unfolding steps
  steps_own st [] held = held
  steps_own st (e ∷ es) held =
      steps_own (step host st e) es (step-Held (λ k. Unit) st e (anything e) held)
    where
      anything : (e : Step) → Allowed host (λ k. Unit) st e
      anything (forgets t) = tt
      anything (revokes c t) = tt
      anything (caches t row) = tt
      anything (uses c t) = inr tt
      anything (looks c t) = inr tt
      anything (leaves c o) = tt
      anything (refreshes c username groups role) = tt
      anything (kills c username except) = tt
      anything (cleans c) = tt
      anything (finishes c token pre id ans) = tt
      anything (phones c token phone given) = tt
      anything (tries_password now username pwd token) = tt
      anything (draws_captcha now id text) = tt
      anything (sets_phone stored username phone) = tt

  module _ (token : String) where
    -- A login gives another token, and no session of this one is cached by a call that restored it
    -- before.
    abbrev pub Elsewhere : Step → Type 0
    Elsewhere (caches t row) = str_eq t token ≡ false
    Elsewhere (finishes c t pre id ans) = str_eq t token ≡ false
    Elsewhere (phones c t phone given) = str_eq t token ≡ false
    Elsewhere e = Unit

    -- Nor does a request or a snapshot use this one.
    abbrev pub Absent : Step → Type 0
    Absent (uses c t) = str_eq t token ≡ false
    Absent (looks c t) = str_eq t token ≡ false
    Absent e = Elsewhere e

    abbrev pub Others : List (String × Session) → Type 0
    Others = Held (λ k. str_eq k token ≡ false)

    -- The session is neither in the cache nor can it be restored.
    abbrev pub Gone : AuthStore → Type 0
    Gone st = Others st.sessions × (shut host token st ≡ true)

    other_or_shut :
        (c : Call) (t : String) (st : AuthStore)
        → shut host token st ≡ true
        → (restore_session host c t st ≡ none) ⊎ (str_eq t token ≡ false)
    other_or_shut c t st closed = elim (Bool-cases (str_eq t token)) [
      | inl same ↦
          let e : t ≡ token = ground (arith, eq_iff t token) in
          inl (rw e (shut_restore host token c st closed))
      | inr other ↦ inr other
    ]

    allowed :
        (st : AuthStore) (e : Step)
        → Elsewhere e
        → shut host token st ≡ true
        → Allowed host (λ k. str_eq k token ≡ false) st e
    allowed st (forgets t) x closed = tt
    allowed st (revokes c t) x closed = tt
    allowed st (caches t row) x closed = x
    allowed st (uses c t) x closed = other_or_shut c t st closed
    allowed st (looks c t) x closed = other_or_shut c t st closed
    allowed st (leaves c o) x closed = tt
    allowed st (refreshes c username groups role) x closed = tt
    allowed st (kills c username except) x closed = tt
    allowed st (cleans c) x closed = tt
    allowed st (finishes c t pre id ans) x closed = x
    allowed st (phones c t phone given) x closed = x
    allowed st (tries_password now username pwd t) x closed = tt
    allowed st (draws_captcha now id text) x closed = tt
    allowed st (sets_phone stored username phone) x closed = tt

    absent :
        (st : AuthStore) (e : Step) → Absent e → Allowed host (λ k. str_eq k token ≡ false) st e
    absent st (forgets t) x = tt
    absent st (revokes c t) x = tt
    absent st (caches t row) x = x
    absent st (uses c t) x = inr x
    absent st (looks c t) x = inr x
    absent st (leaves c o) x = tt
    absent st (refreshes c username groups role) x = tt
    absent st (kills c username except) x = tt
    absent st (cleans c) x = tt
    absent st (finishes c t pre id ans) x = x
    absent st (phones c t phone given) x = x
    absent st (tries_password now username pwd t) x = tt
    absent st (draws_captcha now id text) x = tt
    absent st (sets_phone stored username phone) x = tt

    pub steps-Others :
        (st : AuthStore) (es : List Step)
        → All Absent es
        → Others st.sessions
        → Others (steps host st es).sessions
    unfolding steps
    steps-Others st [] x held = held
    steps-Others st (e ∷ es) (x, xs) held =
        steps-Others (step host st e) es xs
          (step-Held (λ k. str_eq k token ≡ false) st e (absent st e x) held)

    same_shut :
        (st st' : AuthStore)
        → SameSessions st st'
        → shut host token st ≡ true
        → shut host token st' ≡ true
    same_shut st st' (a, b, c) closed = rw (b, c) closed

    shut-step :
        (st : AuthStore) (e : Step)
        → Distinct host token
        → Elsewhere e
        → Others st.sessions
        → shut host token st ≡ true
        → shut host token (step host st e) ≡ true
    unfolding step logout new_captcha
    shut-step st (forgets t) d x held closed = closed
    shut-step st (revokes c t) d x held closed = revoke_shut host token c t st closed
    shut-step st (caches t row) d x held closed = closed
    shut-step st (uses c t) d x held closed =
        shut-session_by_token host token c t st d (other_or_shut c t st closed) held closed
    shut-step st (looks c t) d x held closed = shut-session_snapshot host token c t st closed
    shut-step st (leaves c none) d x held closed = closed
    shut-step st (leaves c (some t)) d x held closed = drop_shut host token c t st closed
    shut-step st (refreshes c username groups role) d x held closed =
        shut-refresh_sessions host token c username role groups st d held closed
    shut-step st (kills c username except) d x held closed =
        shut-kill_sessions host token c username except st closed
    shut-step st (cleans c) d x held closed = shut-cleanup host token c st closed
    shut-step st (finishes c t pre id ans) d x held closed =
        finish_login_rule host c t st (λ st'. shut host token st' ≡ true)
          (λ st' same. same_shut st st' same closed)
          (λ u st' same. shut-enter host token c t u st' d x (same_shut st st' same closed)) pre id
          ans
    shut-step st (phones c t phone given) d x held closed =
        login_phone_rule host c t st (λ st'. shut host token st' ≡ true)
          (λ st' same. same_shut st st' same closed)
          (λ u st' same. shut-enter host token c t u st' d x (same_shut st st' same closed)) phone
          given
    shut-step st (tries_password now username pwd t) d x held closed =
        same_shut st (login_password host now username pwd t st).0
          (login_password-SameSessions host now username pwd t st) closed
    shut-step st (draws_captcha now id text) d x held closed = closed
    shut-step st (sets_phone stored username phone) d x held closed =
        same_shut st (saved_or st (set_phone stored username phone st))
          (set_phone-SameSessions host stored username phone st) closed

    pub steps-Gone :
        (st : AuthStore) (es : List Step)
        → Distinct host token
        → All Elsewhere es
        → Gone st
        → Gone (steps host st es)
    unfolding steps
    steps-Gone st [] d x gone = gone
    steps-Gone st (e ∷ es) d (x, xs) (held, closed) = steps-Gone (step host st e) es d xs (
      step-Held (λ k. str_eq k token ≡ false) st e (allowed st e x closed) held,
      shut-step st e d x held closed,
    )
