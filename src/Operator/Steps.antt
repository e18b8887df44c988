-- ===== src/Operator/Steps.antt =====
-- server/fleet/auth.go: NewCaptcha, and the operations one after another. Logout, the expiry of a
-- session and its restoration may also be taken apart, at the points where they release the mutex.
use manage_robot.Common.{
  ◌≡◌, refl, Bool, not, Option, none, some, List, [], ◌∷◌, String, str_eq, ltb_ℤ, ℤ, ◌+ℤ◌, if_cases,
  if◌then◌else◌, get, put, delete, Result, ok, err, arith,
}
use manage_robot.Operator.Data.{Row, User, Preauth, SmsEntry, AuthStore, Call, Host, captcha_ttl}
use manage_robot.Operator.Captcha.{CaptchaResult, check_captcha, answered}
use manage_robot.Operator.Session.{
  session_of, forget_session, cache_session, revoke_session, session_by_token, session_snapshot,
  logout, kill_sessions,
}
use manage_robot.Operator.Upkeep.{refresh_sessions, cleanup}
use manage_robot.Operator.Login.{
  LoginResult, login_gone, guess, login_password, enter, enter_if, admit, after_captcha,
  finish_login, bad_phone, code_gone, account_locked,
}
use manage_robot.Operator.Phone.{
  PhoneError, phone_owner, enter_unlocked, check_sms, miss_sms, meet_sms, valid_cn_phone,
  login_phone, set_phone,
}

-- `id` and `text` are what the random source draws.
unfoldable pub new_captcha : ℤ → String → String → AuthStore → AuthStore
new_captcha now id text st = record st {
  captchas = put id (record { answer = text; exp = now +ℤ captcha_ttl; tries = 0 }) st.captchas;
}

-- Calls, each carried through; and the parts of calls that are not: `forgets` and `revokes` are the two
-- parts of a logout or of an expiry, and `caches` the last part of a snapshot, or of a request, that
-- restored the row before.
pub data Step : Type 0 where
  forgets : String → Step
  revokes : Call → String → Step
  caches : String → Row → Step
  uses looks : Call → String → Step
  leaves : Call → Option String → Step
  refreshes : Call → String → List String → String → Step
  kills : Call → String → String → Step
  cleans : Call → Step
  -- call, token, pre-login, captcha, answer
  finishes : Call → String → String → String → String → Step
  -- call, token, phone, code
  phones : Call → String → String → String → Step
  -- time, user, password, token
  tries_password : ℤ → String → String → String → Step
  draws_captcha : ℤ → String → String → Step
  sets_phone : Bool → String → String → Step

abbrev pub saved_or : AuthStore → Result PhoneError (AuthStore × User) → AuthStore
saved_or st (ok (st', u)) = st'
saved_or st (err e) = st

module _ (host : Host) where
  unfoldable pub step : AuthStore → Step → AuthStore
  step st (forgets t) = forget_session t st
  step st (revokes c t) = revoke_session host c t st
  step st (caches t row) = cache_session t (session_of t row) st
  step st (uses c t) = (session_by_token host c t st).0
  step st (looks c t) = (session_snapshot host c t st).0
  step st (leaves c o) = logout host c o st
  step st (refreshes c username groups role) = refresh_sessions host c username groups role st
  step st (kills c username except) = kill_sessions host c username except st
  step st (cleans c) = cleanup c st
  step st (finishes c token pre id ans) = (finish_login host c token pre id ans st).0
  step st (phones c token phone given) = (login_phone host c token phone given st).0
  step st (tries_password now username pwd token) =
      (login_password host now username pwd token st).0
  step st (draws_captcha now id text) = new_captcha now id text st
  step st (sets_phone stored username phone) = saved_or st (set_phone stored username phone st)

  unfoldable pub steps : AuthStore → List Step → AuthStore
  steps st [] = st
  steps st (e ∷ es) = steps (step st e) es

-- The operation has left the sessions, their table and the mode as they were.
abbrev pub SameSessions : AuthStore → AuthStore → Type 0
SameSessions st st' =
    (st'.sessions ≡ st.sessions) × (st'.rows ≡ st.rows) × (st'.durable ≡ st.durable)

module _ (host : Host) where
  pub check_captcha-SameSessions :
      (now : ℤ) (id ans : String) (st : AuthStore)
      → SameSessions st (check_captcha host now id ans st).0
  unfolding check_captcha answered
  check_captcha-SameSessions now id ans st = ground arith

  pub login_password-SameSessions :
      (now : ℤ) (username pwd token : String) (st : AuthStore)
      → SameSessions st (login_password host now username pwd token st).0
  unfolding login_password guess
  login_password-SameSessions now username pwd token st = ground arith

  pub set_phone-SameSessions :
      (stored : Bool) (username phone : String) (st : AuthStore)
      → SameSessions st (saved_or st (set_phone stored username phone st))
  unfolding set_phone
  set_phone-SameSessions stored username phone st = ground arith

  -- A login ends as it began, or with a new session.
  module _ (c : Call) (token : String) (st : AuthStore) (P : AuthStore → Type 0)
      (same : (st' : AuthStore) → SameSessions st st' → P st')
      (entering : (u : User) (st' : AuthStore)
        → SameSessions st st'
        → P (enter host c token u st').0) where
    enter_if_rule :
        (o : Option User) (st' : AuthStore)
        → SameSessions st st'
        → P (enter_if host c token o st').0
    enter_if_rule none st' s = same st' s
    enter_if_rule (some u) st' s = entering u st' s

    admit_rule :
        (pre : String) (o : Option Preauth) (st' : AuthStore)
        → SameSessions st st'
        → P (admit host c token pre o st').0
    admit_rule pre none st' s = same st' s
    admit_rule pre (some p) st' s =
        if_cases (λ (r : AuthStore × LoginResult). P r.0) (ltb_ℤ p.exp c.now) (st', login_gone)
          (enter_if host c token (get p.username st'.users)
            (record st' { preauths = delete pre st'.preauths }))
          (λ late. same st' s)
          (λ live.
            enter_if_rule (get p.username st'.users)
              (record st' { preauths = delete pre st'.preauths }) s)

    after_captcha_rule :
        (pre : String) (r : AuthStore × CaptchaResult)
        → SameSessions st r.0
        → P (after_captcha host c token pre r).0
    after_captcha_rule pre (st', CaptchaResult.captcha_passed) s =
        admit_rule pre (get pre st'.preauths) st' s
    after_captcha_rule pre (st', CaptchaResult.captcha_gone) s = same st' s
    after_captcha_rule pre (st', CaptchaResult.captcha_expired) s = same st' s
    after_captcha_rule pre (st', CaptchaResult.captcha_spent) s = same st' s
    after_captcha_rule pre (st', CaptchaResult.captcha_wrong) s = same st' s

    pub finish_login_rule : (pre id ans : String) → P (finish_login host c token pre id ans st).0
    unfolding finish_login
    finish_login_rule pre id ans =
        after_captcha_rule pre (check_captcha host c.now id ans st)
          (check_captcha-SameSessions c.now id ans st)

    enter_unlocked_rule :
        (o : Option User) (st' : AuthStore)
        → SameSessions st st'
        → P (enter_unlocked host c token o st').0
    enter_unlocked_rule none st' s = same st' s
    enter_unlocked_rule (some u) st' s =
        if_cases (λ (r : AuthStore × LoginResult). P r.0) (ltb_ℤ c.now u.locked_until)
          (st', account_locked) (enter host c token u st') (λ locked. same st' s)
          (λ free. entering u st' s)

    check_sms_rule :
        (phone given : String) (o : Option SmsEntry) → P (check_sms host c token phone given o st).0
    check_sms_rule phone given none = same st (refl, refl, refl)
    check_sms_rule phone given (some e) =
        if_cases (λ (r : AuthStore × LoginResult). P r.0) (ltb_ℤ e.exp c.now) (st, code_gone)
          (if not (str_eq e.code given)
            then miss_sms host c token phone e st
            else meet_sms host c token phone st)
          (λ late. same st (refl, refl, refl))
          (λ live.
            if_cases (λ (r : AuthStore × LoginResult). P r.0) (not (str_eq e.code given))
              (miss_sms host c token phone e st) (meet_sms host c token phone st)
              (λ wrong. same (miss_sms host c token phone e st).0 (ground arith))
              (λ right.
                enter_unlocked_rule (phone_owner phone st.users)
                  (record st { sms = delete phone st.sms }) (refl, refl, refl)))

    pub login_phone_rule : (phone given : String) → P (login_phone host c token phone given st).0
    unfolding login_phone
    login_phone_rule phone given =
        if_cases (λ (r : AuthStore × LoginResult). P r.0) (not (valid_cn_phone phone))
          (st, bad_phone) (check_sms host c token phone given (get phone st.sms) st)
          (λ bad. same st (refl, refl, refl))
          (λ good. check_sms_rule phone given (get phone st.sms))
