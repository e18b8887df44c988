-- ===== src/Operator/Login.antt =====
-- server/fleet/auth.go: LoginPassword and FinishLogin. The texts of the errors are constructors; the entries of the audit and of the event list are left out.
use manage_robot.Common.{
  ◌+◌, Bool, true, false, not, Option, none, some, String, leb, ℤ, pos, ltb_ℤ, ◌-ℤ◌, ◌+ℤ◌,
  if◌then◌else◌, get, put, delete,
}
use manage_robot.Operator.Data.{
  User, Session, Preauth, AuthStore, Call, Host, lock_after_fails, lock_duration, captcha_ttl,
  expiring_age,
}
use manage_robot.Operator.Password.{verify_password}
use manage_robot.Operator.Captcha.{CaptchaResult, captcha_passed, check_captcha}
use manage_robot.Operator.Session.{persist_session}

pub data PasswordResult : Type 0 where
  no_user wrong_password now_locked : PasswordResult
  still_locked : ℤ → PasswordResult
  -- The token, and whether the password runs out soon.
  passed : String → Bool → PasswordResult

-- A user whose password was wrong.
unfoldable pub failed_user : ℤ → User → User
failed_user now u =
    if leb lock_after_fails (u.fail_count + 1)
    then record u { fail_count = 0; locked_until = now +ℤ lock_duration }
    else record u { fail_count = u.fail_count + 1 }

module _ (host : Host) (now : ℤ) (username pwd token : String) (st : AuthStore) where
  unfoldable pub guess : User → AuthStore × PasswordResult
  unfolding failed_user
  guess u =
      if ltb_ℤ now u.locked_until
      then (st, still_locked (u.locked_until -ℤ now))
      else if not (verify_password host u.salt pwd u.pass_hash)
      then (
        record st { users = put username (failed_user now u) st.users },
        if leb lock_after_fails (u.fail_count + 1) then now_locked else wrong_password,
      )
      else (
        record st {
          users = put username (record u { fail_count = 0; locked_until = pos 0 }) st.users;
          preauths =
              put token (record { username = username; exp = now +ℤ captcha_ttl }) st.preauths;
        },
        passed token (ltb_ℤ expiring_age (now -ℤ u.pass_set_ns)),
      )

  abbrev pub guess_if : Option User → AuthStore × PasswordResult
  guess_if none = (st, no_user)
  guess_if (some u) = guess u

  -- `token` is what randToken draws.
  unfoldable pub login_password : AuthStore × PasswordResult
  unfolding guess
  login_password = guess_if (get username st.users)

pub data LoginResult : Type 0 where
  captcha_failed : CaptchaResult → LoginResult
  login_gone account_gone session_not_stored : LoginResult
  bad_phone code_gone code_spent code_wrong phone_unbound account_locked : LoginResult
  logged_in : Session → LoginResult

abbrev pub session_for : ℤ → String → User → Session
session_for now token u = record {
  token = token;
  username = u.username;
  role = u.role;
  groups = u.groups;
  created_ns = now;
  last_use = now;
}

abbrev pub entered : Session → AuthStore × Bool → AuthStore × LoginResult
entered s (st, false) = (st, session_not_stored)
entered s (st, true) = (record st { sessions = put s.token s st.sessions }, logged_in s)

module _ (host : Host) (c : Call) (token : String) where
  unfoldable pub enter : User → AuthStore → AuthStore × LoginResult
  unfolding persist_session
  enter u st = let s = session_for c.now token u in entered s (persist_session host c s st)

  abbrev pub enter_if : Option User → AuthStore → AuthStore × LoginResult
  enter_if none st = (st, account_gone)
  enter_if (some u) st = enter u st

  abbrev pub admit : String → Option Preauth → AuthStore → AuthStore × LoginResult
  admit pre_token none st = (st, login_gone)
  admit pre_token (some p) st =
      if ltb_ℤ p.exp c.now
      then (st, login_gone)
      else enter_if (get p.username st.users)
          (record st { preauths = delete pre_token st.preauths })

  abbrev pub after_captcha : String → AuthStore × CaptchaResult → AuthStore × LoginResult
  after_captcha pre_token (st, captcha_passed) = admit pre_token (get pre_token st.preauths) st
  after_captcha pre_token (st, why) = (st, captcha_failed why)

  unfoldable pub finish_login : String → String → String → AuthStore → AuthStore × LoginResult
  unfolding enter
  finish_login pre_token cap_id cap_ans st =
      after_captcha pre_token (check_captcha host c.now cap_id cap_ans st)
