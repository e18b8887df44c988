-- ===== src/Operator/Captcha.antt =====
-- server/fleet/auth.go: checkCaptcha.
use manage_robot.Common.{
  ◌+◌, not, Option, none, some, String, trim, leb, ℤ, ltb_ℤ, if◌then◌else◌, get, put, delete,
}
use manage_robot.Operator.Data.{Captcha, AuthStore, Host, captcha_max_tries}

pub data CaptchaResult : Type 0 where
  captcha_gone captcha_expired captcha_spent captcha_wrong captcha_passed : CaptchaResult

module _ (host : Host) (now : ℤ) (id ans : String) (st : AuthStore) where
  abbrev without : AuthStore
  without = record st { captchas = delete id st.captchas }

  unfoldable pub answered : Captcha → AuthStore × CaptchaResult
  answered c =
      if ltb_ℤ c.exp now
      then (without, captcha_expired)
      else if not (host.equal_fold (trim ans) c.answer)
      then if leb captcha_max_tries (c.tries + 1) then (without, captcha_spent) else (
        record st { captchas = put id (record c { tries = c.tries + 1 }) st.captchas },
        captcha_wrong,
      )
      else (without, captcha_passed)

  abbrev pub answer_if : Option Captcha → AuthStore × CaptchaResult
  answer_if none = (st, captcha_gone)
  answer_if (some c) = answered c

  unfoldable pub check_captcha : AuthStore × CaptchaResult
  unfolding answered
  check_captcha = answer_if (get id st.captchas)
