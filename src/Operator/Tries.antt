-- ===== src/Operator/Tries.antt =====
-- server/fleet/auth.go: checkCaptcha, on many answers.
use manage_robot.Common.{
  ℕ, suc, ◌+◌, ◌≤◌, ◌<◌, ◌≡◌, refl, ◌⊎◌, inl, inr, Bool, true, false, ◌&&◌, none, some, List, [],
  ◌∷◌, String, str_eq, eq_iff, ℤ, Bool-cases, Option-cases, if◌then◌else◌, get, get-put, get-delete,
  arith,
}
use manage_robot.Operator.Data.{Captcha, AuthStore, Host, captcha_max_tries}
use manage_robot.Operator.Captcha.{
  CaptchaResult, captcha_gone, captcha_expired, captcha_spent, captcha_wrong, captcha_passed,
  answered, check_captcha,
}

-- One call of checkCaptcha.
pub record Answer : Type 0 where
  pub now : ℤ
  pub id : String
  pub ans : String

-- The answer was compared.
abbrev pub read_answer : CaptchaResult → Bool
read_answer captcha_gone = false
read_answer captcha_expired = false
read_answer captcha_spent = true
read_answer captcha_wrong = true
read_answer captcha_passed = true

abbrev pub is_passed : CaptchaResult → Bool
is_passed captcha_passed = true
is_passed r = false

module _ (host : Host) where
  abbrev pub answer : AuthStore → Answer → AuthStore × CaptchaResult
  answer st a = check_captcha host a.now a.id a.ans st

  -- How many of the answers to a captcha have the tested result.
  unfoldable pub results : (CaptchaResult → Bool) → String → AuthStore → List Answer → ℕ
  results test id st [] = 0
  results test id st (a ∷ as') =
      let rest = results test id (answer st a).0 as' in
      if str_eq a.id id && test (answer st a).1 then suc rest else rest

  answer_other :
      (id : String) (st : AuthStore) (a : Answer)
      → str_eq a.id id ≡ false
      → get id (answer st a).0.captchas ≡ get id st.captchas
  unfolding check_captcha answered
  answer_other id st a other = elim (Option-cases (get a.id st.captchas)) [
    | inl missing ↦ ground arith
    | inr (c, found) ↦ ground (
      arith,
      get-delete a.id id st.captchas,
      get-put a.id id (record c { tries = c.tries + 1 }) st.captchas,
    )
  ]

  answer_gone :
      (id : String) (st : AuthStore) (a : Answer)
      → str_eq a.id id ≡ true
      → get id st.captchas ≡ none
      → (get id (answer st a).0.captchas ≡ none) × ((answer st a).1 ≡ captcha_gone)
  unfolding check_captcha
  answer_gone id st a mine gone = ground (arith, eq_iff a.id id)

  -- An answer to a captcha removes it, or was wrong and counts.
  answer_mine :
      (id : String) (st : AuthStore) (a : Answer) (c : Captcha)
      → str_eq a.id id ≡ true
      → get id st.captchas ≡ some c
      → (get id (answer st a).0.captchas ≡ none)
        ⊎ ((get id (answer st a).0.captchas ≡ some (record c { tries = c.tries + 1 }))
            × (c.tries + 1 < captcha_max_tries)
            × ((answer st a).1 ≡ captcha_wrong))
  unfolding check_captcha answered
  answer_mine id st a c mine found = ground (
    arith,
    eq_iff a.id id,
    get-delete a.id id st.captchas,
    get-put a.id id (record c { tries = c.tries + 1 }) st.captchas,
  )

  gone_results :
      (id : String) (test : CaptchaResult → Bool) (st : AuthStore) (as' : List Answer)
      → test captcha_gone ≡ false
      → get id st.captchas ≡ none
      → results test id st as' ≡ 0
  unfolding results
  gone_results id test st [] unread gone = refl
  gone_results id test st (a ∷ as') unread gone = elim (Bool-cases (str_eq a.id id)) [
    | inl mine ↦
        let (still, result) = answer_gone id st a mine gone in
        let rest = gone_results id test (answer st a).0 as' unread still in ground arith
    | inr other ↦
        let same = answer_other id st a other in
        let rest = gone_results id test (answer st a).0 as' unread (ground arith) in ground arith
  ]

  -- Of all the answers to a captcha that has had fewer than three wrong ones, whatever answers to
  -- others lie between, no more than three are compared with it, one less for each that was wrong
  -- before, and no more than one passes.
  pub results_bounded :
      (id : String) (st : AuthStore) (c : Captcha) (as' : List Answer)
      → get id st.captchas ≡ some c
      → c.tries < captcha_max_tries
      → (results read_answer id st as' + c.tries ≤ captcha_max_tries)
        × (results is_passed id st as' ≤ 1)
  unfolding results
  results_bounded id st c [] found few = (omega arith, omega arith)
  results_bounded id st c (a ∷ as') found few = elim (Bool-cases (str_eq a.id id)) [
    | inr other ↦
        let same = answer_other id st a other in
        let (reads, passes) = results_bounded id (answer st a).0 c as' (ground arith) few in
        (ground arith, ground arith)
    | inl mine ↦ elim (answer_mine id st a c mine found) [
      | inl gone ↦
          let reads = gone_results id read_answer (answer st a).0 as' refl gone in
          let passes = gone_results id is_passed (answer st a).0 as' refl gone in
          (ground arith, ground arith)
      | inr (kept, room, wrong) ↦
          let (reads, passes) =
            results_bounded id (answer st a).0 (record c { tries = c.tries + 1 }) as' kept room in
          (ground arith, ground arith)
    ]
  ]
