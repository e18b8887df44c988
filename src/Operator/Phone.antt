-- ===== src/Operator/Phone.antt =====
-- server/fleet/auth.go: validCNPhone, LoginPhone and SetPhone.
use Prim.Native.Char.{code}
use manage_robot.Common.{
  ℕ, zero, suc, ◌+◌, Bool, true, false, not, ◌&&◌, ◌||◌, Option, none, some, List, [], ◌∷◌, String,
  str_eq, leb, ltb_ℤ, if◌then◌else◌, get, put, delete, Result, ok, ◌>>=◌, ◌>>◌, refuse_if, or_fail,
}
use manage_robot.Wire.Auth.{is_empty}
use manage_robot.Operator.Data.{User, SmsEntry, AuthStore, Call, Host, sms_max_tries}
use manage_robot.Operator.Login.{
  LoginResult, bad_phone, code_gone, code_spent, code_wrong, phone_unbound, account_locked, enter,
}

abbrev between : ℕ → ℕ → ℕ → Bool
between low high ch = leb low ch && leb ch high

-- So many digits, and nothing else.
abbrev digits_of : ℕ → String → Bool
digits_of zero String.[] = true
digits_of zero (String.◌∷◌ ch s) = false
digits_of (suc n) String.[] = false
digits_of (suc n) (String.◌∷◌ ch s) = between b'0' b'9' (code ch) && digits_of n s

abbrev after_one : String → Bool
after_one String.[] = false
after_one (String.◌∷◌ ch s) = between b'3' b'9' (code ch) && digits_of 9 s

-- A text of 11 bytes that are digits is one of 11 characters that are.
unfoldable pub valid_cn_phone : String → Bool
valid_cn_phone String.[] = false
valid_cn_phone (String.◌∷◌ ch s) = between b'1' b'1' (code ch) && after_one s

-- The user of a phone number; SetPhone keeps the numbers apart.
unfoldable pub phone_owner : String → List (String × User) → Option User
phone_owner phone [] = none
phone_owner phone ((n, u) ∷ m) = if str_eq u.phone phone then some u else phone_owner phone m

module _ (host : Host) (c : Call) (token : String) where
  abbrev pub enter_unlocked : Option User → AuthStore → AuthStore × LoginResult
  enter_unlocked none st = (st, phone_unbound)
  enter_unlocked (some u) st =
      if ltb_ℤ c.now u.locked_until then (st, account_locked) else enter host c token u st

  abbrev pub miss_sms : String → SmsEntry → AuthStore → AuthStore × LoginResult
  miss_sms phone e st =
      if leb sms_max_tries (e.tries + 1)
      then (record st { sms = delete phone st.sms }, code_spent)
      else (record st { sms = put phone (record e { tries = e.tries + 1 }) st.sms }, code_wrong)

  abbrev pub meet_sms : String → AuthStore → AuthStore × LoginResult
  meet_sms phone st =
      enter_unlocked (phone_owner phone st.users) (record st { sms = delete phone st.sms })

  abbrev pub check_sms : String → String → Option SmsEntry → AuthStore → AuthStore × LoginResult
  check_sms phone given none st = (st, code_gone)
  check_sms phone given (some e) st =
      if ltb_ℤ e.exp c.now
      then (st, code_gone)
      else if not (str_eq e.code given)
      then miss_sms phone e st
      else meet_sms phone st

  unfoldable pub login_phone : String → String → AuthStore → AuthStore × LoginResult
  login_phone phone given st =
      if not (valid_cn_phone phone)
      then (st, bad_phone)
      else check_sms phone given (get phone st.sms) st

pub data PhoneError : Type 0 where
  phone_malformed no_account phone_taken phone_not_stored : PhoneError

-- Somebody else has the number.
unfoldable pub taken_by_other : String → String → List (String × User) → Bool
taken_by_other username phone [] = false
taken_by_other username phone ((n, u) ∷ m) =
    (str_eq u.phone phone && not (str_eq n username)) || taken_by_other username phone m

-- `stored` is whether the account was saved; where it was not, the old number stays.
unfoldable pub set_phone : Bool → String → String → AuthStore → Result PhoneError (AuthStore × User)
set_phone stored username phone st = do
  refuse_if (not (is_empty phone) && not (valid_cn_phone phone)) phone_malformed
  u ← or_fail (get username st.users) no_account
  refuse_if (not (is_empty phone) && taken_by_other username phone st.users) phone_taken
  refuse_if (not stored) phone_not_stored
  let moved = record u { phone = phone }
  ok (record st { users = put username moved st.users }, moved)
