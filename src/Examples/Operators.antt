-- ===== src/Examples/Operators.antt =====
-- The theorems on operators, at one account and one session.
use manage_robot.Common.{
  ℕ, ◌+◌, ◌≤◌, ◌≡◌, refl, true, false, none, some, List, [], ◌∷◌, String, str_eq, pos, ◌+ℤ◌, ◌-ℤ◌,
  arith, get, take, length, put, trim, Bool-cases, inl, inr, eq_iff,
}
use Prim.Native.String.{◌++◌ as append}
use text.Mathlib.TextLemmas.{append_cancel_left}
use manage_robot.Operator.Data.{
  User, Session, Row, Captcha, AuthStore, Call, Host, minutes, session_token_hash, lock_after_fails,
  captcha_max_tries,
}
use manage_robot.Operator.Password.{verify_password, verify_legacy, pbkdf2_sha256}
use manage_robot.Operator.Kdf.{rfc_blocks, pbkdf2_sha256-rfc_blocks}
use manage_robot.Examples.World.{zeros}
use manage_robot.Operator.Lockout.{Attempt, guesses, guesses_bounded}
use manage_robot.Operator.Tries.{Answer, results, read_answer, is_passed, results_bounded}
use manage_robot.Operator.Session.{
  row_lives, session_of, session_by_token, session_snapshot, persist_session, restore_session,
  kill_sessions, forget_session, revoke_session,
}
use manage_robot.Operator.Gate.{
  HttpRequest, middleware, served, volatile_refused, valid_csrf_request, unsafe_method,
  is_public_path,
}
use manage_robot.Operator.Passage.{Cleared, middleware-Cleared}
use manage_robot.Operator.Steps.{looks, uses, cleans, steps}
use manage_robot.Operator.Logout.{logout_final, kill_sessions_misses}
use manage_robot.Operator.Base64.{b64, letter, decode64, decode64-b64}

-- A digest that is the text itself, and a tag that is its key.
abbrev plain : Host
plain = record {
  hmac_sha256 = λ k m. k;
  sha256_hex = λ s. s;
  utf8 = λ s. [];
  hex_encode = λ b. "";
  hex_decode = λ s. none;
  itoa = λ n. "1";
  atoi = λ s. none;
  split_dollar = λ s. s ∷ [];
  equal_fold = str_eq;
}

abbrev label : String
label = "robot-agent/session/v1:"

abbrev operator : User
operator = record {
  username = "li";
  display_name = "Li";
  role = "user";
  groups = "g1" ∷ [];
  phone = "";
  pass_hash = "digest";
  salt = "s";
  created_ns = pos 0;
  pass_set_ns = pos 0;
  fail_count = 2;
  locked_until = pos 0;
}

abbrev half_used : Captcha
half_used = record { answer = "7KQX"; exp = minutes 100; tries = 1 }

abbrev row : Row
row = record {
  username = "li";
  role = "user";
  groups = "g1" ∷ [];
  created_ns = minutes 1000;
  last_use = minutes 1000;
  revoked = false;
}

abbrev started : AuthStore
started = record {
  users = ("li", operator) ∷ [];
  sessions = [];
  captchas = ("c1", half_used) ∷ [];
  preauths = [];
  sms = [];
  durable = true;
  rows = ("robot-agent/session/v1:abc", row) ∷ [];
}

abbrev at : ℕ → Call
at n = record { now = minutes n; db_now = minutes n; reads = true; writes = true }

abbrev guess_at : ℕ → String → String → Attempt
guess_at n name pwd = record { now = minutes n; username = name; pwd = pwd; token = "t" }

abbrev attack : List Attempt
attack = guess_at 0 "li" "a" ∷ guess_at 1 "wu" "b" ∷ guess_at 2 "li" "c" ∷ []

guesses_bounded_example : guesses plain "li" started attack + 2 ≤ lock_after_fails
unfolding get verify_password verify_legacy ◌+ℤ◌
guesses_bounded_example =
    guesses_bounded plain "li" (pos 0) started operator attack refl (omega arith) (
      (omega arith, omega arith, λ h. refl),
      ((omega arith, omega arith, λ h. refl), ((omega arith, omega arith, λ h. refl), tt)),
    )

abbrev answers : List Answer
answers =
    record { now = minutes 1; id = "c1"; ans = "0000" }
    ∷ record { now = minutes 2; id = "c1"; ans = "7KQX" }
    ∷ []

results_bounded_example :
    (results plain read_answer "c1" started answers + 1 ≤ captcha_max_tries)
    × (results plain is_passed "c1" started answers ≤ 1)
unfolding get
results_bounded_example = results_bounded plain "c1" started half_used answers refl (omega arith)

-- No other token has the digest of this one.
distinct_digest :
    (t : String)
    → str_eq t "abc" ≡ false
    → str_eq (session_token_hash plain t) (session_token_hash plain "abc") ≡ false
unfolding session_token_hash
distinct_digest t other = elim (Bool-cases (str_eq (append label t) "robot-agent/session/v1:abc")) [
  | inl same ↦
      let e : append label t ≡ append label "abc" =
        ground (arith, eq_iff (append label t) "robot-agent/session/v1:abc") in
      let own : t ≡ "abc" = append_cancel_left label t "abc" e in ground (arith, eq_iff t "abc")
  | inr apart ↦ apart
]

logout_final_example :
    let forgotten = forget_session "abc" (steps plain started (uses (at 1001) "abc" ∷ [])) in
    let out =
      revoke_session plain (at 1002) "abc" (steps plain forgotten (cleans (at 1002) ∷ [])) in
    ((session_by_token plain (at 1004) "abc" (steps plain out (looks (at 1003) "abc" ∷ []))).1
      ≡ none)
    × ((session_snapshot plain (at 1004) "abc" (steps plain out (looks (at 1003) "abc" ∷ []))).1
        ≡ none)
logout_final_example =
    logout_final plain "abc" started (uses (at 1001) "abc" ∷ []) (cleans (at 1002) ∷ [])
      (looks (at 1003) "abc" ∷ []) (at 1002) (at 1004) refl refl distinct_digest (tt, tt) (tt, tt)

kill_sessions_misses_example :
    (session_by_token plain (at 1003) "abc" (kill_sessions plain (at 1002) "li" "" started)).1
    ≡ some (record (session_of "abc" row) { last_use = minutes 1003 })
unfolding get session_token_hash row_lives ◌-ℤ◌
kill_sessions_misses_example =
    kill_sessions_misses plain "abc" started (at 1002) (at 1003) "li" "" row refl refl
      distinct_digest refl refl refl refl refl

abbrev write : HttpRequest
write = record {
  method = "POST";
  path = "/api/devices";
  csrf_cookie = "x1";
  csrf_header = "x1";
  session_cookie = "abc";
}

abbrev opened : Session
opened = record (session_of "abc" row) { last_use = minutes 1003 }

entered : (middleware plain (at 1003) write started).1 ≡ served (some opened)
unfolding middleware volatile_refused valid_csrf_request unsafe_method is_public_path trim
    session_by_token restore_session persist_session session_token_hash row_lives get put ◌-ℤ◌
entered = refl

middleware-Cleared_example :
    (s : Session) × (some opened ≡ some s) × Cleared plain (at 1003) write started s
unfolding is_public_path
middleware-Cleared_example =
    middleware-Cleared plain (at 1003) write started (some opened) refl refl refl entered

encoded : b64 (72 ∷ 105 ∷ 33 ∷ 255 ∷ []) ≡ 83 ∷ 71 ∷ 107 ∷ 104 ∷ 47 ∷ 119 ∷ 61 ∷ 61 ∷ []
unfolding b64 letter
encoded = refl

decode64-b64_example : decode64 (b64 (72 ∷ 105 ∷ 33 ∷ 255 ∷ [])) ≡ 72 ∷ 105 ∷ 33 ∷ 255 ∷ []
decode64-b64_example =
    decode64-b64 (72 ∷ 105 ∷ 33 ∷ 255 ∷ [])
      (omega arith, (omega arith, (omega arith, (omega arith, tt))))

-- A host whose tags have 32 bytes.
abbrev tagging : Host
tagging = record plain { hmac_sha256 = λ k m. zeros 32 }

pbkdf2_sha256-rfc_blocks_example :
    (pbkdf2_sha256 tagging (112 ∷ []) (115 ∷ []) 2 40
      ≡ take 40 (rfc_blocks tagging (112 ∷ []) (115 ∷ []) 2 2 1))
    × (length (pbkdf2_sha256 tagging (112 ∷ []) (115 ∷ []) 2 40) ≡ 40)
pbkdf2_sha256-rfc_blocks_example =
    pbkdf2_sha256-rfc_blocks tagging (112 ∷ []) (115 ∷ []) (λ m. refl) 2 40
