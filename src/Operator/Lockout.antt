-- ===== src/Operator/Lockout.antt =====
-- server/fleet/auth.go: LoginPassword, on many attempts.
use manage_robot.Common.{
  ℕ, suc, ◌+◌, ◌≤◌, ◌<◌, ◌≡◌, refl, ◌∙◌, ◌⊎◌, inl, inr, Bool, true, false, ◌&&◌, some, List, [],
  ◌∷◌, String, str_eq, eq_iff, ℤ, pos, ltb_ℤ, ◌<ℤ◌, ◌≤ℤ◌, ◌+ℤ◌, +ℤ_parts, Bool-cases, Option-cases,
  if◌then◌else◌, All, get, get-put, arith,
}
use manage_robot.Operator.Data.{User, AuthStore, Host, lock_after_fails, lock_duration}
use manage_robot.Operator.Password.{verify_password}
use manage_robot.Operator.Login.{
  PasswordResult, no_user, wrong_password, now_locked, still_locked, passed, failed_user, guess,
  login_password,
}

-- One call of LoginPassword, and the token that it would give.
pub record Attempt : Type 0 where
  pub now : ℤ
  pub username : String
  pub pwd : String
  pub token : String

-- The password was compared.
abbrev pub compared : PasswordResult → Bool
compared no_user = false
compared (still_locked left) = false
compared wrong_password = true
compared now_locked = true
compared (passed token soon) = true

module _ (host : Host) where
  abbrev pub attempt : AuthStore → Attempt → AuthStore × PasswordResult
  attempt st a = login_password host a.now a.username a.pwd a.token st

  -- How many passwords were compared with that of the user.
  unfoldable pub guesses : String → AuthStore → List Attempt → ℕ
  guesses name st [] = 0
  guesses name st (a ∷ as') =
      let rest = guesses name (attempt st a).0 as' in
      if str_eq a.username name && compared (attempt st a).1 then suc rest else rest

  -- The attempts lie in half an hour from `start`, and none has the password.
  abbrev pub Wrong : String → String → String → ℤ → Attempt → Type 0
  Wrong name salt hash start a =
      (start ≤ℤ a.now)
      × (a.now <ℤ start +ℤ lock_duration)
      × (str_eq a.username name ≡ true → verify_password host salt a.pwd hash ≡ false)

  attempt_other :
      (name : String) (st : AuthStore) (a : Attempt)
      → str_eq a.username name ≡ false
      → get name (attempt st a).0.users ≡ get name st.users
  unfolding login_password guess
  attempt_other name st a other = elim (Option-cases (get a.username st.users)) [
    | inl missing ↦ ground arith
    | inr (u, found) ↦ ground (
      arith,
      get-put a.username name (failed_user a.now u) st.users,
      get-put a.username name (record u { fail_count = 0; locked_until = pos 0 }) st.users,
    )
  ]

  attempt_locked :
      (name : String) (st : AuthStore) (a : Attempt) (u : User)
      → str_eq a.username name ≡ true
      → get name st.users ≡ some u
      → a.now <ℤ u.locked_until
      → (get name (attempt st a).0.users ≡ some u) × (compared (attempt st a).1 ≡ false)
  unfolding login_password guess
  attempt_locked name st a u mine found locked = ground (arith, eq_iff a.username name)

  attempt_wrong :
      (name : String) (st : AuthStore) (a : Attempt) (u : User)
      → str_eq a.username name ≡ true
      → get name st.users ≡ some u
      → ltb_ℤ a.now u.locked_until ≡ false
      → verify_password host u.salt a.pwd u.pass_hash ≡ false
      → get name (attempt st a).0.users ≡ some (failed_user a.now u)
  unfolding login_password guess
  attempt_wrong name st a u mine found free wrong =
      ground (arith, eq_iff a.username name, get-put a.username name (failed_user a.now u) st.users)

  -- While the account is locked no password is compared.
  locked_guesses :
      (name salt hash : String) (start : ℤ) (st : AuthStore) (u : User) (as' : List Attempt)
      → get name st.users ≡ some u
      → start +ℤ lock_duration ≤ℤ u.locked_until
      → All (Wrong name salt hash start) as'
      → guesses name st as' ≡ 0
  unfolding guesses
  locked_guesses name salt hash start st u [] found far w = refl
  locked_guesses name salt hash start st u (a ∷ as') found far (w, ws) =
      elim (Bool-cases (str_eq a.username name)) [
        | inl mine ↦
            let (kept, none') = attempt_locked name st a u mine found (omega arith) in
            let rest = locked_guesses name salt hash start (attempt st a).0 u as' kept far ws in
            ground arith
        | inr other ↦
            let kept = attempt_other name st a other in
            let rest =
              locked_guesses name salt hash start (attempt st a).0 u as' (ground arith) far ws in
            ground arith
      ]

  failed_parts :
      (now : ℤ) (u : User)
      → u.fail_count < lock_after_fails
      → ((failed_user now u).salt ≡ u.salt)
        × ((failed_user now u).pass_hash ≡ u.pass_hash)
        × (((failed_user now u).fail_count ≡ u.fail_count + 1)
              × (u.fail_count + 1 < lock_after_fails)
            ⊎ ((failed_user now u).locked_until ≡ now +ℤ lock_duration))
  unfolding failed_user
  failed_parts now u few = ground arith

  guesses_from :
      (name salt hash : String) (start : ℤ) (st : AuthStore) (u : User) (as' : List Attempt)
      → u.salt ≡ salt
      → u.pass_hash ≡ hash
      → get name st.users ≡ some u
      → u.fail_count < lock_after_fails
      → All (Wrong name salt hash start) as'
      → guesses name st as' + u.fail_count ≤ lock_after_fails
  unfolding guesses
  guesses_from name salt hash start st u [] s h found few w = omega arith
  guesses_from name salt hash start st u (a ∷ as') s h found few (w, ws) =
      elim (Bool-cases (str_eq a.username name)) [
        | inr other ↦
            let kept = attempt_other name st a other in
            let rest =
              guesses_from name salt hash start (attempt st a).0 u as' s h (ground arith) few ws in
            ground arith
        | inl mine ↦ elim (Bool-cases (ltb_ℤ a.now u.locked_until)) [
          | inl locked ↦
              let (kept, none') = attempt_locked name st a u mine found (ground arith) in
              let rest = guesses_from name salt hash start (attempt st a).0 u as' s h kept few ws in
              ground arith
          | inr free ↦
              let kept = attempt_wrong name st a u mine found free (rw (s, h) (w.2 mine)) in
              let (s', h', next) = failed_parts a.now u few in
              elim next [
                | inl (more, room) ↦
                    let rest =
                      guesses_from name salt hash start (attempt st a).0 (failed_user a.now u) as'
                        (s' ∙ s) (h' ∙ h) kept (omega arith) ws in
                    ground arith
                | inr shut ↦
                    let rest =
                      locked_guesses name salt hash start (attempt st a).0 (failed_user a.now u) as'
                        kept
                        (rw shut (
                          ground
                            (arith, +ℤ_parts start lock_duration, +ℤ_parts a.now lock_duration)))
                        ws in
                    ground arith
              ]
        ]
      ]

  -- While fewer than five failures are counted on an account, and if every attempt on it within half
  -- an hour of the start gives a wrong password (a right one would set the count back to nothing): no
  -- more than five of these attempts have their password compared, one less for each failure that is
  -- counted at the start; whatever attempts on other accounts lie between.
  pub guesses_bounded :
      (name : String) (start : ℤ) (st : AuthStore) (u : User) (as' : List Attempt)
      → get name st.users ≡ some u
      → u.fail_count < lock_after_fails
      → All (Wrong name u.salt u.pass_hash start) as'
      → guesses name st as' + u.fail_count ≤ lock_after_fails
  guesses_bounded name start st u as' found few w =
      guesses_from name u.salt u.pass_hash start st u as' refl refl found few w
