-- ===== src/Operator/Passage.antt =====
-- server/fleet/auth.go: Middleware, on the requests that it lets pass.
use manage_robot.Common.{
  true, false, ◌≡◌, inl, inr, Option, some, eq_iff, trim, arith, Option-cases,
}
use text.Mathlib.Text.{starts_with}
use manage_robot.Wire.Auth.{is_empty}
use manage_robot.Operator.Data.{Session, AuthStore, Call, Host}
use manage_robot.Operator.Session.{session_by_token}
use manage_robot.Operator.Gate.{
  HttpRequest, unsafe_method, valid_csrf_request, is_public_path, volatile_refused, guarded_path,
  served, middleware,
}

-- What is asked of a request before its handler runs.
pub record Cleared (host : Host) (c : Call) (r : HttpRequest) (st : AuthStore) (s : Session)
    : Type 0 where
  pub session : (session_by_token host c r.session_cookie st).1 ≡ some s
  pub durable : volatile_refused st.durable r ≡ false
  pub cookie : unsafe_method r.method ≡ true → is_empty r.csrf_cookie ≡ false
  pub csrf : unsafe_method r.method ≡ true → trim r.csrf_header ≡ r.csrf_cookie

module _ (host : Host) (c : Call) (r : HttpRequest) (st : AuthStore) where
  csrf_shown :
      starts_with r.path "/api/" ≡ true
      → valid_csrf_request r ≡ true
      → unsafe_method r.method ≡ true
      → (is_empty r.csrf_cookie ≡ false) × (trim r.csrf_header ≡ r.csrf_cookie)
  unfolding valid_csrf_request
  csrf_shown h v u = ground (arith, eq_iff (trim r.csrf_header) r.csrf_cookie)

  -- A path under /api/ that is neither public nor under /open/v1/ is served only with a session of
  -- the cookie, with the CSRF token of the cookie in the header where the method may write, and
  -- with a database where it needs one.
  pub middleware-Cleared :
      (o : Option Session)
      → starts_with r.path "/api/" ≡ true
      → is_public_path r.path ≡ false
      → starts_with r.path "/open/v1/" ≡ false
      → (middleware host c r st).1 ≡ served o
      → (s : Session) × (o ≡ some s) × Cleared host c r st s
  unfolding middleware guarded_path
  middleware-Cleared o api closed elsewhere done =
      elim (Option-cases (session_by_token host c r.session_cookie st).1) [
        | inl missing ↦ ground arith
        | inr (s, there) ↦ (
          s,
          ground arith,
          record {
            session = there;
            durable = ground arith;
            cookie = λ u. (csrf_shown api (ground arith) u).0;
            csrf = λ u. (csrf_shown api (ground arith) u).1;
          },
        )
      ]
