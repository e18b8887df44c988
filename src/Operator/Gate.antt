-- ===== src/Operator/Gate.antt =====
-- server/fleet/auth.go: unsafeMethod, validCSRFRequest, isPublicPath, Middleware, requireRole and
-- CheckCreds.
use manage_robot.Common.{
  Bool, true, false, not, ◌&&◌, ◌||◌, Option, none, some, List, [], ◌∷◌, String, str_eq, trim, any,
  if◌then◌else◌, get,
}
use text.Mathlib.Text.{starts_with}
use manage_robot.Wire.Auth.{is_empty}
use manage_robot.Operator.Data.{User, Session, AuthStore, Call, Host}
use manage_robot.Operator.Password.{verify_password}
use manage_robot.Operator.Session.{session_by_token}

-- A cookie that the request does not have is empty.
pub record HttpRequest : Type 0 where
  pub method : String
  pub path : String
  pub csrf_cookie : String
  pub csrf_header : String
  pub session_cookie : String

unfoldable pub unsafe_method : String → Bool
unsafe_method m = not (str_eq m "GET" || str_eq m "HEAD" || str_eq m "OPTIONS" || str_eq m "TRACE")

-- A comparison of texts implies that of their lengths, which the source makes first.
unfoldable pub valid_csrf_request : HttpRequest → Bool
valid_csrf_request r =
    if not (unsafe_method r.method) || not (starts_with r.path "/api/")
    then true
    else if is_empty r.csrf_cookie
    then false
    else let header = trim r.csrf_header in
      if is_empty header then false else str_eq header r.csrf_cookie

abbrev pub public_paths : List String
public_paths =
    "/" ∷ "/login" ∷ "/index.html" ∷ "/favicon.ico" ∷ "/robots.txt" ∷ "/healthz" ∷ "/readyz"
    ∷ "/metrics" ∷ "/api/captcha" ∷ "/api/auth/csrf" ∷ "/api/auth/login" ∷ "/api/auth/verify"
    ∷ "/api/auth/sms/send" ∷ "/api/auth/login-phone" ∷ []

unfoldable pub is_public_path : String → Bool
is_public_path p = any (λ q. str_eq q p) public_paths || starts_with p "/assets/"

-- What a request that may write needs where there is no database.
unfoldable pub volatile_refused : Bool → HttpRequest → Bool
volatile_refused durable r =
    not durable
    && not (str_eq r.method "GET")
    && not (str_eq r.method "HEAD")
    && not (str_eq r.method "OPTIONS")
    && not (str_eq r.path "/api/auth/login")
    && not (str_eq r.path "/api/auth/verify")
    && not (str_eq r.path "/api/auth/logout")
    && not (str_eq r.path "/api/captcha")

-- The next handler runs, with the session of the request where it has one, or the request is refused.
pub data Passage : Type 0 where
  persistence_required csrf_failed not_logged_in : Passage
  served : Option Session → Passage

unfoldable pub guarded_path : String → Bool
guarded_path p = starts_with p "/api/" || starts_with p "/open/" || starts_with p "/ws/"

abbrev pub by_session : String → AuthStore × Option Session → AuthStore × Passage
by_session path (st, some s) = (st, served (some s))
by_session path (st, none) = (st, if guarded_path path then not_logged_in else served none)

unfoldable pub middleware : Host → Call → HttpRequest → AuthStore → AuthStore × Passage
middleware host c r st =
    if volatile_refused st.durable r
    then (st, persistence_required)
    else if not (valid_csrf_request r)
    then (st, csrf_failed)
    else if is_public_path r.path || starts_with r.path "/open/v1/"
    then (st, served none)
    else by_session r.path (session_by_token host c r.session_cookie st)

-- requireRole, over the session that the middleware left: none is unauthorised, another role forbidden.
pub data RoleResult : Type 0 where
  unauthorized forbidden : RoleResult
  granted : Session → RoleResult

unfoldable pub require_role : Option Session → List String → RoleResult
require_role none roles = unauthorized
require_role (some s) roles = if any (λ r. str_eq s.role r) roles then granted s else forbidden

abbrev pub creds_of : Host → String → Option User → Option String
creds_of host pwd none = none
creds_of host pwd (some u) =
    if verify_password host u.salt pwd u.pass_hash then some u.role else none

unfoldable pub check_creds : Host → String → String → AuthStore → Option String
check_creds host username pwd st = creds_of host pwd (get username st.users)
