-- ===== src/Operator/Data.antt =====
-- server/fleet/auth.go: User, Session, AuthStore and the table auth_sessions. Times are nanoseconds
-- since 1970; a map is an association list, the table's key is the digest of the token.
use Prim.Native.String.{◌++◌ as append}
use manage_robot.Common.{ℕ, ◌*◌, Bool, List, String, ℤ, pos, Option}
use manage_robot.Wire.Envelope.{Bytes}

pub record User : Type 0 where
  pub username : String
  pub display_name : String
  pub role : String
  pub groups : List String
  pub phone : String
  pub pass_hash : String
  pub salt : String
  pub created_ns : ℤ
  pub pass_set_ns : ℤ
  pub fail_count : ℕ
  pub locked_until : ℤ

pub record Session : Type 0 where
  pub token : String
  pub username : String
  pub role : String
  pub groups : List String
  pub created_ns : ℤ
  pub last_use : ℤ

-- A row of auth_sessions; `revoked` is whether revoked_at is set.
pub record Row : Type 0 where
  pub username : String
  pub role : String
  pub groups : List String
  pub created_ns : ℤ
  pub last_use : ℤ
  pub revoked : Bool

pub record Captcha : Type 0 where
  pub answer : String
  pub exp : ℤ
  pub tries : ℕ

pub record SmsEntry : Type 0 where
  pub code : String
  pub exp : ℤ
  pub tries : ℕ

pub record Preauth : Type 0 where
  pub username : String
  pub exp : ℤ

-- `durable` is whether there is a database; `rows` is its table of sessions.
pub record AuthStore : Type 0 where
  pub users : List (String × User)
  pub sessions : List (String × Session)
  pub captchas : List (String × Captcha)
  pub preauths : List (String × Preauth)
  pub sms : List (String × SmsEntry)
  pub durable : Bool
  pub rows : List (String × Row)

-- One call: what time.Now returns, what now() of the database returns, and whether the database
-- answers its reads and its writes.
pub record Call : Type 0 where
  pub now : ℤ
  pub db_now : ℤ
  pub reads : Bool
  pub writes : Bool

-- What comes from outside the repository: the cryptographic functions, strconv and strings.
pub record Host : Type 0 where
  -- key, message
  pub hmac_sha256 : Bytes → Bytes → Bytes
  pub sha256_hex : String → String
  pub utf8 : String → Bytes
  pub hex_encode : Bytes → String
  pub hex_decode : String → Option Bytes
  pub itoa : ℕ → String
  pub atoi : String → Option ℤ
  pub split_dollar : String → List String
  pub equal_fold : String → String → Bool

abbrev pub minutes : ℕ → ℤ
minutes n = pos (n * 60000000000)

abbrev pub lock_after_fails : ℕ
lock_after_fails = 5

abbrev pub lock_duration : ℤ
lock_duration = minutes 30

abbrev pub captcha_ttl : ℤ
captcha_ttl = minutes 5

abbrev pub captcha_max_tries : ℕ
captcha_max_tries = 3

abbrev pub sms_max_tries : ℕ
sms_max_tries = 5

abbrev pub session_idle_ttl : ℤ
session_idle_ttl = minutes 30

abbrev pub session_abs_ttl : ℤ
session_abs_ttl = minutes 480

-- passwordLifetime - 14*24*time.Hour
abbrev pub expiring_age : ℤ
expiring_age = minutes 239040

unfoldable pub session_token_hash : Host → String → String
session_token_hash host token = host.sha256_hex (append "robot-agent/session/v1:" token)
