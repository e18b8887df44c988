-- ===== src/Operator.antt =====
-- server/fleet/auth.go: the operators of the platform. `Data` has the tables, `Password` the check of
-- a password, `Captcha` and `Login` the two stages of a login, `Session` the life of a session, `Gate`
-- the check before each request, `Base64` the encoding of the captcha's image; the other modules prove
-- what holds of them.
pub mod Data
pub mod Password
pub mod Kdf
pub mod Captcha
pub mod Tries
pub mod Session
pub mod Held
pub mod Holding
pub mod Shut
pub mod Shutting
pub mod Upkeep
pub mod Login
pub mod Lockout
pub mod Phone
pub mod Gate
pub mod Passage
pub mod Steps
pub mod Base64
pub mod Gone
pub mod Logout
