-- ===== src/Registry/Cursor.antt =====
-- server/fleet/vehicle_registry.go: AcceptInboundSequence over the tables inbound_message_cursors and
-- inbound_message_dedup.
use manage_robot.Common.{
  ℕ, Bool, true, false, not, ◌&&◌, ◌||◌, Option, none, some, List, [], ◌∷◌, String, str_eq,
  if◌then◌else◌, any, ltb, ◌==◌, Result, ok, err, ◌>>◌, refuse_if,
}
use manage_robot.Wire.Auth.{is_empty}

-- The primary key of a cursor.
pub record Channel : Type 0 where
  pub vehicle_id : String
  pub gateway_id : String
  pub message_type : String
  pub session_id : String

pub record Inbound : Type 0 where
  pub cursors : List (Channel × ℕ)
  pub ledger : List (Channel × ℕ)

pub data InboundError : Type 0 where
  missing_fields : InboundError

unfoldable pub same_channel : Channel → Channel → Bool
same_channel a b =
    str_eq a.vehicle_id b.vehicle_id
    && str_eq a.gateway_id b.gateway_id
    && str_eq a.message_type b.message_type
    && str_eq a.session_id b.session_id

unfoldable pub last_sequence : Channel → List (Channel × ℕ) → Option ℕ
last_sequence ch [] = none
last_sequence ch ((k, n) ∷ cs) = if same_channel k ch then some n else last_sequence ch cs

unfoldable pub set_cursor : Channel → ℕ → List (Channel × ℕ) → List (Channel × ℕ)
set_cursor ch n [] = (ch, n) ∷ []
set_cursor ch n ((k, m) ∷ cs) =
    if same_channel k ch then (k, n) ∷ cs else (k, m) ∷ set_cursor ch n cs

abbrev pub is_newer : Option ℕ → ℕ → Bool
is_newer none n = true
is_newer (some last) n = ltb last n

abbrev pub in_ledger : Channel → ℕ → List (Channel × ℕ) → Bool
in_ledger ch n = any λ e. same_channel e.0 ch && e.1 == n

-- INSERT … ON CONFLICT DO UPDATE … WHERE last_sequence < EXCLUDED.last_sequence RETURNING, then the
-- INSERT into the ledger, whose row count is the answer.
unfoldable pub accept_inbound_sequence_tx :
    Inbound → Channel → ℕ → Result InboundError (Inbound × Bool)
accept_inbound_sequence_tx db ch n = do
  refuse_if
      (is_empty ch.vehicle_id
        || is_empty ch.gateway_id
        || is_empty ch.message_type
        || is_empty ch.session_id
        || n == 0)
      missing_fields
  ok (
      if not (is_newer (last_sequence ch db.cursors) n)
      then (db, false)
      else if in_ledger ch n db.ledger
      then (record db { cursors = set_cursor ch n db.cursors }, false)
      else (record { cursors = set_cursor ch n db.cursors; ledger = (ch, n) ∷ db.ledger }, true))

abbrev committed : Inbound → Result InboundError (Inbound × Bool) → Inbound × Bool
committed db (ok r) = r
committed db (err e) = (db, false)

-- The transaction of its own; an error accepts nothing and changes nothing.
unfoldable pub accept_inbound_sequence : Inbound → Channel → ℕ → Inbound × Bool
accept_inbound_sequence db ch n = committed db (accept_inbound_sequence_tx db ch n)

-- The messages of a run that were accepted, in order.
unfoldable pub accepted : Inbound → List (Channel × ℕ) → List (Channel × ℕ)
accepted db [] = []
accepted db ((ch, n) ∷ ms) =
    let (db', yes') = accept_inbound_sequence db ch n in
    let rest = accepted db' ms in if yes' then (ch, n) ∷ rest else rest
