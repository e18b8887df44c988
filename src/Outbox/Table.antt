-- ===== src/Outbox/Table.antt =====
-- server/fleet/outbox.go: the table platform_outbox and the worker that drains it. What hashes a
-- payload (SHA-256 in hexadecimal) and draws an identifier is an argument.
use Prim.Native.String.{◌++◌ as append}
use manage_robot.Common.{
  ℕ, ◌+◌, ◌*◌, Bool, true, false, not, ◌&&◌, ◌||◌, Option, none, some, List, [], ◌∷◌, String,
  str_eq, if◌then◌else◌, length, take, any, ltb, leb, ◌==◌, ℤ, pos, ltb_ℤ, leb_ℤ, ◌+ℤ◌,
}
use manage_robot.Wire.Envelope.{Bytes}
use manage_robot.Wire.Auth.{is_empty}

pub data OutboxStatus : Type 0 where
  pending sending delivered dead : OutboxStatus

-- A row of platform_outbox; times are its next_attempt_at and created_at.
pub record Item : Type 0 where
  pub id : String
  pub dedupe_key : String
  pub aggregate_type : String
  pub aggregate_id : String
  pub gateway : String
  pub channel : String
  pub payload : Bytes
  pub status : OutboxStatus
  pub attempts : ℕ
  pub next_attempt_at : ℤ
  pub created_at : ℤ
  pub last_error : String

-- What a caller asks to be sent.
pub record Message : Type 0 where
  pub gateway : String
  pub channel : String
  pub aggregate_type : String
  pub aggregate_id : String
  pub payload : Bytes

abbrev pub outbox_batch_size : ℕ
outbox_batch_size = 32

abbrev pub outbox_max_attempts : ℕ
outbox_max_attempts = 20

abbrev pub outbox_claim_timeout : ℤ
outbox_claim_timeout = pos 30000000000

abbrev pub slash : String → String → String
slash a b = append a (append "/" b)

-- fmt.Sprintf("%s/%s/%s/%s/%s", …)
unfoldable pub dedupe_key_of : (Bytes → String) → Message → String
dedupe_key_of digest m =
    slash m.aggregate_type
      (slash m.aggregate_id (slash m.gateway (slash m.channel (digest m.payload))))

-- INSERT … ON CONFLICT (dedupe_key) DO NOTHING
unfoldable pub insert_outbox : String → String → Message → ℤ → List Item → List Item
insert_outbox id key m now db =
    if any (λ i. str_eq i.dedupe_key key) db
    then db
    else record {
      id = id;
      dedupe_key = key;
      aggregate_type = m.aggregate_type;
      aggregate_id = m.aggregate_id;
      gateway = m.gateway;
      channel = m.channel;
      payload = m.payload;
      status = pending;
      attempts = 0;
      next_attempt_at = now;
      created_at = now;
      last_error = "";
    }
      ∷ db

unfoldable pub message_bad : Message → Bool
message_bad m =
    is_empty m.gateway
    || is_empty m.channel
    || length m.payload == 0
    || is_empty m.aggregate_type
    || is_empty m.aggregate_id

-- `none` is the error: a field is missing, or no identifier could be drawn.
unfoldable pub enqueue_outbox_tx :
    (Bytes → String) → Option String → Message → ℤ → List Item → Option (List Item)
enqueue_outbox_tx digest none m now db = none
enqueue_outbox_tx digest (some id) m now db =
    if message_bad m then none else some (insert_outbox id (dedupe_key_of digest m) m now db)

abbrev queued_or : List Item → Option (List Item) → List Item × Bool
queued_or db none = (db, false)
queued_or db (some db') = (db', true)

-- The same outside a transaction, with a Boolean for the error.
unfoldable pub enqueue_outbox_for :
    (Bytes → String) → Option String → Message → ℤ → List Item → List Item × Bool
enqueue_outbox_for digest id m now db = queued_or db (enqueue_outbox_tx digest id m now db)

unfoldable pub enqueue_outbox :
    (Bytes → String) → Option String → String → String → Bytes → ℤ → List Item → List Item × Bool
enqueue_outbox digest id gateway channel payload now db =
    enqueue_outbox_for digest id
      (record {
        gateway = gateway;
        channel = channel;
        aggregate_type = "gateway_message";
        aggregate_id = channel;
        payload = payload;
      })
      now db

abbrev pub is_pending : OutboxStatus → Bool
is_pending pending = true
is_pending _ = false

abbrev pub is_sending : OutboxStatus → Bool
is_sending sending = true
is_sending _ = false

-- UPDATE … SET status='pending', next_attempt_at=now()
--   WHERE status='sending' AND next_attempt_at < now() - the timeout
unfoldable pub recover_one : ℤ → Item → Item
recover_one now i =
    if is_sending i.status && ltb_ℤ (i.next_attempt_at +ℤ outbox_claim_timeout) now
    then record i { status = pending; next_attempt_at = now }
    else i

unfoldable pub recover : ℤ → List Item → List Item
recover now [] = []
recover now (i ∷ is) = recover_one now i ∷ recover now is

-- The rows that are due and that no other worker has locked, with the attempt that begins counted.
unfoldable pub due : (String → Bool) → ℤ → List Item → List Item
due locked now [] = []
due locked now (i ∷ is) =
    let rest = due locked now is in
    if is_pending i.status && leb_ℤ i.next_attempt_at now && not (locked i.id)
    then record i { attempts = i.attempts + 1 } ∷ rest
    else rest

-- ORDER BY created_at ASC, rows of one time in the table's order.
unfoldable pub insert_by_age : Item → List Item → List Item
insert_by_age i [] = i ∷ []
insert_by_age i (j ∷ js) =
    if leb_ℤ i.created_at j.created_at then i ∷ j ∷ js else j ∷ insert_by_age i js

unfoldable pub by_age : List Item → List Item
by_age [] = []
by_age (i ∷ is) = insert_by_age i (by_age is)

abbrev pub in_batch : List Item → String → Bool
in_batch batch id = any (λ i. str_eq i.id id) batch

unfoldable pub claim_rows : List Item → ℤ → List Item → List Item
claim_rows batch now [] = []
claim_rows batch now (i ∷ is) =
    (if in_batch batch i.id
      then record i {
        status = sending;
        attempts = i.attempts + 1;
        next_attempt_at = now +ℤ outbox_claim_timeout;
      }
      else i)
    ∷ claim_rows batch now is

unfoldable pub batch_of : (String → Bool) → ℤ → List Item → List Item
batch_of locked now db = take outbox_batch_size (by_age (due locked now (recover now db)))

-- The table after the claim, and the claimed items.
unfoldable pub claim_outbox : (String → Bool) → ℤ → List Item → List Item × List Item
claim_outbox locked now db =
    let batch = batch_of locked now db in (claim_rows batch now (recover now db), batch)

-- Seconds until the next attempt: the square of the attempts, at most a minute.
unfoldable pub backoff : ℕ → ℕ
backoff attempts = if ltb 60 (attempts * attempts) then 60 else attempts * attempts

mark_one : Bool → ℕ → String → ℤ → Item → Item
mark_one true attempts detail now i = record i { status = delivered; last_error = "" }
mark_one false attempts detail now i = record i {
  status = if leb outbox_max_attempts attempts then dead else pending;
  last_error = detail;
  next_attempt_at = now +ℤ pos (backoff attempts * 1000000000);
}

unfoldable pub mark_outbox : String → Bool → ℕ → String → ℤ → List Item → List Item
unfolding mark_one
mark_outbox id done attempts detail now [] = []
mark_outbox id done attempts detail now (i ∷ is) =
    (if str_eq i.id id then mark_one done attempts detail now i else i)
    ∷ mark_outbox id done attempts detail now is
