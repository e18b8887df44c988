-- ===== src/Outbox/Delivery.antt =====
-- server/fleet/outbox.go: what the workers and the writers do to each other.
use manage_robot.Common.{
  str_eq, some, any, eq_iff, ℕ, zero, suc, ◌≤◌, ◌≡◌, refl, Bool, true, false, List, [], ◌∷◌, String,
  if_cases, take, length, length-take, All, ℤ, ◌+ℤ◌, ◌≤ℤ◌, arith,
}
use manage_robot.Wire.Envelope.{Bytes}
use manage_robot.Outbox.Table.{
  Message, insert_outbox, enqueue_outbox_tx, dedupe_key_of, sending, Item, outbox_batch_size,
  outbox_claim_timeout, recover_one, recover, due, insert_by_age, by_age, in_batch, claim_rows,
  batch_of, claim_outbox, mark_outbox,
}

-- What the workers and the writers do to the table, between two claims.
pub data Work : Type 0 where
  queues : String → String → Message → ℤ → Work
  claims : (String → Bool) → ℤ → Work
  marks : String → Bool → ℕ → String → ℤ → Work

unfoldable pub work : List Item → List Work → List Item
work db [] = db
work db (queues id key m now ∷ ws) = work (insert_outbox id key m now db) ws
work db (claims locked now ∷ ws) = work (claim_outbox locked now db).0 ws
work db (marks id done attempts detail now ∷ ws) =
    work (mark_outbox id done attempts detail now db) ws

-- What leaves the messages of `batch` alone: a claim up to the time `limit`, the mark of another
-- message, the queueing of a message under another identifier.
abbrev pub Apart : List Item → ℤ → Work → Type 0
Apart batch limit (queues id key m now) = in_batch batch id ≡ false
Apart batch limit (claims locked now) = now ≤ℤ limit
Apart batch limit (marks id done attempts detail now) = in_batch batch id ≡ false

insert_outbox-stored :
    (id key : String) (m : Message) (now : ℤ) (db : List Item)
    → any (λ i. str_eq i.dedupe_key key) (insert_outbox id key m now db) ≡ true
unfolding insert_outbox
insert_outbox-stored id key m now db = ground (arith, eq_iff key key)

-- A message that was queued is queued once: to queue it again, under whatever identifier, succeeds and
-- leaves the table as it is.
pub enqueue_once :
    (digest : Bytes → String) (id id' : String) (m : Message) (now later : ℤ) (db db' : List Item)
    → enqueue_outbox_tx digest (some id) m now db ≡ some db'
    → enqueue_outbox_tx digest (some id') m later db' ≡ some db'
unfolding enqueue_outbox_tx insert_outbox
enqueue_once digest id id' m now later db db' h =
    ground (arith, insert_outbox-stored id (dedupe_key_of digest m) m now db)

-- The row is in the hands of the worker that claimed `batch` at `now`.
abbrev Taken : List Item → ℤ → Item → Type 0
Taken batch now i =
    in_batch batch i.id ≡ true
    → (i.status ≡ sending) × (i.next_attempt_at ≡ (now +ℤ outbox_claim_timeout))

claim_rows-Taken :
    (batch : List Item) (now : ℤ) (db : List Item) → All (Taken batch now) (claim_rows batch now db)
unfolding claim_rows
claim_rows-Taken batch now [] = tt
claim_rows-Taken batch now (i ∷ is) = (ground arith, claim_rows-Taken batch now is)

due-free :
    (batch : List Item) (now later : ℤ) (locked : String → Bool) (db : List Item)
    → later ≤ℤ now +ℤ outbox_claim_timeout +ℤ outbox_claim_timeout
    → All (Taken batch now) db
    → All (λ i. in_batch batch i.id ≡ false) (due locked later (recover later db))
unfolding due recover recover_one
due-free batch now later locked [] h k = tt
due-free batch now later locked (i ∷ is) h k =
    ground (arith, due-free batch now later locked is h k.1)

module _ {ℓ} (P : Item → Type ℓ) where
  All-insert_by_age : (i : Item) (is : List Item) → P i → All P is → All P (insert_by_age i is)
  unfolding insert_by_age
  All-insert_by_age i [] h k = (h, tt)
  All-insert_by_age i (j ∷ js) h k =
      let below = All-insert_by_age i js h k.1 in
      if_cases (All P) _ (i ∷ j ∷ js) (j ∷ insert_by_age i js) (λ e. (h, k)) (λ e. (k.0, below))

  All-by_age : (is : List Item) → All P is → All P (by_age is)
  unfolding by_age
  All-by_age [] k = tt
  All-by_age (i ∷ is) k = All-insert_by_age i (by_age is) k.0 (All-by_age is k.1)

  All-take : (n : ℕ) (is : List Item) → All P is → All P (take n is)
  All-take zero is k = tt
  All-take (suc n) [] k = tt
  All-take (suc n) (i ∷ is) k = (k.0, All-take n is k.1)

-- A batch that holds none of the other's messages is held by none of them.
in_batch-apart :
    (batch next : List Item) (id : String)
    → All (λ i. in_batch batch i.id ≡ false) next
    → in_batch batch id ≡ true
    → in_batch next id ≡ false
in_batch-apart batch [] id h e = refl
in_batch-apart batch (j ∷ js) id h e =
    let here = h.0 in let rest = in_batch-apart batch js id h.1 e in ground (arith, eq_iff j.id id)

module _ (batch : List Item) (now : ℤ) where
  abbrev limit : ℤ
  limit = now +ℤ outbox_claim_timeout +ℤ outbox_claim_timeout

  batch_of-free :
      (locked : String → Bool) (later : ℤ) (db : List Item)
      → later ≤ℤ limit
      → All (Taken batch now) db
      → All (λ i. in_batch batch i.id ≡ false) (batch_of locked later db)
  unfolding batch_of
  batch_of-free locked later db h k =
      let P = λ (i : Item). in_batch batch i.id ≡ false in
      All-take P outbox_batch_size _ (
        All-by_age P (due locked later (recover later db)) (due-free batch now later locked db h k))

  Taken-claim :
      (next : List Item) (later : ℤ) (db : List Item)
      → later ≤ℤ limit
      → All (λ i. in_batch batch i.id ≡ false) next
      → All (Taken batch now) db
      → All (Taken batch now) (claim_rows next later (recover later db))
  unfolding claim_rows recover recover_one
  Taken-claim next later [] h free k = tt
  Taken-claim next later (i ∷ is) h free k =
      let here = k.0 in
      let apart = in_batch-apart batch next i.id free in
      (ground arith, Taken-claim next later is h free k.1)

  Taken-mark :
      (id : String) (done : Bool) (attempts : ℕ) (detail : String) (t : ℤ) (db : List Item)
      → in_batch batch id ≡ false
      → All (Taken batch now) db
      → All (Taken batch now) (mark_outbox id done attempts detail t db)
  unfolding mark_outbox
  Taken-mark id done attempts detail t [] h k = tt
  Taken-mark id done attempts detail t (i ∷ is) h k =
      let here = k.0 in
      (ground (arith, eq_iff i.id id), Taken-mark id done attempts detail t is h k.1)

  Taken-insert_outbox :
      (id key : String) (m : Message) (t : ℤ) (db : List Item)
      → in_batch batch id ≡ false
      → All (Taken batch now) db
      → All (Taken batch now) (insert_outbox id key m t db)
  unfolding insert_outbox
  Taken-insert_outbox id key m t db h k =
      if_cases (All (Taken batch now)) (any (λ i. str_eq i.dedupe_key key) db) db _ (λ e. k)
        (λ e. (λ q. absurd (ground arith), k))

  work-Taken :
      (db : List Item) (ws : List Work)
      → All (Apart batch limit) ws
      → All (Taken batch now) db
      → All (Taken batch now) (work db ws)
  unfolding work claim_outbox
  work-Taken db [] h k = k
  work-Taken db (queues id key m t ∷ ws) h k =
      work-Taken (insert_outbox id key m t db) ws h.1 (Taken-insert_outbox id key m t db h.0 k)
  work-Taken db (claims locked t ∷ ws) h k =
      work-Taken (claim_outbox locked t db).0 ws h.1
        (Taken-claim (batch_of locked t db) t db h.0 (batch_of-free locked t db h.0 k) k)
  work-Taken db (marks id done attempts detail t ∷ ws) h k =
      work-Taken (mark_outbox id done attempts detail t db) ws h.1
        (Taken-mark id done attempts detail t db h.0 k)

claim_outbox-Taken :
    (locked : String → Bool) (now : ℤ) (db : List Item)
    → All (Taken (claim_outbox locked now db).1 now) (claim_outbox locked now db).0
unfolding claim_outbox
claim_outbox-Taken locked now db = claim_rows-Taken (batch_of locked now db) now (recover now db)

claim_outbox-free :
    (batch : List Item) (now : ℤ) (locked : String → Bool) (later : ℤ) (db : List Item)
    → later ≤ℤ now +ℤ outbox_claim_timeout +ℤ outbox_claim_timeout
    → All (Taken batch now) db
    → All (λ i. in_batch batch i.id ≡ false) (claim_outbox locked later db).1
      × (length (claim_outbox locked later db).1 ≤ 32)
unfolding claim_outbox batch_of
claim_outbox-free batch now locked later db h k = (
  batch_of-free batch now locked later db h k,
  omega (arith, length-take 32 (by_age (due locked later (recover later db)))),
)

-- After a claim at `now`, and any claims up to twice the claim timeout later, marks of messages that
-- it did not claim, and queueings under identifiers that it did not claim, a claim up to twice the
-- timeout after `now` holds none of the messages that the first one claimed, and at most 32.
pub claim_exclusive :
    (first second : String → Bool) (now later : ℤ) (db : List Item) (ws : List Work)
    → later ≤ℤ now +ℤ outbox_claim_timeout +ℤ outbox_claim_timeout
    → All
        (Apart (claim_outbox first now db).1 (now +ℤ outbox_claim_timeout +ℤ outbox_claim_timeout))
        ws
    → let (db', batch) = claim_outbox first now db in
      let (db'', next) = claim_outbox second later (work db' ws) in
      All (λ i. in_batch batch i.id ≡ false) next × (length next ≤ 32)
claim_exclusive first second now later db ws h k =
    let batch = (claim_outbox first now db).1 in
    claim_outbox-free batch now second later (work (claim_outbox first now db).0 ws) h
      (work-Taken batch now (claim_outbox first now db).0 ws k (claim_outbox-Taken first now db))
