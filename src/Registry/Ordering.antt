-- ===== src/Registry/Ordering.antt =====
-- What the gate lets through is in order, and nothing twice.
use manage_robot.Common.{
  ℕ, ◌≤◌, ◌<◌, ◌≡◌, refl, true, false, Option, none, some, List, [], ◌∷◌, eq_iff, if◌then◌else◌,
  if_cases, All, ◌⊎◌, arith,
}
use manage_robot.Registry.Cursor.{
  Channel, Inbound, same_channel, last_sequence, set_cursor, accept_inbound_sequence_tx,
  accept_inbound_sequence, accepted,
}

-- The cursor of the message's channel has reached it.
abbrev ReachedBy : Option ℕ → ℕ → Type 0
ReachedBy none n = ⊥
ReachedBy (some last) n = n ≤ last

abbrev Reached : Channel × ℕ → Inbound → Type 0
Reached m db = ReachedBy (last_sequence m.0 db.cursors) m.1

-- A message that stands before another of its channel has a smaller number.
abbrev pub Ordered : Channel × ℕ → Channel × ℕ → Type 0
Ordered m n = (same_channel m.0 n.0 ≡ false) ⊎ (m.1 < n.1)

abbrev pub InOrder : List (Channel × ℕ) → Type 0
InOrder [] = Unit
InOrder (m ∷ ms) = All (Ordered m) ms × InOrder ms

same_channel_trans :
    (a b c : Channel) → same_channel a b ≡ true → same_channel a c ≡ same_channel b c
unfolding same_channel
same_channel_trans a b c h = ground (
  arith,
  eq_iff a.vehicle_id b.vehicle_id,
  eq_iff a.gateway_id b.gateway_id,
  eq_iff a.message_type b.message_type,
  eq_iff a.session_id b.session_id,
)

same_channel_comm : (a b : Channel) → same_channel a b ≡ true → same_channel b a ≡ true
unfolding same_channel
same_channel_comm a b h = ground (
  arith,
  eq_iff a.vehicle_id b.vehicle_id,
  eq_iff a.gateway_id b.gateway_id,
  eq_iff a.message_type b.message_type,
  eq_iff a.session_id b.session_id,
  eq_iff b.vehicle_id a.vehicle_id,
  eq_iff b.gateway_id a.gateway_id,
  eq_iff b.message_type a.message_type,
  eq_iff b.session_id a.session_id,
)

same_channel_refl : (a : Channel) → same_channel a a ≡ true
unfolding same_channel
same_channel_refl a = ground (
  arith,
  eq_iff a.vehicle_id a.vehicle_id,
  eq_iff a.gateway_id a.gateway_id,
  eq_iff a.message_type a.message_type,
  eq_iff a.session_id a.session_id,
)

-- Two names of one channel find the same cursor.
last_sequence-same :
    (a b : Channel) (cs : List (Channel × ℕ))
    → same_channel a b ≡ true
    → last_sequence a cs ≡ last_sequence b cs
unfolding last_sequence
last_sequence-same a b [] h = refl
last_sequence-same a b ((k, m) ∷ cs) h = ground (
  arith,
  last_sequence-same a b cs h,
  same_channel_trans a b k h,
  same_channel_comm a k,
  same_channel_comm k a,
  same_channel_comm b k,
  same_channel_comm k b,
)

last_sequence-set_cursor :
    (a b : Channel) (n : ℕ) (cs : List (Channel × ℕ))
    → last_sequence b (set_cursor a n cs)
      ≡ (if same_channel a b then some n else last_sequence b cs)
unfolding last_sequence set_cursor
last_sequence-set_cursor a b n [] = refl
last_sequence-set_cursor a b n ((k, m) ∷ cs) = ground (
  arith,
  last_sequence-set_cursor a b n cs,
  same_channel_trans k a b,
  same_channel_trans a k b,
  same_channel_comm k a,
  same_channel_comm a k,
  same_channel_trans k b a,
  same_channel_comm a b,
  same_channel_comm b k,
)

accept-Reached :
    (m : Channel × ℕ) (db : Inbound) (ch : Channel) (n : ℕ)
    → Reached m db
    → Reached m (accept_inbound_sequence db ch n).0
unfolding accept_inbound_sequence accept_inbound_sequence_tx
accept-Reached m db ch n h =
    ground
      (arith, last_sequence-set_cursor ch m.0 n db.cursors, last_sequence-same ch m.0 db.cursors)

accept-fresh :
    (m : Channel × ℕ) (db : Inbound) (ch : Channel) (n : ℕ)
    → Reached m db
    → (accept_inbound_sequence db ch n).1 ≡ true
    → Ordered m (ch, n)
unfolding accept_inbound_sequence accept_inbound_sequence_tx
accept-fresh m db ch n h k = ground (arith, last_sequence-same m.0 ch db.cursors)

accept-reaches :
    (db : Inbound) (ch : Channel) (n : ℕ)
    → (accept_inbound_sequence db ch n).1 ≡ true
    → Reached (ch, n) (accept_inbound_sequence db ch n).0
unfolding accept_inbound_sequence accept_inbound_sequence_tx
accept-reaches db ch n k =
    ground (arith, last_sequence-set_cursor ch ch n db.cursors, same_channel_refl ch)

Reached-accepted :
    (m : Channel × ℕ) (db : Inbound) (ms : List (Channel × ℕ))
    → Reached m db
    → All (Ordered m) (accepted db ms)
unfolding accepted
Reached-accepted m db [] h = tt
Reached-accepted m db ((ch, n) ∷ ms) h =
    let db' = (accept_inbound_sequence db ch n).0 in
    let rest = Reached-accepted m db' ms (accept-Reached m db ch n h) in
    if_cases (All (Ordered m)) (accept_inbound_sequence db ch n).1 ((ch, n) ∷ accepted db' ms)
      (accepted db' ms) (λ k. (accept-fresh m db ch n h k, rest)) (λ k. rest)

-- Whatever arrives, in whatever order and however often: within each channel the accepted messages
-- have strictly increasing sequence numbers.
pub accepted-InOrder : (db : Inbound) (ms : List (Channel × ℕ)) → InOrder (accepted db ms)
unfolding accepted
accepted-InOrder db [] = tt
accepted-InOrder db ((ch, n) ∷ ms) =
    let db' = (accept_inbound_sequence db ch n).0 in
    let rest = accepted-InOrder db' ms in
    if_cases InOrder (accept_inbound_sequence db ch n).1 ((ch, n) ∷ accepted db' ms)
      (accepted db' ms) (λ k. (Reached-accepted (ch, n) db' ms (accept-reaches db ch n k), rest))
      (λ k. rest)
