-- ===== src/Maps/Ack.antt =====
-- server/fleet/map_publication.go: HandleMapPublicationAck and markMapPublicationDispatched. A statement
-- of SQL is a pass over the rows.
use manage_robot.Common.{
  ℕ, Bool, true, false, not, ◌&&◌, ◌||◌, Option, none, some, List, [], ◌∷◌, String, str_eq, map,
  ◌==◌, ℤ, pos, eqb_ℤ, if◌then◌else◌, Result, ok, err, ◌>>=◌, ◌>>◌, refuse_if, or_fail,
}
use manage_robot.Wire.Auth.{is_empty}
use manage_robot.Maps.Data.{
  State, approved, dispatched, confirmed, active, rejected, superseded, rolled_back, Action, apply,
  rollback, Publication, MapError, no_publication, bad_ack, wrong_identity, not_applicable,
  no_target,
}

pub data AckResult : Type 0 where
  accepted applied refused failed unspecified : AckResult

-- `detail` is what trimRune left of it.
pub record MapAck : Type 0 where
  pub publication_id : String
  pub map_id : String
  pub vehicle_id : String
  pub map_version : ℕ
  pub result : AckResult
  pub detail : String

abbrev pub is_active : State → Bool
is_active active = true
is_active s = false

abbrev pub is_rollback : Action → Bool
is_rollback rollback = true
is_rollback apply = false

unfoldable pub find_publication : String → List Publication → Option Publication
find_publication id [] = none
find_publication id (p ∷ ps) = if str_eq p.id id then some p else find_publication id ps

-- The states from which the vehicle may report the map as applied.
abbrev pub may_apply : State → Bool
may_apply approved = true
may_apply dispatched = true
may_apply confirmed = true
may_apply active = true
may_apply s = false

unfoldable pub next_state : State → Action → AckResult → Result MapError State
next_state s a accepted = ok confirmed
next_state s a applied =
    if may_apply s then ok (if is_rollback a then confirmed else active) else err not_applicable
next_state s a refused = ok rejected
next_state s a failed = ok rejected
next_state s a unspecified = err bad_ack

-- `at` is what now() of the database returns.
abbrev pub with_state : ℤ → State → Publication → Publication
with_state at s p = record p { state = s; updated_ns = at }

-- UPDATE ... SET state='superseded' WHERE vehicle_id AND state='active' AND id NOT IN (a, b)
unfoldable pub supersede : ℤ → String → String → String → List Publication → List Publication
supersede at vehicle a b = map λ p.
    if str_eq p.vehicle_id vehicle
      && is_active p.state
      && not (str_eq p.id a)
      && not (str_eq p.id b)
    then with_state at superseded p
    else p

-- UPDATE ... SET state='rolled_back' WHERE id AND vehicle_id AND state='active'
unfoldable pub roll_back : ℤ → String → String → List Publication → List Publication
roll_back at vehicle id = map λ p.
    if str_eq p.id id && str_eq p.vehicle_id vehicle && is_active p.state
    then with_state at rolled_back p
    else p

abbrev pub restorable : State → Bool
restorable superseded = true
restorable rolled_back = true
restorable confirmed = true
restorable s = false

-- UPDATE ... SET state='active' WHERE id AND vehicle_id AND state IN ('superseded','rolled_back','confirmed')
unfoldable pub reactivate : ℤ → String → String → List Publication → List Publication
reactivate at vehicle id = map λ p.
    if str_eq p.id id && str_eq p.vehicle_id vehicle && restorable p.state
    then with_state at active p
    else p

unfoldable pub record_ack : State → MapAck → String → ℤ → List Publication → List Publication
record_ack next ack result now = map λ p.
    if str_eq p.id ack.publication_id
    then record p {
      state = next;
      ack_result = result;
      ack_detail = ack.detail;
      ack_ns = now;
      updated_ns = now;
    }
    else p

abbrev pub result_name : AckResult → String
result_name accepted = "MAP_PUBLICATION_RESULT_ACCEPTED"
result_name applied = "MAP_PUBLICATION_RESULT_APPLIED"
result_name refused = "MAP_PUBLICATION_RESULT_REJECTED"
result_name failed = "MAP_PUBLICATION_RESULT_FAILED"
result_name unspecified = "MAP_PUBLICATION_RESULT_UNSPECIFIED"

-- What an application does to the other rows of the vehicle.
unfoldable pub apply_others :
    ℤ → String → Publication → List Publication → Result MapError (List Publication)
apply_others at vehicle p ps =
    if is_rollback p.action
    then if is_empty p.previous
      then ok ps
      else if is_empty p.rollback_target
      then err no_target
      else ok (
          reactivate at vehicle p.rollback_target (
            roll_back at vehicle p.previous (supersede at vehicle p.previous p.rollback_target ps)))
    else ok (supersede at vehicle p.id p.id ps)

abbrev pub others_of :
    AckResult → ℤ → String → Publication → List Publication → Result MapError (List Publication)
others_of applied at vehicle p ps = apply_others at vehicle p ps
others_of r at vehicle p ps = ok ps

unfoldable pub handle_map_publication_ack :
    String → String → MapAck → ℤ → ℤ → List Publication → Result MapError (List Publication)
handle_map_publication_ack vehicle gateway ack now at ps = do
  refuse_if
      (is_empty vehicle
        || is_empty gateway
        || is_empty ack.publication_id
        || is_empty ack.map_id
        || not (str_eq ack.vehicle_id vehicle)
        || ack.map_version == 0)
      bad_ack
  p ← or_fail (find_publication ack.publication_id ps) no_publication
  refuse_if
      (not (str_eq p.map_id ack.map_id)
        || not (str_eq p.vehicle_id vehicle)
        || not (eqb_ℤ p.version (pos ack.map_version)))
      wrong_identity
  next ← next_state p.state p.action ack.result
  rest ← others_of ack.result at vehicle p ps
  ok (record_ack next ack (result_name ack.result) now rest)

abbrev pub is_approved : State → Bool
is_approved approved = true
is_approved s = false

-- UPDATE ... SET state='dispatched' WHERE id AND state='approved'
unfoldable pub mark_map_publication_dispatched : ℤ → String → List Publication → List Publication
mark_map_publication_dispatched at id ps =
    if is_empty id
    then ps
    else map (λ p. if str_eq p.id id && is_approved p.state then with_state at dispatched p else p)
        ps
