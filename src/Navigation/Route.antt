-- ===== src/Navigation/Route.antt =====
-- server/fleet/nav.go and nav_ack.go: what the operations do to one route, in the table
-- navigation_routes and in the store's memory. No lock spans the two: a receipt and an
-- acknowledgement commit the row and then write the memory, and `Cancel` reads the memory, commits
-- the row and then writes the memory. Each of these parts is a function of its own here.
use manage_robot.Common.{
  ℕ, Bool, true, false, not, ◌||◌, Option, none, some, List, String, str_eq, if◌then◌else◌, length,
  any, ltb, ◌==◌, ℤ, pos, ltb_ℤ, Result, ok, err, ◌>>=◌, ◌>>◌, refuse_if, or_fail,
}
use manage_robot.Wire.Auth.{is_empty}
use manage_robot.Arbiter.State.{Float}
use manage_robot.Registry.Cursor.{Channel, Inbound, accept_inbound_sequence_tx}
use manage_robot.Navigation.Ack.{
  Status, Action, AckResult, queued, dispatched, completed, cancel_requested, cancelled,
  cancel_rejected, rejected, failed, action_unspecified, result_unspecified,
  navigation_ack_transition,
}

pub record Point (F : Type 0) : Type 0 where
  pub name : String
  pub x : F
  pub y : F
  pub at_ns : ℤ
  pub dwell_s : F

-- The columns that the operations read or write; a route's text is left to the map of the source.
pub record Route : Type 0 where
  pub id : String
  pub vehicle_id : String
  pub points : ℕ
  pub status : Status
  pub dispatched_ns : ℤ
  pub ack_result : Option AckResult
  pub current_point : ℕ
  pub ack_ns : ℤ
  pub updated_ns : ℤ

-- The row of the table and the route of the store's map.
pub record Copies : Type 0 where
  pub row : Route
  pub cached : Route

pub data SubmitError : Type 0 where
  missing_vehicle too_few_points bad_point not_stored : SubmitError

abbrev new_route : String → String → ℕ → ℤ → Route
new_route id vehicle points now = record {
  id = id;
  vehicle_id = vehicle;
  points = points;
  status = queued;
  dispatched_ns = pos 0;
  ack_result = none;
  current_point = 0;
  ack_ns = pos 0;
  updated_ns = now;
}

module _ {F : Type 0} (fl : Float F) where
  bad_float : F → Bool
  bad_float v = fl.is_nan v || fl.is_inf v

  point_bad : Point F → Bool
  unfolding bad_float
  point_bad p =
      bad_float p.x
      || bad_float p.y
      || fl.lt p.dwell_s fl.zero
      || bad_float p.dwell_s
      || ltb_ℤ p.at_ns (pos 0)

  -- The checks of Submit; `stored` says whether the route and its downlink were committed.
  unfoldable pub submit : String → String → List (Point F) → ℤ → Bool → Result SubmitError Copies
  unfolding point_bad
  submit id vehicle pts now stored = do
    refuse_if (is_empty vehicle) missing_vehicle
    refuse_if (ltb (length pts) 2 || ltb 1000 (length pts)) too_few_points
    refuse_if (any point_bad pts) bad_point
    refuse_if (not stored) not_stored
    let r = new_route id vehicle (length pts) now
    ok (record { row = r; cached = r })

abbrev pub is_closed : Status → Bool
is_closed completed = true
is_closed cancelled = true
is_closed cancel_rejected = true
is_closed rejected = true
is_closed failed = true
is_closed _ = false

abbrev is_requested : Status → Bool
is_requested cancel_requested = true
is_requested _ = false

-- What Cancel finds in the memory: nothing to do, a refusal, or the copy that it will store.
pub data CancelStart : Type 0 where
  already refused : CancelStart
  storing : Route → CancelStart

unfoldable pub cancel_begin : Route → CancelStart
cancel_begin cached =
    if is_requested cached.status
    then already
    else if is_closed cached.status
    then refused
    else storing (record cached { status = cancel_requested })

-- persistAndQueue upserts the whole copy, whatever the row has become.
unfoldable pub cancel_store : Route → Route → Route
cancel_store row copy = record copy { id = row.id; vehicle_id = row.vehicle_id }

-- What follows in the memory.
unfoldable pub cancel_cache : Route → ℤ → Route
cancel_cache cached now = record cached { status = cancel_requested; updated_ns = now }

abbrev pub is_queued : Status → Bool
is_queued queued = true
is_queued _ = false

-- The same assignments in the row and in the memory.
unfoldable pub delivered : Route → ℤ → Route
delivered r now =
    if is_queued r.status
    then record r { status = dispatched; dispatched_ns = now; updated_ns = now }
    else record r { updated_ns = now }

-- The UPDATE, whose condition is that the row is queued or waits for its cancellation; `none` is no
-- row affected, which ends markDispatched.
unfoldable pub mark_dispatched : Route → ℤ → Option Route
mark_dispatched row now =
    if is_queued row.status || is_requested row.status then some (delivered row now) else none

pub record NavigationAck : Type 0 where
  pub version : ℕ
  pub vehicle_id : String
  pub route_id : String
  pub action : Action
  pub result : AckResult
  pub current_point : ℕ

pub data AckError : Type 0 where
  bad_ack wrong_vehicle bad_points point_out_of_range not_allowed bad_sequence : AckError

abbrev is_unspecified : Action → AckResult → Bool
is_unspecified action_unspecified r = true
is_unspecified a result_unspecified = true
is_unspecified a r = false

abbrev as_ack_error : {A E : Type 0} → Result E A → Result AckError A
as_ack_error (ok a) = ok a
as_ack_error (err e) = err bad_sequence

-- The same assignments in the row and in the memory.
unfoldable pub acknowledged : Route → Status → NavigationAck → ℤ → Route
acknowledged r next ack now = record r {
  status = next;
  ack_result = some ack.result;
  current_point = ack.current_point;
  ack_ns = now;
  updated_ns = now;
}

ack_fields_bad : String → Channel → ℕ → NavigationAck → Bool
ack_fields_bad link ch n ack =
    is_empty link
    || is_empty ch.vehicle_id
    || is_empty ch.gateway_id
    || is_empty ch.session_id
    || n == 0
    || not (ack.version == 1)
    || not (str_eq ack.vehicle_id ch.vehicle_id)
    || is_empty ack.route_id
    || is_unspecified ack.action ack.result

-- The checks of HandleNavigationAck that precede the transition; `link` is the link it came on.
unfoldable pub check_ack : Route → String → Channel → ℕ → NavigationAck → Result AckError (Unit {0})
unfolding ack_fields_bad
check_ack row link ch n ack = do
  refuse_if (ack_fields_bad link ch n ack) bad_ack
  refuse_if (not (str_eq row.vehicle_id ch.vehicle_id)) wrong_vehicle
  refuse_if (ltb row.points 2) bad_points
  refuse_if (ltb row.points ack.current_point) point_out_of_range
  ok tt

-- The row and the ledgers after a claim on the number, and the status for the memory.
unfoldable pub project_ack :
    Route → Inbound → NavigationAck → ℤ → Status → Inbound × Bool → Route × Inbound × Option Status
project_ack row db ack now next claim =
    if claim.1 then (acknowledged row next ack now, claim.0, some next) else (row, db, none)

-- The transaction of HandleNavigationAck, on the row that the acknowledgement names. A duplicate is no
-- error, changes nothing and has no status for the memory.
unfoldable pub commit_ack :
    Route
    → Inbound
    → String
    → Channel
    → ℕ
    → NavigationAck
    → ℤ
    → Result AckError (Route × Inbound × Option Status)
commit_ack row db link ch n ack now = do
  check_ack row link ch n ack
  next ← or_fail (navigation_ack_transition row.status ack.action ack.result) not_allowed
  claim ←
      as_ack_error
        (accept_inbound_sequence_tx db (record ch { message_type = "platform.v1.NavigationAck" }) n)
  ok (project_ack row db ack now next claim)
