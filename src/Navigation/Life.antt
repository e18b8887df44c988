-- ===== src/Navigation/Life.antt =====
-- server/fleet/nav.go and nav_ack.go: the life of a route. Its status in the table moves forwards,
-- unless a cancellation overtakes an acknowledgement.
use manage_robot.Common.{
  String, ℕ, ◌≤◌, ◌<◌, ◌≡◌, refl, ◌⊎◌, inr, true, false, some, List, [], ◌∷◌, ||_parts, All, ℤ, ok,
  arith,
}
use manage_robot.Registry.Cursor.{Channel, Inbound}
use manage_robot.Navigation.Ack.{
  Status, Action, AckResult, cancel_requested, cancelled, cancel, ack_cancelled,
  navigation_ack_transition,
}
use manage_robot.Navigation.Route.{
  Route, is_closed, storing, cancel_begin, cancel_store, cancel_cache, NavigationAck, acknowledged,
  commit_ack, project_ack,
}
use manage_robot.Navigation.World.{
  World, Event, cancels, acknowledges, goes_on, on_begin, on_ack, perform, task_at, without_task,
  step, run, overwrites, ever_overwrites,
}
use manage_robot.Navigation.Onwards.{rank, Asks, Onwards-trans, step-Good}

-- A route becomes cancelled only where a cancellation was requested, or it was cancelled already, and
-- the vehicle acknowledges a cancellation as carried out.
pub cancelled_confirmed :
    (s : Status) (a : Action) (r : AckResult)
    → navigation_ack_transition s a r ≡ some cancelled
    → ((s ≡ cancel_requested) ⊎ (s ≡ cancelled)) × (a ≡ cancel) × (r ≡ ack_cancelled)
unfolding navigation_ack_transition
cancelled_confirmed s a r h = ground arith

-- Over any interleaving of the parts of broker receipts, acknowledgements and cancellations, in which
-- no cancellation is committed over a row that is closed: the status of the row in the table has not
-- moved backwards, and is the same if it was closed. The cancellations under way at the start, if any,
-- ask for one.
pub run_forward :
    (w : World) (es : List Event)
    → All Asks w.tasks
    → ever_overwrites w es ≡ false
    → (rank w.row.status ≤ rank (run w es).row.status)
      × ((is_closed w.row.status ≡ false) ⊎ ((run w es).row.status ≡ w.row.status))
unfolding run ever_overwrites
run_forward w [] h q = (omega arith, inr refl)
run_forward w (e ∷ es) h q =
    let parts = ||_parts (overwrites w e) (ever_overwrites (step w e) es) q in
    let now = step-Good w e parts.0 h in
    Onwards-trans w.row (step w e).row (run (step w e) es).row now.1
      (run_forward (step w e) es now.0 parts.1)

-- The events from the commit of an acknowledgement, between the two halves of a cancellation, to the
-- end of both.
abbrev pub overtaken : String → Channel → ℕ → NavigationAck → ℤ → List Event
overtaken link ch n ack now =
    cancels
    ∷ acknowledges link ch n ack now
    ∷ goes_on 1 now true
    ∷ goes_on 0 now true
    ∷ goes_on 0 now true
    ∷ []

commit_ack-some :
    (row row' : Route) (db db' : Inbound) (s : Status) (link : String) (ch : Channel) (n : ℕ)
    (ack : NavigationAck) (now : ℤ)
    → commit_ack row db link ch n ack now ≡ ok (row', db', some s)
    → (row'.status ≡ s) × (row'.ack_result ≡ some ack.result)
unfolding commit_ack project_ack acknowledged
commit_ack-some row row' db db' s link ch n ack now h = ground arith

cancel_begin-storing :
    (cached copy : Route)
    → cancel_begin cached ≡ storing copy
    → (copy.status ≡ cancel_requested) × (copy.ack_result ≡ cached.ack_result)
unfolding cancel_begin
cancel_begin-storing cached copy h = ground arith

-- No call is under way.
abbrev pub resting : Route → Route → Inbound → World
resting row cached db = record { row = row; cached = cached; inbound = db; tasks = [] }

-- Where no other call is under way, a cancellation begins on the memory's copy of the route; then an
-- acknowledgement that closes the route is committed and written to the memory; then the cancellation
-- is committed and ends. The route is open again, in the table as in the memory, and the
-- acknowledgement's result, which the row held, is replaced by the one of the memory's old copy.
pub cancel_reopens :
    (row row' cached copy : Route) (db db' : Inbound) (s : Status) (link : String) (ch : Channel)
    (n : ℕ) (ack : NavigationAck) (now : ℤ)
    → cancel_begin cached ≡ storing copy
    → commit_ack row db link ch n ack now ≡ ok (row', db', some s)
    → is_closed row'.status ≡ true
    → let w' = run (resting row cached db) (overtaken link ch n ack now) in
      (row'.ack_result ≡ some ack.result)
      × (w'.row.status ≡ cancel_requested)
      × (w'.cached.status ≡ cancel_requested)
      × (rank w'.row.status < rank row'.status)
      × (w'.row.ack_result ≡ cached.ack_result)
unfolding run step on_begin on_ack perform task_at without_task cancel_store cancel_cache
cancel_reopens row row' cached copy db db' s link ch n ack now begun h closed =
    let held = (commit_ack-some row row' db db' s link ch n ack now h).1 in
    let asks = cancel_begin-storing cached copy begun in
    rw (begun, h) (held, asks.0, refl, ground arith, asks.1)
