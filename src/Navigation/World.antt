-- ===== src/Navigation/World.antt =====
-- server/fleet/nav.go and nav_ack.go: the parts of the operations on a route in any interleaving, each
-- call being under way until it has taken its last part.
use manage_robot.Common.{
  String, ℕ, Bool, true, false, Option, none, some, List, [], ◌∷◌, ◌++◌, ◌&&◌, if◌then◌else◌, ◌||◌,
  zero, suc, ℤ, Result, ok, err,
}
use manage_robot.Registry.Cursor.{Channel, Inbound}
use manage_robot.Navigation.Ack.{Status}
use manage_robot.Navigation.Route.{
  Route, is_closed, CancelStart, storing, cancel_begin, cancel_store, cancel_cache, delivered,
  mark_dispatched, NavigationAck, AckError, acknowledged, commit_ack,
}

-- What a call that is under way has still to do, after its last lock or transaction.
pub data Task : Type 0 where
  cache_delivery : ℤ → Task
  cache_ack : Status → NavigationAck → ℤ → Task
  store_cancel : Route → Task
  cache_cancel : Task

-- The row, the memory's copy, the ledgers of numbers, and what the calls under way have still to do.
pub record World : Type 0 where
  pub row : Route
  pub cached : Route
  pub inbound : Inbound
  pub tasks : List Task

-- A call begins, or one of those under way takes its next part: the task of the given position, at a
-- time, with the outcome of its transaction if it has one.
pub data Event : Type 0 where
  delivers : ℤ → Event
  cancels : Event
  acknowledges : String → Channel → ℕ → NavigationAck → ℤ → Event
  goes_on : ℕ → ℤ → Bool → Event

abbrev pub with_task : World → Task → World
with_task w k = record w { tasks = w.tasks ++ (k ∷ []) }

unfoldable pub on_delivery : World → ℤ → Option Route → World
on_delivery w now none = w
on_delivery w now (some row) = with_task (record w { row = row }) (cache_delivery now)

unfoldable pub on_begin : World → CancelStart → World
on_begin w (storing copy) = with_task w (store_cancel copy)
on_begin w _ = w

unfoldable pub on_ack :
    World → NavigationAck → ℤ → Result AckError (Route × Inbound × Option Status) → World
on_ack w ack now (err e) = w
on_ack w ack now (ok (row, db, none)) = record w { row = row; inbound = db }
on_ack w ack now (ok (row, db, some next)) =
    with_task (record w { row = row; inbound = db }) (cache_ack next ack now)

unfoldable pub perform : World → ℤ → Bool → Option Task → World
perform w now stored none = w
perform w now stored (some (cache_delivery at)) = record w { cached = delivered w.cached at }
perform w now stored (some (cache_ack next ack at)) = record w {
  cached = acknowledged w.cached next ack at;
}
perform w now stored (some (store_cancel copy)) =
    if stored then with_task (record w { row = cancel_store w.row copy }) cache_cancel else w
perform w now stored (some cache_cancel) = record w { cached = cancel_cache w.cached now }

unfoldable pub task_at : ℕ → List Task → Option Task
task_at n [] = none
task_at zero (k ∷ ks) = some k
task_at (suc n) (k ∷ ks) = task_at n ks

unfoldable pub without_task : ℕ → List Task → List Task
without_task n [] = []
without_task zero (k ∷ ks) = ks
without_task (suc n) (k ∷ ks) = k ∷ without_task n ks

unfoldable pub step : World → Event → World
step w (delivers now) = on_delivery w now (mark_dispatched w.row now)
step w cancels = on_begin w (cancel_begin w.cached)
step w (acknowledges link ch n ack now) =
    on_ack w ack now (commit_ack w.row w.inbound link ch n ack now)
step w (goes_on n now stored) =
    perform (record w { tasks = without_task n w.tasks }) now stored (task_at n w.tasks)

unfoldable pub run : World → List Event → World
run w [] = w
run w (e ∷ es) = run (step w e) es

abbrev pub is_store : Option Task → Bool
is_store (some (store_cancel copy)) = true
is_store k = false

-- The event commits a cancellation over a row that is closed.
abbrev pub overwrites : World → Event → Bool
overwrites w (goes_on n now stored) =
    is_closed w.row.status && stored && is_store (task_at n w.tasks)
overwrites w e = false

unfoldable pub ever_overwrites : World → List Event → Bool
ever_overwrites w [] = false
ever_overwrites w (e ∷ es) = overwrites w e || ever_overwrites (step w e) es
