-- ===== src/Navigation/Onwards.antt =====
-- Each part of an operation takes the row of a route onwards, or leaves it where it is.
use manage_robot.Common.{
  String, ℕ, ◌≤◌, ◌≡◌, refl, ◌⊎◌, inl, inr, Bool, true, false, Option, none, some, List, [], ◌∷◌,
  ◌++◌, ◌&&◌, zero, suc, All, subst, ℤ, Result, ok, err, arith,
}
use manage_robot.Registry.Cursor.{Channel, Inbound}
use manage_robot.Navigation.Ack.{
  Status, Action, AckResult, queued, dispatched, accepted, running, cancel_requested,
  navigation_ack_transition,
}
use manage_robot.Navigation.Route.{
  Route, is_closed, CancelStart, already, refused, storing, cancel_begin, cancel_store, delivered,
  mark_dispatched, NavigationAck, AckError, acknowledged, commit_ack, project_ack,
}
use manage_robot.Navigation.World.{
  Task, cache_delivery, cache_ack, store_cancel, cache_cancel, World, Event, delivers, cancels,
  acknowledges, goes_on, on_delivery, on_begin, on_ack, perform, task_at, without_task, step,
  is_store, overwrites,
}

-- How far a route has come.
abbrev pub rank : Status → ℕ
rank queued = 0
rank dispatched = 1
rank accepted = 2
rank running = 3
rank cancel_requested = 4
rank _ = 5

-- An acknowledgement that is allowed never moves a route backwards, and leaves a closed one as it is.
transition_forward :
    (s s' : Status) (a : Action) (r : AckResult)
    → navigation_ack_transition s a r ≡ some s'
    → (rank s ≤ rank s') × ((is_closed s ≡ false) ⊎ (s' ≡ s))
unfolding navigation_ack_transition
transition_forward s s' a r h = ground arith

-- A cancellation under way stores the status that asks for one.
abbrev pub Asks : Task → Type 0
Asks (store_cancel copy) = copy.status ≡ cancel_requested
Asks k = Unit

-- The row has not moved backwards, and has kept its status if it was closed.
abbrev pub Onwards : Route → Route → Type 0
Onwards r r' =
    (rank r.status ≤ rank r'.status) × ((is_closed r.status ≡ false) ⊎ (r'.status ≡ r.status))

abbrev Good : World → World → Type 0
Good w w' = All Asks w'.tasks × Onwards w.row w'.row

All-snoc : (ks : List Task) (k : Task) → All Asks ks → Asks k → All Asks (ks ++ (k ∷ []))
All-snoc [] k h a = (a, tt)
All-snoc (j ∷ ks) k h a = (h.0, All-snoc ks k h.1 a)

All-without_task : (n : ℕ) (ks : List Task) → All Asks ks → All Asks (without_task n ks)
unfolding without_task
All-without_task zero [] h = tt
All-without_task (suc n) [] h = tt
All-without_task zero (k ∷ ks) h = h.1
All-without_task (suc n) (k ∷ ks) h = (h.0, All-without_task n ks h.1)

task_at-Asks : (n : ℕ) (ks : List Task) (k : Task) → All Asks ks → task_at n ks ≡ some k → Asks k
unfolding task_at
task_at-Asks zero [] k h e = absurd (ground arith)
task_at-Asks (suc n) [] k h e = absurd (ground arith)
task_at-Asks zero (j ∷ ks) k h e = let same : j ≡ k = ground arith in subst Asks same h.0
task_at-Asks (suc n) (j ∷ ks) k h e = task_at-Asks n ks k h.1 e

staying : (w : World) → All Asks w.tasks → Good w w
staying w h = (h, (omega arith, inr refl))

commit_ack-Onwards :
    (row row' : Route) (db db' : Inbound) (s : Option Status) (link : String) (ch : Channel) (n : ℕ)
    (ack : NavigationAck) (now : ℤ)
    → commit_ack row db link ch n ack now ≡ ok (row', db', s)
    → (row' ≡ row) ⊎ (navigation_ack_transition row.status ack.action ack.result ≡ some row'.status)
unfolding commit_ack project_ack acknowledged
commit_ack-Onwards row row' db db' s link ch n ack now h = ground arith

moved-Onwards :
    (row row' : Route) (ack : NavigationAck)
    → (row' ≡ row) ⊎ (navigation_ack_transition row.status ack.action ack.result ≡ some row'.status)
    → Onwards row row'
moved-Onwards row row' ack (inl e) = rw e (omega arith, inr refl)
moved-Onwards row row' ack (inr e) =
    transition_forward row.status row'.status ack.action ack.result e

on_ack-Good :
    (w : World) (link : String) (ch : Channel) (n : ℕ) (ack : NavigationAck) (now : ℤ)
    (r : Result AckError (Route × Inbound × Option Status))
    → commit_ack w.row w.inbound link ch n ack now ≡ r
    → All Asks w.tasks
    → Good w (on_ack w ack now r)
unfolding on_ack
on_ack-Good w link ch n ack now (err e) q h = staying w h
on_ack-Good w link ch n ack now (ok (row, db, none)) q h = (
  h,
  moved-Onwards w.row row ack (commit_ack-Onwards w.row row w.inbound db none link ch n ack now q),
)
on_ack-Good w link ch n ack now (ok (row, db, some next)) q h = (
  All-snoc w.tasks _ h tt,
  moved-Onwards w.row row ack
      (commit_ack-Onwards w.row row w.inbound db (some next) link ch n ack now q),
)

on_delivery-Good :
    (w : World) (now : ℤ) (r : Option Route)
    → mark_dispatched w.row now ≡ r
    → All Asks w.tasks
    → Good w (on_delivery w now r)
unfolding on_delivery mark_dispatched delivered
on_delivery-Good w now none q h = staying w h
on_delivery-Good w now (some row) q h = (All-snoc w.tasks _ h tt, (ground arith, ground arith))

on_begin-Good :
    (w : World) (r : CancelStart)
    → cancel_begin w.cached ≡ r
    → All Asks w.tasks
    → Good w (on_begin w r)
unfolding on_begin cancel_begin
on_begin-Good w already q h = staying w h
on_begin-Good w refused q h = staying w h
on_begin-Good w (storing copy) q h = (All-snoc w.tasks _ h (ground arith), (omega arith, inr refl))

perform-Good :
    (w : World) (now : ℤ) (stored : Bool) (k : Option Task)
    → (is_closed w.row.status && stored && is_store k) ≡ false
    → ((t : Task) → k ≡ some t → Asks t)
    → All Asks w.tasks
    → Good w (perform w now stored k)
unfolding perform cancel_store
perform-Good w now stored none q a h = staying w h
perform-Good w now stored (some (cache_delivery at)) q a h = staying w h
perform-Good w now stored (some (cache_ack next ack at)) q a h = staying w h
perform-Good w now false (some (store_cancel copy)) q a h = staying w h
perform-Good w now true (some (store_cancel copy)) q a h =
    let asks = a (store_cancel copy) refl in
    (All-snoc w.tasks _ h tt, (ground arith, inl (ground arith)))
perform-Good w now stored (some cache_cancel) q a h = staying w h

pub step-Good :
    (w : World) (e : Event) → overwrites w e ≡ false → All Asks w.tasks → Good w (step w e)
unfolding step
step-Good w (delivers now) q h = on_delivery-Good w now _ refl h
step-Good w cancels q h = on_begin-Good w _ refl h
step-Good w (acknowledges link ch n ack now) q h = on_ack-Good w link ch n ack now _ refl h
step-Good w (goes_on n now stored) q h =
    perform-Good (record w { tasks = without_task n w.tasks }) now stored (task_at n w.tasks) q
      (λ t e. task_at-Asks n w.tasks t h e) (All-without_task n w.tasks h)

pub Onwards-trans : (a b c : Route) → Onwards a b → Onwards b c → Onwards a c
Onwards-trans a b c h k = ground arith
