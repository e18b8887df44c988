-- ===== src/Navigation/Ack.antt =====
-- server/fleet/nav_ack.go: navigationAckTransition.
use manage_robot.Common.{Option, none, some, ℤ}

-- The texts that the column `status` takes.
pub data Status : Type 0 where
  queued dispatched accepted running completed : Status
  cancel_requested cancelled cancel_rejected rejected failed : Status

pub data Action : Type 0 where
  action_unspecified dispatch cancel : Action
  unknown_action : ℤ → Action

pub data AckResult : Type 0 where
  result_unspecified ack_accepted ack_started ack_completed ack_rejected : AckResult
  ack_failed ack_cancelled : AckResult
  unknown_result : ℤ → AckResult

abbrev open_or : Status → Status → Option Status
open_or queued next = some next
open_or dispatched next = some next
open_or accepted next = some next
open_or running next = some next
open_or _ next = none

on_accepted : Status → Option Status
on_accepted queued = some accepted
on_accepted dispatched = some accepted
on_accepted accepted = some accepted
on_accepted _ = none

on_completed : Status → Option Status
on_completed completed = some completed
on_completed s = open_or s completed

on_rejected : Status → Option Status
on_rejected rejected = some rejected
on_rejected s = open_or s rejected

on_failed : Status → Option Status
on_failed failed = some failed
on_failed s = open_or s failed

on_dispatch : AckResult → Status → Option Status
unfolding on_accepted on_completed on_rejected on_failed
on_dispatch ack_accepted s = on_accepted s
on_dispatch ack_started s = open_or s running
on_dispatch ack_completed s = on_completed s
on_dispatch ack_rejected s = on_rejected s
on_dispatch ack_failed s = on_failed s
on_dispatch _ s = none

cancel_confirmed : Status → Option Status
cancel_confirmed cancel_requested = some cancelled
cancel_confirmed cancelled = some cancelled
cancel_confirmed _ = none

cancel_refused : Status → Option Status
cancel_refused cancel_requested = some cancel_rejected
cancel_refused cancel_rejected = some cancel_rejected
cancel_refused _ = none

cancel_taken : Status → Option Status
cancel_taken cancel_requested = some cancel_requested
cancel_taken _ = none

on_cancel : AckResult → Status → Option Status
unfolding cancel_confirmed cancel_refused cancel_taken
on_cancel ack_accepted s = cancel_taken s
on_cancel ack_cancelled s = cancel_confirmed s
on_cancel ack_rejected s = cancel_refused s
on_cancel ack_failed s = cancel_refused s
on_cancel _ s = none

-- `none` is the error.
unfoldable pub navigation_ack_transition : Status → Action → AckResult → Option Status
unfolding on_dispatch on_cancel
navigation_ack_transition s dispatch r = on_dispatch r s
navigation_ack_transition s cancel r = on_cancel r s
navigation_ack_transition s _ r = none
