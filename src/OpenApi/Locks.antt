-- ===== src/OpenApi/Locks.antt =====
-- server/fleet/openapi.go: locked and recordFail, the lock-out of an address or a key after failures.
use Prim.Native.String.{◌++◌ as append}
use manage_robot.Common.{
  ◌&&◌, Option, none, some, List, [], ◌∷◌, ◌++◌, String, str_eq, length, leb, ℤ, pos, ltb_ℤ, ◌+ℤ◌,
  ◌-ℤ◌, if◌then◌else◌, get, put, delete, delete_if,
}
use manage_robot.OpenApi.Store.{LockEntry, Policy}

-- "ip:" + ip, and "id:" + keyID where there is one.
unfoldable pub targets : String → String → List String
targets ip id = append "ip:" ip ∷ (if str_eq id "" then [] else append "id:" id ∷ [])

abbrev Locks : Type 0
Locks = List (String × LockEntry)

look : Locks → String → ℤ → Option LockEntry → Locks × Option ℤ
look locks t now none = (locks, none)
look locks t now (some e) =
    if ltb_ℤ now e.until
    then (locks, some (e.until -ℤ now))
    else if ltb_ℤ (pos 0) e.until
    then (delete t locks, none)
    else (locks, none)

-- The time that is left, of the first target that is locked; a lock that has run out is removed.
unfoldable pub locked : Locks → List String → ℤ → Locks × Option ℤ
unfolding look
locked locks [] now = (locks, none)
locked locks (t ∷ ts) now =
    let (swept, left) = look locks t now (get t locks) in
    elim left [ none ↦ locked swept ts now | some l ↦ (swept, some l) ]

keep_after : ℤ → List ℤ → List ℤ
keep_after cut [] = []
keep_after cut (t ∷ ts) = let rest = keep_after cut ts in if ltb_ℤ cut t then t ∷ rest else rest

counted : Policy → ℤ → LockEntry → LockEntry
unfolding keep_after
counted p now e =
    let fails = keep_after (now -ℤ pos p.lockout_window_s) e.fails ++ (now ∷ []) in
    if leb p.lockout_threshold (length fails)
    then record { fails = []; until = now +ℤ pos p.lockout_seconds }
    else record e { fails = fails }

abbrev entry_or_new : Option LockEntry → LockEntry
entry_or_new none = record { fails = []; until = pos 0 }
entry_or_new (some e) = e

count_fail : Policy → ℤ → Locks → String → Locks
unfolding counted
count_fail p now locks t =
    let e = entry_or_new (get t locks) in
    put t (if ltb_ℤ now e.until then e else counted p now e) locks

count_fails : Policy → ℤ → Locks → List String → Locks
unfolding count_fail
count_fails p now locks [] = locks
count_fails p now locks (t ∷ ts) = count_fails p now (count_fail p now locks t) ts

-- A lock that ran out more than an hour ago is swept first.
unfoldable pub record_fail : Policy → ℤ → Locks → List String → Locks
unfolding count_fails
record_fail p now locks ts =
    count_fails p now
      (delete_if (λ e. ltb_ℤ (pos 0) e.until && ltb_ℤ e.until (now -ℤ pos 3600)) locks) ts
