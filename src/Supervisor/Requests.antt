-- ===== src/Supervisor/Requests.antt =====
-- Requests: start, stop, restart, wait, lease, every and shutdown (supervisor.py). A call that
-- waits is cut at its waits: a `Turn` says what the caller gets or waits for next.
use android_appliance.Base.{ℕ, suc, ◌-◌, Option, none, some, Bool, true, false, if◌then◌else◌}
use android_appliance.Supervisor.Types.{
  State, stopped, starting, running, stopping, Code, timeout, conflict, unavailable, Fut, unmade,
  pending, resolved, failed, Sup,
}
use android_appliance.Supervisor.Activity.{touch_activity, save_activity}
use android_appliance.Supervisor.Lifecycle.{is_up, is_running, begin_boot, begin_stop}

pub data Turn : Type 0 where
  returns : Turn
  raises : Code → Turn
  -- The caller waits for the stop task, and then goes round the loop of `_start` again.
  waits_stop : Turn
  -- The caller waits for the boot future.
  joins : Option ℕ → Turn

abbrev join_if : Bool → Sup → Turn
join_if true s = joins s.boot_done
join_if false s = returns

-- The `match` of `_start`.
abbrev start_in : State → Bool → Sup → Sup × Turn
start_in running wait s = (s, returns)
start_in stopping true s = (s, waits_stop)
start_in stopping false s = (record s { background = suc s.background }, returns)
start_in stopped wait s = let t = begin_boot s in (t, join_if wait t)
start_in starting wait s = (s, join_if wait s)

-- One round of the loop of `_start`.
unfoldable pub start_turn : Bool → Sup → Sup × Turn
unfolding begin_boot
start_turn wait s = if s.closing then (s, raises unavailable) else start_in s.state wait s

unfoldable pub start : ℕ → Bool → Sup → Sup × Turn
unfolding touch_activity start_turn
start now wait s = start_turn wait (touch_activity now s)

-- A task of `_spawn` runs; the task ends, whatever the round does.
unfoldable pub background_start : Sup → Sup
unfolding start_turn
background_start s = (start_turn false (record s { background = s.background - 1 })).0

unfoldable pub stop : Sup → Sup
unfolding begin_stop
stop s = if is_up s.state then begin_stop false conflict s else s

unfoldable pub restart : ℕ → Bool → Sup → Sup × Turn
unfolding touch_activity stop start_turn
restart now wait s =
    let t = stop (touch_activity now s) in
    if wait then start_turn true t else (record t { background = suc t.background }, returns)

abbrev wait_in : State → Sup → Turn
wait_in running s = returns
wait_in starting s = joins s.boot_done
wait_in stopped s = raises conflict
wait_in stopping s = raises conflict

-- `wait`, up to its wait for the boot.
unfoldable pub wait_turn : Sup → Turn
wait_turn s = wait_in s.state s

-- `_join_boot` when the wait for the future ended or timed out; `none` is that neither happened.
unfoldable pub join_boot : Bool → Fut → Option Turn
join_boot timed_out resolved = some returns
join_boot timed_out (failed c) = some (raises c)
join_boot true pending = some (raises timeout)
join_boot false pending = none
join_boot true unmade = some (raises timeout)
join_boot false unmade = none

-- The first part of `lease`, up to the wait of the start.
unfoldable pub lease_enter : Bool → Sup → Sup × Turn
unfolding start_turn
lease_enter wake s =
    let t = record s { leases = suc s.leases } in
    if wake
    then start_turn true t
    else if is_running t.state
    then (t, returns)
    else (t, raises conflict)

-- Whether the body of the lease runs after that.
unfoldable pub lease_admit : Sup → Turn
lease_admit s = if s.grpc then returns else raises unavailable

-- The end of `lease`: `used` says that the body ended normally in a lease with `wake`.
unfoldable pub lease_leave : ℕ → Bool → Sup → Sup
unfolding touch_activity
lease_leave now used s =
    let t = if used then touch_activity now s else s in record t { leases = t.leases - 1 }

unfoldable pub every : Sup → Sup
every s = record s {
  jobs = suc s.jobs;
  job_tasks = if is_running s.state then suc s.job_tasks else s.job_tasks;
}

-- Up to the wait for the stop.
unfoldable pub shutdown : Sup → Sup
unfolding stop
shutdown s = stop (record s { closing = true })

-- After that wait; the adb server is then killed.
unfoldable pub shutdown_end : Sup → Sup
unfolding save_activity
shutdown_end s = save_activity s
