-- ===== src/Supervisor/Lifecycle.antt =====
-- The internal transitions of the state machine (supervisor.py: _begin_boot, _begin_stop, _boot,
-- _fail, _settling, _retry, _stop, _teardown, _watch, _exited, _idle_check). Each function is one
-- stretch of a coroutine between two waits.
use android_appliance.Base.{
  ℕ, suc, ◌-◌, Option, none, some, Bool, true, false, not, ◌&&◌, ◌||◌, ltb, leb, ◌==◌, is_some,
  if◌then◌else◌,
}
use android_appliance.Base.Int.{ℤ, is_zero_ℤ}
use android_appliance.Supervisor.Types.{
  State, stopped, starting, running, stopping, Code, conflict, Kind, renderer_kind, crash_kind,
  Failure, preparing, restarting, Fut, pending, resolved, failed, Boot, clearing, active, unwinding,
  ended, Emu, Sup, Fault, no_fault, at_emu_stop, at_grpc_close, at_xvnc_stop,
}
use android_appliance.Supervisor.Activity.{idle_seconds, save_activity, crash_of, record_failure}

abbrev pub is_starting : State → Bool
is_starting starting = true
is_starting _ = false

abbrev pub is_running : State → Bool
is_running running = true
is_running _ = false

abbrev pub is_stopping : State → Bool
is_stopping stopping = true
is_stopping _ = false

-- self.state in (State.STARTING, State.RUNNING)
abbrev pub is_up : State → Bool
is_up starting = true
is_up running = true
is_up _ = false

abbrev pub is_done : Fut → Bool
is_done pending = false
is_done _ = true

abbrev pub put_future : ℕ → Fut → (ℕ → Fut) → ℕ → Fut
put_future i v futures j = if i == j then v else futures j

-- _new_boot_future, stored in _boot_done
unfoldable pub new_boot_future : Sup → Sup
new_boot_future s = record s {
  boot_done = some s.next_future;
  futures = put_future s.next_future pending s.futures;
  next_future = suc s.next_future;
}

unfoldable pub begin_boot : Sup → Sup
unfolding new_boot_future
begin_boot s =
    let t = record s {
      state = starting;
      phase = some preparing;
      last_error = none;
      retried = false;
    } in
    record (new_boot_future t) { boot_task = active }

unfoldable pub cancel_jobs : Sup → Sup
cancel_jobs s = record s { job_tasks = 0 }

-- boot.cancel() on a boot that is not done
abbrev pub cancel_boot : Boot → Boot
cancel_boot clearing = unwinding
cancel_boot active = unwinding
cancel_boot b = b

-- `from_boot` says that the boot task itself makes the call; its code ends right after.
unfoldable pub begin_stop : Bool → Code → Sup → Sup
unfolding cancel_jobs
begin_stop from_boot error s =
    let t = cancel_jobs (record s { state = stopping; phase = none }) in
    record t {
      boot_task = if from_boot then ended else cancel_boot t.boot_task;
      stop_task = some (record { done = t.boot_done; error = error });
    }

unfoldable pub fail : Bool → ℕ → Failure → Sup → Sup
unfolding record_failure begin_stop
fail from_boot now f s =
    let t = record_failure now f false s in
    begin_stop from_boot f.code (record t { last_error = some (crash_of now f false) })

abbrev recent : ℕ → ℕ → Option ℕ → Bool
recent now settle none = false
recent now settle (some since) = ltb (now - since) settle

unfoldable pub settling : ℕ → Sup → Bool
settling now s = is_starting s.state || recent now s.cfg.settle s.running_since

-- self._boot_done is None or self._boot_done.done()
abbrev done_at : (ℕ → Fut) → Option ℕ → Bool
done_at futures none = true
done_at futures (some i) = is_done (futures i)

unfoldable pub retry : ℕ → Failure → Sup → Sup
unfolding record_failure cancel_jobs new_boot_future
retry now f s =
    let t = cancel_jobs (record_failure now f true (record s { retried = true })) in
    let u = record t { state = starting; phase = some restarting } in
    let v = if done_at u.futures u.boot_done then new_boot_future u else u in
    record v { boot_task = clearing }

-- `done.set_result(None)`; on a future that is done it raises, and nothing is set.
abbrev pub set_result : Option ℕ → Fut → Sup → Sup
set_result none v s = s
set_result (some i) v s =
    if is_done (s.futures i) then s else record s { futures = put_future i v s.futures }

-- The end of `_boot` after `_launch` returned; with no pending future it raises before the jobs.
unfoldable pub boot_completed : ℕ → Sup → Sup
boot_completed now s =
    let t = record s {
      phase = none;
      state = running;
      running_since = some now;
      boot_task = ended;
    } in
    if done_at t.futures t.boot_done
    then t
    else record (set_result t.boot_done resolved t) { job_tasks = t.jobs }

-- self._emu is None or self._emu.returncode is None
abbrev pub qemu_gone : Option Emu → Bool
qemu_gone none = false
qemu_gone (some e) = is_some e.returncode

-- `except _Failure` of `_boot`: where qemu is gone, the watcher decides.
unfoldable pub boot_failure : ℕ → Failure → Sup → Sup
unfolding fail
boot_failure now f s = if qemu_gone s.emu then record s { boot_task = ended } else fail true now f s

-- Each field goes away after the call before it returned.
unfoldable pub teardown : Fault → Sup → Sup
teardown at_emu_stop s = s
teardown at_grpc_close s = record s { watcher = none }
teardown at_xvnc_stop s = record s { watcher = none; grpc = false }
teardown no_fault s = record s { watcher = none; grpc = false; xvnc = false; emu = none }

-- The `finally` block of `_stop`; the waiter gets the error if the future is not done.
unfoldable pub stop_finally : Option ℕ → Code → Sup → Sup
unfolding save_activity
stop_finally done error s =
    let t = record s {
      state = stopped;
      phase = none;
      launched_at = none;
      running_since = none;
      stop_task = none;
    } in
    save_activity (set_result done (failed error) t)

-- The failure of an exit, with the API code that a _Failure has by default.
abbrev pub exit_failure : Kind → ℤ → Failure
exit_failure k code = record { kind = k; exit_status = some code; code = Code.boot_failed }

-- `_exited`, for the exit code of an emulator that is current.
unfoldable pub exited : ℕ → Emu → ℤ → Sup → Sup
unfolding fail begin_stop retry settling
exited now e code s =
    if e.hang
    then fail false now (exit_failure renderer_kind code) s
    else if is_zero_ℤ code && not e.fatal
    then begin_stop false conflict s
    else if e.fatal || s.retried || not (settling now s)
    then fail false now (exit_failure crash_kind code) s
    else retry now (exit_failure crash_kind code) s

abbrev pub watched : Option Emu → ℕ → Bool
watched none i = false
watched (some e) i = e.pid == i

-- `_watch` after the emulator `e` exited with `code`.
unfoldable pub watch : ℕ → Emu → ℤ → Sup → Sup
unfolding exited
watch now e code s = if watched s.emu e.pid && is_up s.state then exited now e code s else s

unfoldable pub idle_check : ℕ → Sup → Sup
unfolding idle_seconds begin_stop
idle_check now s =
    if s.cfg.idle_stop_seconds == 0 || not (s.leases == 0) || not (is_running s.state)
    then s
    else if leb s.cfg.idle_stop_seconds (idle_seconds now s)
    then begin_stop false conflict s
    else s
