-- ===== src/Supervisor/Events.antt =====
-- The supervisor under its event loop: every call and every stretch of a task as one event. The
-- guards say when a task can run that stretch: a cancelled boot runs no more of its body, and the
-- stop task waits for the boot.
use android_appliance.Base.{
  ℕ, suc, Option, none, some, List, [], ◌∷◌, Bool, true, false, ◌==◌, is_some, if◌then◌else◌,
}
use android_appliance.Base.Int.{ℤ}
use android_appliance.Supervisor.Types.{
  stopped, boot_failed, internal_kind, Failure, Phase, launching, connecting, unmade, Boot, no_boot,
  clearing, active, ended, Stopping, Emu, Store, Config, Sup, Fault, no_fault,
}
use android_appliance.Supervisor.Activity.{touch_activity}
use android_appliance.Supervisor.Lifecycle.{
  boot_completed, boot_failure, fail, teardown, stop_finally, watch, idle_check,
}
use android_appliance.Supervisor.Requests.{
  start, background_start, stop, restart, lease_enter, lease_leave, every, shutdown, shutdown_end,
}

pub data Event : Type 0 where
  starts restarts lease_enters lease_leaves : Bool → Event
  background_runs stops registers shuts_down shutdown_ends touches idle_checks : Event
  clears : Fault → Event
  phases : Phase → Event
  gpu_ready : Bool → Event
  launches connects completes breaks watcher_fires : Event
  fails : Failure → Event
  qemu_exits : ℤ → Bool → Bool → Event
  stop_ends : Fault → Event

abbrev pub is_active : Boot → Bool
is_active active = true
is_active _ = false

abbrev pub is_clearing : Boot → Bool
is_clearing clearing = true
is_clearing _ = false

-- A boot that still runs its body.
abbrev pub is_live : Boot → Bool
is_live clearing = true
is_live active = true
is_live _ = false

abbrev pub internal_failure : Failure
internal_failure = record { kind = internal_kind; exit_status = none; code = boot_failed }

abbrev pub clean : Fault → Bool
clean no_fault = true
clean _ = false

-- `_boot` of a retry: the crashed boot ended, and its leftovers go away before the launch.
unfoldable pub boot_clear : ℕ → Fault → Sup → Sup
unfolding teardown fail
boot_clear now f s =
    let t = teardown f s in
    if clean f then record t { boot_task = active } else fail true now internal_failure t

-- `emulator.launch` returned; the watcher starts.
unfoldable pub emulator_launched : ℕ → Sup → Sup
emulator_launched now s = record s {
  emu = some (record { pid = s.next_pid; returncode = none; hang = false; fatal = false });
  next_pid = suc s.next_pid;
  launched_at = some now;
  watcher = some s.next_pid;
  phase = some connecting;
}

-- The process ends, by itself or by a kill.
abbrev pub exit_of : ℤ → Bool → Bool → Option Emu → Option Emu
exit_of code h f none = none
exit_of code h f (some e) =
    if is_some e.returncode
    then some e
    else some (record e { returncode = some code; hang = h; fatal = f })

abbrev pub watcher_of : Option ℕ → Emu → Bool
watcher_of none e = false
watcher_of (some i) e = e.pid == i

-- The watcher of an emulator that exited; the task ends with this.
abbrev pub fire_with : ℕ → Emu → Option ℤ → Sup → Sup
fire_with now e none s = s
fire_with now e (some code) s =
    if watcher_of s.watcher e then watch now e code (record s { watcher = none }) else s

abbrev pub fire : ℕ → Option Emu → Sup → Sup
fire now none s = s
fire now (some e) s = fire_with now e e.returncode s

-- The stop task after the boot ended.
abbrev pub stop_body : Fault → Option Stopping → Sup → Sup
stop_body f none s = s
stop_body f (some t) s = stop_finally t.done t.error (teardown f (record s { boot_task = ended }))

unfoldable pub step : ℕ → Event → Sup → Sup
unfolding start background_start stop restart lease_enter lease_leave every shutdown shutdown_end
    touch_activity idle_check boot_clear emulator_launched boot_completed boot_failure fail watch
    teardown stop_finally
step now (starts wait) s = (start now wait s).0
step now (restarts wait) s = (restart now wait s).0
step now (lease_enters wake) s = (lease_enter wake s).0
step now (lease_leaves used) s = lease_leave now used s
step now background_runs s = if s.background == 0 then s else background_start s
step now stops s = stop s
step now registers s = every s
step now shuts_down s = shutdown s
step now shutdown_ends s = shutdown_end s
step now touches s = touch_activity now s
step now idle_checks s = if s.job_tasks == 0 then s else idle_check now s
step now (clears f) s = if is_clearing s.boot_task then boot_clear now f s else s
step now (phases p) s = if is_active s.boot_task then record s { phase = some p } else s
step now (gpu_ready x) s =
    if is_active s.boot_task then record s { xvnc = x; phase = some launching } else s
step now launches s = if is_active s.boot_task then emulator_launched now s else s
step now connects s = if is_active s.boot_task then record s { grpc = true } else s
step now completes s = if is_active s.boot_task then boot_completed now s else s
step now breaks s = if is_active s.boot_task then fail true now internal_failure s else s
step now (fails f) s = if is_active s.boot_task then boot_failure now f s else s
step now (qemu_exits code h f) s = record s { emu = exit_of code h f s.emu }
step now watcher_fires s = fire now s.emu s
step now (stop_ends f) s = if is_live s.boot_task then s else stop_body f s.stop_task s

-- A history: each event with the time at which it happens.
unfoldable pub run : Sup → List (ℕ × Event) → Sup
run s [] = s
run s ((now, e) ∷ es) = run (step now e s) es

-- self._activity or 0.0
abbrev saved_at : Option ℕ → ℕ
saved_at none = 0
saved_at (some t) = t

unfoldable pub init : Config → Store → Sup
init cfg store = record {
  cfg = cfg;
  state = stopped;
  phase = none;
  last_error = none;
  grpc = false;
  emu = none;
  xvnc = false;
  boot_task = no_boot;
  boot_done = none;
  stop_task = none;
  watcher = none;
  jobs = 1;
  job_tasks = 0;
  background = 0;
  leases = 0;
  launched_at = none;
  running_since = none;
  retried = false;
  closing = false;
  activity = store.activity;
  activity_saved = saved_at store.activity;
  store = store;
  futures = λ _. unmade;
  next_future = 0;
  next_pid = 0;
}
