-- ===== src/Supervisor/Invariant.antt =====
-- What holds of the supervisor between two events.
use android_appliance.Base.{
  ℕ, suc, ◌-◌, ◌<◌, ◌≡◌, ◌≢◌, ◌⊎◌, Option, none, some, List, [], ◌∷◌, Bool, true, false, arith,
  is_some,
}
use android_appliance.Base.Int.{ℤ}
use android_appliance.Supervisor.Types.{
  stopped, starting, running, stopping, Code, Fut, unmade, pending, resolved, Stopping, Store,
  Config, Sup, Failure, Fault, Emu, conflict, renderer_kind, crash_kind,
}
use android_appliance.Supervisor.Activity.{touch_activity}
use android_appliance.Supervisor.Lifecycle.{
  begin_stop, fail, retry, boot_completed, boot_failure, teardown, stop_finally, exited, watch,
  idle_check, exit_failure,
}
use android_appliance.Supervisor.Requests.{
  start_turn, start, background_start, stop, restart, lease_enter, lease_leave, every, shutdown,
  shutdown_end,
}
use android_appliance.Supervisor.Events.{
  Event, starts, restarts, lease_enters, lease_leaves, background_runs, stops, registers,
  shuts_down, shutdown_ends, touches, idle_checks, clears, phases, gpu_ready, launches, connects,
  completes, breaks, watcher_fires, fails, qemu_exits, stop_ends, internal_failure, fire, fire_with,
  is_live, boot_clear, emulator_launched, stop_body, step, run, init,
}

-- The future at an optional identifier.
abbrev pub future_at : (ℕ → Fut) → Option ℕ → Fut
future_at futures none = unmade
future_at futures (some i) = futures i

-- The stop task holds the current future.
abbrev pub Captured : Option ℕ → Option Stopping → Type 0
Captured future none = Unit {0}
Captured future (some t) = t.done ≡ future

pub record Inv (s : Sup) : Type 0 where
  pub starting_pending : s.state ≡ starting → future_at s.futures s.boot_done ≡ pending
  pub running_resolved : s.state ≡ running → future_at s.futures s.boot_done ≡ resolved
  pub stopped_done : s.state ≡ stopped → future_at s.futures s.boot_done ≢ pending
  pub stopping_task : s.state ≡ stopping → is_some s.stop_task ≡ true
  pub task_stopping : is_some s.stop_task ≡ true → s.state ≡ stopping
  pub captured : Captured s.boot_done s.stop_task
  pub live_starting : is_live s.boot_task ≡ true → s.state ≡ starting
  pub jobs_running : 0 < s.job_tasks → s.state ≡ running

pub init-Inv : (cfg : Config) (store : Store) → Inv (init cfg store)
unfolding init
init-Inv cfg store = ground arith

begin_stop-Inv :
    (from_boot : Bool) (c : Code) (s : Sup)
    → Inv s
    → (s.state ≡ starting) ⊎ (s.state ≡ running)
    → Inv (begin_stop from_boot c s)
unfolding begin_stop
begin_stop-Inv true c s v up = ground arith
begin_stop-Inv false c s v up = ground arith

pub stop-Inv : (s : Sup) → Inv s → Inv (stop s)
unfolding stop
stop-Inv s v = ground arith

start_turn-Inv : (wait : Bool) (s : Sup) → Inv s → Inv (start_turn wait s).0
unfolding start_turn
start_turn-Inv true s v = ground arith
start_turn-Inv false s v = ground arith

pub touch_activity-Inv : (now : ℕ) (s : Sup) → Inv s → Inv (touch_activity now s)
unfolding touch_activity
touch_activity-Inv now s v = ground arith

restart-Inv : (now : ℕ) (wait : Bool) (s : Sup) → Inv s → Inv (restart now wait s).0
unfolding restart
restart-Inv now true s v = start_turn-Inv true _ (stop-Inv _ (touch_activity-Inv now s v))
restart-Inv now false s v =
    let w = stop-Inv _ (touch_activity-Inv now s v) in
    record {
      starting_pending = w.starting_pending;
      running_resolved = w.running_resolved;
      stopped_done = w.stopped_done;
      stopping_task = w.stopping_task;
      task_stopping = w.task_stopping;
      captured = w.captured;
      live_starting = w.live_starting;
      jobs_running = w.jobs_running;
    }

fail-Inv :
    (from_boot : Bool) (now : ℕ) (f : Failure) (s : Sup)
    → Inv s
    → (s.state ≡ starting) ⊎ (s.state ≡ running)
    → Inv (fail from_boot now f s)
unfolding fail
fail-Inv true now f s v up = ground arith
fail-Inv false now f s v up = ground arith

retry-Inv :
    (now : ℕ) (f : Failure) (s : Sup)
    → Inv s
    → (s.state ≡ starting) ⊎ (s.state ≡ running)
    → Inv (retry now f s)
unfolding retry
retry-Inv now f s v up = ground arith

boot_completed-Inv : (now : ℕ) (s : Sup) → Inv s → s.state ≡ starting → Inv (boot_completed now s)
unfolding boot_completed
boot_completed-Inv now s v up = ground arith

boot_failure-Inv :
    (now : ℕ) (f : Failure) (s : Sup) → Inv s → s.state ≡ starting → Inv (boot_failure now f s)
unfolding boot_failure
boot_failure-Inv now f s v up = ground arith

boot_clear-Inv :
    (now : ℕ) (f : Fault) (s : Sup) → Inv s → s.state ≡ starting → Inv (boot_clear now f s)
unfolding boot_clear
boot_clear-Inv now f s v up = ground arith

exited-Inv :
    (now : ℕ) (e : Emu) (code : ℤ) (s : Sup)
    → Inv s
    → (s.state ≡ starting) ⊎ (s.state ≡ running)
    → Inv (exited now e code s)
unfolding exited
exited-Inv now e code s v up =
    let crash = exit_failure crash_kind code in
    ground (
      arith,
      fail-Inv false now (exit_failure renderer_kind code) s v up,
      begin_stop-Inv false conflict s v up,
      fail-Inv false now crash s v up,
      retry-Inv now crash s v up,
    )

stop_body-Inv :
    (f : Fault) (s : Sup) → Inv s → is_live s.boot_task ≡ false → Inv (stop_body f s.stop_task s)
unfolding teardown stop_finally
stop_body-Inv f s v quiet = ground arith

idle_check-Inv : (now : ℕ) (s : Sup) → Inv s → Inv (idle_check now s)
unfolding idle_check
idle_check-Inv now s v = ground arith

fire-Inv : (now : ℕ) (s : Sup) → Inv s → Inv (fire now s.emu s)
unfolding watch
fire-Inv now s v = fire_at s.emu
  where
    quiet : Inv (record s { watcher = none })
    quiet = ground arith

    fire_some : (e : Emu) (c : Option ℤ) → Inv (fire_with now e c s)
    fire_some e none = v
    fire_some e (some code) =
        ground (arith, quiet, exited-Inv now e code (record s { watcher = none }) quiet)

    fire_at : (o : Option Emu) → Inv (fire now o s)
    fire_at none = v
    fire_at (some e) = fire_some e e.returncode

-- Every event, of a caller, of a task or of the emulator, keeps the invariant.
pub step-Inv : (now : ℕ) (e : Event) (s : Sup) → Inv s → Inv (step now e s)
unfolding step start background_start lease_enter lease_leave every shutdown shutdown_end
    touch_activity emulator_launched
step-Inv now (starts wait) s v = start_turn-Inv wait _ (touch_activity-Inv now s v)
step-Inv now (restarts wait) s v = restart-Inv now wait s v
step-Inv now (lease_enters true) s v =
    start_turn-Inv true (record s { leases = suc s.leases }) (ground arith)
step-Inv now (lease_enters false) s v = ground arith
step-Inv now (lease_leaves used) s v = ground arith
step-Inv now background_runs s v =
    ground (arith, start_turn-Inv false (record s { background = s.background - 1 }))
step-Inv now stops s v = stop-Inv s v
step-Inv now registers s v = ground arith
step-Inv now shuts_down s v = stop-Inv (record s { closing = true }) (ground arith)
step-Inv now shutdown_ends s v = ground arith
step-Inv now touches s v = ground arith
step-Inv now idle_checks s v = ground (arith, idle_check-Inv now s v)
step-Inv now (clears f) s v = ground (arith, boot_clear-Inv now f s v)
step-Inv now (phases p) s v = ground arith
step-Inv now (gpu_ready x) s v = ground arith
step-Inv now launches s v = ground arith
step-Inv now connects s v = ground arith
step-Inv now completes s v = ground (arith, boot_completed-Inv now s v)
step-Inv now breaks s v = ground (arith, fail-Inv true now internal_failure s v)
step-Inv now (fails f) s v = ground (arith, boot_failure-Inv now f s v)
step-Inv now (qemu_exits code h f) s v = ground arith
step-Inv now watcher_fires s v = fire-Inv now s v
step-Inv now (stop_ends f) s v = ground (arith, stop_body-Inv f s v)

pub run-Inv : (s : Sup) (es : List (ℕ × Event)) → Inv s → Inv (run s es)
unfolding run
run-Inv s [] v = v
run-Inv s ((now, e) ∷ es) v = run-Inv (step now e s) es (step-Inv now e s v)
