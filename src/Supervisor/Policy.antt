-- ===== src/Supervisor/Policy.antt =====
-- What the supervisor decides: when a stop ends, when a crash is booted again, when an idle
-- Android is stopped, and that a shutdown is final.
use android_appliance.Base.{
  ℕ, suc, ◌-◌, ◌≤◌, ◌<◌, ◌≡◌, refl, ◌≢◌, ◌↔◌, ◌⊎◌, Option, none, some, List, [], ◌∷◌, Bool, true,
  false, ◌&&◌, not, arith, is_some, sym, ◌∙◌, subst,
}
use android_appliance.Base.Int.{ℤ, is_zero_ℤ}
use android_appliance.Supervisor.Types.{
  conflict, stopped, starting, running, stopping, clearing, active, pending, Store, Config, Sup,
  Failure, Fault, Emu, unavailable,
}
use android_appliance.Supervisor.Activity.{touch_activity, idle_seconds}
use android_appliance.Supervisor.Lifecycle.{
  begin_stop, fail, retry, settling, boot_failure, teardown, stop_finally, exited, watch,
  idle_check,
}
use android_appliance.Supervisor.Requests.{
  raises, start_turn, start, background_start, stop, restart, lease_enter, lease_leave, every,
  shutdown, shutdown_end,
}
use android_appliance.Supervisor.Events.{
  Event, starts, restarts, lease_enters, lease_leaves, background_runs, stops, shuts_down,
  shutdown_ends, touches, idle_checks, watcher_fires, fails, stop_ends, fire, fire_with, is_live,
  emulator_launched, step, run, init,
}
use android_appliance.Supervisor.Invariant.{Inv, future_at, init-Inv, step-Inv, run-Inv}

-- Every stop that is under way ends: when the stop task gets its turn Android is stopped, whatever
-- the teardown did, no caller waits for the boot, and the stop task is gone.
pub stop_ends_stopped :
    (now : ℕ) (f : Fault) (s : Sup)
    → Inv s
    → s.state ≡ stopping
    → let t = step now (stop_ends f) s in
      (t.state ≡ stopped)
      × (t.stop_task ≡ none)
      × (future_at t.futures t.boot_done ≢ pending)
      × (t.launched_at ≡ none)
unfolding step teardown stop_finally
stop_ends_stopped now f s v e = ground arith

-- The exit of an emulator is booted again exactly if qemu did not hang, the exit is no power-off,
-- the log has no fatal line, this start was not retried before, and the crash came before the
-- boot settled; a power-off (status 0, no fatal line) stops and records nothing, and all else is
-- recorded as the last error and stops.
exited_cases :
    (now : ℕ) (e : Emu) (code : ℤ) (s : Sup)
    → let t = exited now e code s in
      let again =
        not e.hang && not e.fatal && not (is_zero_ℤ code) && not s.retried && settling now s in
      let powered_off = not e.hang && not e.fatal && is_zero_ℤ code in
      ((again ≡ true) × (t.state ≡ starting) × (t.boot_task ≡ clearing) × (t.retried ≡ true))
      ⊎ ((again ≡ false)
          × (powered_off ≡ true)
          × (t.state ≡ stopping)
          × (t.last_error ≡ s.last_error)
          × (t.store ≡ s.store))
      ⊎ ((again ≡ false)
          × (powered_off ≡ false)
          × (t.state ≡ stopping)
          × (is_some t.last_error ≡ true))
unfolding exited fail retry begin_stop
exited_cases now e code s = ground arith

-- The idle check stops Android exactly if a limit is set, no lease is held, Android runs and has
-- been idle for the limit; it changes nothing or begins a stop.
idle_check_iff :
    (now : ℕ) (s : Sup)
    → let t = idle_check now s in
      ((t.state ≢ s.state) ↔ (
        (0 < s.cfg.idle_stop_seconds)
        × (s.leases ≡ 0)
        × (s.state ≡ running)
        × (s.cfg.idle_stop_seconds ≤ idle_seconds now s)))
      × ((t ≡ s) ⊎ (t ≡ begin_stop false conflict s))
unfolding idle_check begin_stop
idle_check_iff now s = ((λ h. ground arith, λ h. ground arith), ground arith)

-- A daemon that shuts down.
abbrev IsFinal : Sup → Type 0
IsFinal s = (s.closing ≡ true) × ((s.state ≡ stopping) ⊎ (s.state ≡ stopped))

shutdown-IsFinal : (s : Sup) → IsFinal (shutdown s)
unfolding shutdown stop begin_stop
shutdown-IsFinal s = ground arith

start_turn-IsFinal : (wait : Bool) (s : Sup) → IsFinal s → IsFinal (start_turn wait s).0
unfolding start_turn
start_turn-IsFinal wait s h = ground arith

stop-IsFinal : (s : Sup) → IsFinal s → IsFinal (stop s)
unfolding stop
stop-IsFinal s h = ground arith

touch-IsFinal : (now : ℕ) (s : Sup) → IsFinal s → IsFinal (touch_activity now s)
unfolding touch_activity
touch-IsFinal now s h = ground arith

watch-IsFinal : (now : ℕ) (e : Emu) (code : ℤ) (s : Sup) → IsFinal s → IsFinal (watch now e code s)
unfolding watch
watch-IsFinal now e code s h = ground arith

fire-IsFinal : (now : ℕ) (s : Sup) (o : Option Emu) → IsFinal s → IsFinal (fire now o s)
fire-IsFinal now s none h = h
fire-IsFinal now s (some e) h = ground (arith, fire_with-IsFinal e.returncode)
  where
    fire_with-IsFinal : (c : Option ℤ) → IsFinal (fire_with now e c s)
    fire_with-IsFinal none = h
    fire_with-IsFinal (some code) =
        ground (arith, watch-IsFinal now e code (record s { watcher = none }) h)

step-IsFinal : (now : ℕ) (e : Event) (s : Sup) → Inv s → IsFinal s → IsFinal (step now e s)
unfolding step start restart background_start lease_enter lease_leave every shutdown shutdown_end
    emulator_launched idle_check stop_finally teardown
step-IsFinal now (starts wait) s v h =
    start_turn-IsFinal wait (touch_activity now s) (touch-IsFinal now s h)
step-IsFinal now (restarts true) s v h =
    start_turn-IsFinal true (stop (touch_activity now s))
      (stop-IsFinal (touch_activity now s) (touch-IsFinal now s h))
step-IsFinal now (restarts false) s v h =
    stop-IsFinal (touch_activity now s) (touch-IsFinal now s h)
step-IsFinal now (lease_enters wake) s v h =
    ground (arith, start_turn-IsFinal true (record s { leases = suc s.leases }))
step-IsFinal now (lease_leaves used) s v h = ground (arith, touch-IsFinal now s h)
step-IsFinal now background_runs s v h =
    ground (arith, start_turn-IsFinal false (record s { background = s.background - 1 }))
step-IsFinal now stops s v h = stop-IsFinal s h
step-IsFinal now shuts_down s v h = stop-IsFinal (record s { closing = true }) (refl, h.1)
step-IsFinal now shutdown_ends s v h = ground arith
step-IsFinal now touches s v h = touch-IsFinal now s h
step-IsFinal now watcher_fires s v h = fire-IsFinal now s s.emu h
step-IsFinal now (stop_ends f) s v h = ground arith
step-IsFinal now _ s v h = ground arith

run-IsFinal : (s : Sup) (es : List (ℕ × Event)) → Inv s → IsFinal s → IsFinal (run s es)
unfolding run
run-IsFinal s [] v h = h
run-IsFinal s ((now, e) ∷ es) v h =
    run-IsFinal (step now e s) es (step-Inv now e s v) (step-IsFinal now e s v h)

-- A shutdown is final: after it Android is stopping or stopped through any history, and a start
-- is refused.
pub shutdown_final :
    (cfg : Config) (store : Store) (before after : List (ℕ × Event)) (now : ℕ) (wait : Bool)
    → let s = run (step now shuts_down (run (init cfg store) before)) after in
      ((s.state ≡ stopping) ⊎ (s.state ≡ stopped)) × ((start_turn wait s).1 ≡ raises unavailable)
unfolding start_turn
shutdown_final cfg store before after now wait =
    let u = run (init cfg store) before in
    let v = run-Inv (init cfg store) before (init-Inv cfg store) in
    let h =
      run-IsFinal (step now shuts_down u) after (step-Inv now shuts_down u v)
        (unfold step in shutdown-IsFinal u) in
    (h.1, rw h.0)

-- A start that fails while an emulator of an earlier run is left and has exited: nobody acts on
-- the failure. The boot ends, Android stays in the starting state, and no task is left that would
-- answer the callers or stop Android: the watcher does nothing and the stop task is not there.
leftover_stalls :
    (now later : ℕ) (f : Failure) (e : Emu) (s : Sup)
    → Inv s
    → s.state ≡ starting
    → s.boot_task ≡ active
    → s.emu ≡ some e
    → is_some e.returncode ≡ true
    → s.watcher ≡ none
    → let t = step now (fails f) s in
      (t.state ≡ starting)
      × (is_live t.boot_task ≡ false)
      × (future_at t.futures t.boot_done ≡ pending)
      × (step later watcher_fires t ≡ t)
      × (step later (stop_ends Fault.no_fault) t ≡ t)
      × (step later idle_checks t ≡ t)
unfolding step boot_failure idle_check
leftover_stalls now later f e s v a b p q w = ground arith

-- While Android stops, a start in the background that does not wait puts another one in its place
-- and changes nothing else: it runs again and again until the stop ends.
background_spins :
    (now : ℕ) (s : Sup)
    → s.state ≡ stopping
    → s.closing ≡ false
    → (0 < s.background)
    → step now background_runs s ≡ s
unfolding step background_start start_turn
background_spins now s e c b = ground arith

restart-queues :
    (now : ℕ) (s : Sup)
    → s.state ≡ stopping
    → let t = step now (restarts false) s in
      (t.state ≡ stopping) × (t.closing ≡ s.closing) × (0 < t.background)
unfolding step restart touch_activity stop
restart-queues now s e = ground arith

stop_ends-queue :
    (now : ℕ) (f : Fault) (s : Sup)
    → Inv s
    → s.state ≡ stopping
    → let t = step now (stop_ends f) s in
      (t.state ≡ stopped) × (t.closing ≡ s.closing) × (t.background ≡ s.background)
unfolding step teardown stop_finally
stop_ends-queue now f s v e = ground arith

background-boots :
    (now : ℕ) (s : Sup)
    → s.state ≡ stopped
    → s.closing ≡ false
    → 0 < s.background
    → let t = step now background_runs s in (t.state ≡ starting) × (is_live t.boot_task ≡ true)
unfolding step background_start start_turn
background-boots now s e c b = ground arith

-- A restart that does not wait is not lost while Android stops: once the stop has ended, the start
-- in the background begins the boot.
restart_boots :
    (now later : ℕ) (f : Fault) (s : Sup)
    → Inv s
    → s.state ≡ stopping
    → s.closing ≡ false
    → let t = step later (stop_ends f) (step now (restarts false) s) in
      let u = step later background_runs t in
      (0 < t.background) × (u.state ≡ starting) × (is_live u.boot_task ≡ true)
restart_boots now later f s v e c =
    let (p, q, b) = restart-queues now s e in
    let (st, cl, bg) = stop_ends-queue later f _ (step-Inv now (restarts false) s v) p in
    let more = subst (λ n. 0 < n) (sym bg) b in
    let (x, y) = background-boots later _ st (cl ∙ q ∙ c) more in (more, x, y)
