-- ===== src/Supervisor/Progress.antt =====
-- A boot is never forgotten: while Android starts, the boot runs or the exit of qemu is due.
use android_appliance.Base.{
  ℕ, suc, ◌-◌, ◌≡◌, refl, ◌⊎◌, inl, inr, Option, none, some, List, [], ◌∷◌, Bool, true, false, ◌&&◌,
  arith, is_some, Bool-cases,
}
use android_appliance.Base.Int.{ℤ}
use android_appliance.Supervisor.Types.{
  stopped, starting, stopping, Code, clearing, Store, Config, Sup, Failure, Fault, Emu, conflict,
  renderer_kind, crash_kind,
}
use android_appliance.Supervisor.Activity.{touch_activity}
use android_appliance.Supervisor.Lifecycle.{
  is_up, watched, begin_stop, fail, retry, boot_completed, boot_failure, teardown, stop_finally,
  exited, watch, idle_check, exit_failure,
}
use android_appliance.Supervisor.Requests.{
  start_turn, start, background_start, stop, restart, lease_enter, lease_leave, every, shutdown,
  shutdown_end,
}
use android_appliance.Supervisor.Events.{
  Event, starts, restarts, lease_enters, lease_leaves, background_runs, stops, registers,
  shuts_down, shutdown_ends, touches, idle_checks, clears, phases, gpu_ready, launches, connects,
  completes, breaks, watcher_fires, fails, qemu_exits, stop_ends, internal_failure, fire, fire_with,
  watcher_of, clean, is_live, is_clearing, boot_clear, emulator_launched, step, run, init,
}
use android_appliance.Supervisor.Invariant.{Inv, init-Inv, step-Inv}

-- The emulator, if there is one, has its watcher.
abbrev pub is_watched : Option ℕ → Option Emu → Bool
is_watched w none = true
is_watched w (some e) = watcher_of w e

-- The watcher of an emulator that exited has yet to run.
abbrev pub is_due : Option ℕ → Option Emu → Bool
is_due w none = false
is_due w (some e) = is_some e.returncode && watcher_of w e

pub record Clean (s : Sup) : Type 0 where
  pub stopped_gone : s.state ≡ stopped → s.emu ≡ none
  pub up_watched :
      is_up s.state ≡ true → is_clearing s.boot_task ≡ false → is_watched s.watcher s.emu ≡ true
  pub progress : s.state ≡ starting → (is_live s.boot_task ≡ true) ⊎ (is_due s.watcher s.emu ≡ true)

-- The teardown of a stop comes to its end.
abbrev pub IsClean : Event → Type 0
IsClean (stop_ends f) = clean f ≡ true
IsClean _ = Unit {0}

start_turn-Clean : (wait : Bool) (s : Sup) → Clean s → Clean (start_turn wait s).0
unfolding start_turn
start_turn-Clean true s h = ground arith
start_turn-Clean false s h = ground arith

touch-Clean : (now : ℕ) (s : Sup) → Clean s → Clean (touch_activity now s)
unfolding touch_activity
touch-Clean now s h = ground arith

stop-Clean : (s : Sup) → Clean s → Clean (stop s)
unfolding stop
stop-Clean s h = ground arith

restart-Clean : (now : ℕ) (wait : Bool) (s : Sup) → Clean s → Clean (restart now wait s).0
unfolding restart
restart-Clean now true s h = start_turn-Clean true _ (stop-Clean _ (touch-Clean now s h))
restart-Clean now false s h = ground (arith, stop-Clean _ (touch-Clean now s h))

fail-Clean : (b : Bool) (now : ℕ) (f : Failure) (s : Sup) → Clean (fail b now f s)
unfolding fail
fail-Clean true now f s = ground arith
fail-Clean false now f s = ground arith

begin_stop-Clean : (c : Code) (s : Sup) → Clean (begin_stop false c s)
unfolding begin_stop
begin_stop-Clean c s = ground arith

retry-Clean : (now : ℕ) (f : Failure) (s : Sup) → Clean (retry now f s)
unfolding retry
retry-Clean now f s = ground arith

exited-Clean : (now : ℕ) (e : Emu) (code : ℤ) (s : Sup) → Clean (exited now e code s)
unfolding exited
exited-Clean now e code s =
    let crash = exit_failure crash_kind code in
    ground (
      arith,
      fail-Clean false now (exit_failure renderer_kind code) s,
      begin_stop-Clean conflict s,
      fail-Clean false now crash s,
      retry-Clean now crash s,
    )

boot_clear-Clean : (now : ℕ) (f : Fault) (s : Sup) → s.state ≡ starting → Clean (boot_clear now f s)
unfolding boot_clear
boot_clear-Clean now f s e = ground arith

-- Android is not up, and then nothing is asked of the emulator but that a stopped one is gone.
down-Clean :
    (s : Sup) (w : Option ℕ) → is_up s.state ≡ false → Clean s → Clean (record s { watcher = w })
down-Clean s w d h = ground arith

watch-Clean :
    (now : ℕ) (e : Emu) (code : ℤ) (s : Sup)
    → s.emu ≡ some e
    → (is_up s.state ≡ false → Clean s)
    → Clean (watch now e code s)
unfolding watch
watch-Clean now e code s p down =
    let current : watched s.emu e.pid ≡ true = ground arith in
    elim (Bool-cases (is_up s.state)) [
      | inl up ↦ rw (current, up) (exited-Clean now e code s)
      | inr d ↦ rw (current, d) (down d)
    ]

fire_with-Clean :
    (now : ℕ) (e : Emu) (c : Option ℤ) (s : Sup)
    → s.emu ≡ some e
    → Clean s
    → Clean (fire_with now e c s)
fire_with-Clean now e none s p h = h
fire_with-Clean now e (some code) s p h = elim (Bool-cases (watcher_of s.watcher e)) [
  | inl t ↦
      rw t (watch-Clean now e code (record s { watcher = none }) p (λ d. down-Clean s none d h))
  | inr f ↦ rw f h
]

fire-Clean : (now : ℕ) (s : Sup) (o : Option Emu) → s.emu ≡ o → Clean s → Clean (fire now o s)
fire-Clean now s none p h = h
fire-Clean now s (some e) p h = fire_with-Clean now e e.returncode s p h

step-Clean : (now : ℕ) (e : Event) (s : Sup) → IsClean e → Inv s → Clean s → Clean (step now e s)
unfolding step start background_start lease_enter lease_leave every shutdown shutdown_end
    touch_activity emulator_launched idle_check begin_stop boot_failure boot_completed stop_finally
    teardown
step-Clean now (starts wait) s c v h = start_turn-Clean wait _ (touch-Clean now s h)
step-Clean now (restarts wait) s c v h = restart-Clean now wait s h
step-Clean now (lease_enters true) s c v h =
    ground (arith, start_turn-Clean true (record s { leases = suc s.leases }))
step-Clean now (lease_enters false) s c v h = ground arith
step-Clean now (lease_leaves used) s c v h = ground arith
step-Clean now background_runs s c v h =
    ground (arith, start_turn-Clean false (record s { background = s.background - 1 }))
step-Clean now stops s c v h = stop-Clean s h
step-Clean now registers s c v h = ground arith
step-Clean now shuts_down s c v h = ground (arith, stop-Clean (record s { closing = true }))
step-Clean now shutdown_ends s c v h = ground arith
step-Clean now touches s c v h = ground arith
step-Clean now idle_checks s c v h = ground arith
step-Clean now (clears f) s c v h = ground (arith, boot_clear-Clean now f s)
step-Clean now (phases p) s c v h = ground arith
step-Clean now (gpu_ready x) s c v h = ground arith
step-Clean now launches s c v h = ground arith
step-Clean now connects s c v h = ground arith
step-Clean now completes s c v h = ground arith
step-Clean now breaks s c v h = ground (arith, fail-Clean true now internal_failure s)
step-Clean now (fails f) s c v h = ground (arith, fail-Clean true now f s)
step-Clean now (qemu_exits code a f) s c v h = ground arith
step-Clean now watcher_fires s c v h = fire-Clean now s s.emu refl h
step-Clean now (stop_ends f) s c v h = ground arith

abbrev pub AllClean : List (ℕ × Event) → Type 0
AllClean [] = Unit {0}
AllClean ((now, e) ∷ es) = IsClean e × AllClean es

run-Clean : (s : Sup) (es : List (ℕ × Event)) → AllClean es → Inv s → Clean s → Clean (run s es)
unfolding run
run-Clean s [] c v h = h
run-Clean s ((now, e) ∷ es) c v h =
    run-Clean (step now e s) es c.1 (step-Inv now e s v) (step-Clean now e s c.0 v h)

init-Clean : (cfg : Config) (store : Store) → Clean (init cfg store)
unfolding init
init-Clean cfg store = ground arith

-- Where the exit of qemu is due, the watcher ends the start or boots again.
fire_acts :
    (now : ℕ) (s : Sup)
    → s.state ≡ starting
    → is_due s.watcher s.emu ≡ true
    → let t = fire now s.emu s in
      (t.state ≡ stopping) ⊎ ((t.state ≡ starting) × (t.boot_task ≡ clearing))
unfolding watch exited begin_stop fail retry
fire_acts now s e d = ground arith

-- After any history in which the teardown of each stop came to its end, a start in progress is in
-- hand: the boot still runs, or the watcher of an emulator that exited is due, and when that runs
-- it stops Android or boots again.
pub start_in_hand :
    (cfg : Config) (store : Store) (es : List (ℕ × Event)) (now : ℕ)
    → AllClean es
    → let s = run (init cfg store) es in
      let t = step now watcher_fires s in
      s.state ≡ starting
      → (is_live s.boot_task ≡ true)
        ⊎ ((is_due s.watcher s.emu ≡ true)
            × ((t.state ≡ stopping) ⊎ ((t.state ≡ starting) × (t.boot_task ≡ clearing))))
unfolding step
start_in_hand cfg store es now c e =
    let h = run-Clean _ es c (init-Inv cfg store) (init-Clean cfg store) in
    elim (h.progress e) [
      | inl live ↦ inl live
      | inr due ↦ inr (due, fire_acts now (run (init cfg store) es) e due)
    ]
