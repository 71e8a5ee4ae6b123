-- ===== src/Examples/Supervisor.antt =====
-- Histories of the supervisor: a boot, a crash that is booted again, a stop, a leftover emulator.
use android_appliance.Base.{◌↔◌}
use android_appliance.Supervisor.Device.{unauthorized, other_state, not_authorized, wait_device}
use android_appliance.Supervisor.Authorized.{Answers, HasRun, wait_device_iff}
use android_appliance.Base.{
  ℕ, ◌<◌, ◌≡◌, refl, ◌≢◌, ◌⊎◌, none, some, List, [], ◌∷◌, ◌++◌, true, false, arith,
}
use android_appliance.Base.Int.{pos, negsuc}
use android_appliance.Supervisor.Types.{
  stopped, starting, running, stopping, unavailable, pending, unmade, resolved, clearing, active,
  Config, Store, at_emu_stop, Failure, adb_kind, boot_failed, Emu,
}
use android_appliance.Supervisor.Requests.{raises, start_turn}
use android_appliance.Supervisor.Events.{
  Event, starts, restarts, stops, shuts_down, launches, connects, completes, qemu_exits,
  watcher_fires, stop_ends, is_live, step, run, init,
}
use android_appliance.Supervisor.Invariant.{Inv, future_at, init-Inv, step-Inv, run-Inv}
use android_appliance.Supervisor.Waiters.{waiters_answered}
use android_appliance.Supervisor.Progress.{start_in_hand, is_due}
use android_appliance.Supervisor.Policy.{stop_ends_stopped, shutdown_final}

abbrev cfg : Config
cfg = record { idle_stop_seconds = 3600; settle = 30000000 }

abbrev store : Store
store = record { crashes = []; activity = none }

-- A boot that comes up at time 5.
abbrev booted : List (ℕ × Event)
booted = (1, starts true) ∷ (2, launches) ∷ (4, connects) ∷ (5, completes) ∷ []

boot_runs : (run (init cfg store) booted).state ≡ running
unfolding run step init
boot_runs = refl

-- qemu crashes right after the boot, and Android boots again.
abbrev crashed : List (ℕ × Event)
crashed = booted ++ (6, qemu_exits (negsuc 5) false false) ∷ (7, watcher_fires) ∷ []

crash_boots_again :
    let s = run (init cfg store) crashed in (s.state ≡ starting) × (s.boot_task ≡ clearing)
unfolding run step init
crash_boots_again = (refl, refl)

-- A stop whose teardown raises leaves the emulator, which then exits; the next start fails.
abbrev leftover : List (ℕ × Event)
leftover =
    booted
    ++ (6, stops)
      ∷ (7, stop_ends at_emu_stop)
      ∷ (8, qemu_exits (pos 0) false false)
      ∷ (9, watcher_fires)
      ∷ (10, starts true)
      ∷ []

abbrev stops_now : List (ℕ × Event)
stops_now = booted ++ (6, stops) ∷ []

crashed_waits : (run (init cfg store) crashed).futures 1 ≡ pending
unfolding run step init
crashed_waits = refl

waiters_answered_example :
    let s = run (init cfg store) crashed in
    (s.boot_done ≡ some 1) × ((s.state ≡ starting) ⊎ (s.state ≡ stopping))
waiters_answered_example = waiters_answered cfg store crashed 1 crashed_waits

booted_answer : (run (init cfg store) booted).futures 0 ≡ resolved
unfolding run step init
booted_answer = refl

booted_not_pending : (run (init cfg store) booted).futures 0 ≢ pending
booted_not_pending h = let r = booted_answer in cc

booted_not_unmade : (run (init cfg store) booted).futures 0 ≢ unmade
booted_not_unmade h = let r = booted_answer in cc

start_in_hand_example :
    let s = run (init cfg store) crashed in
    let t = step 9 watcher_fires s in
    (is_live s.boot_task ≡ true)
    ⊎ ((is_due s.watcher s.emu ≡ true)
        × ((t.state ≡ stopping) ⊎ ((t.state ≡ starting) × (t.boot_task ≡ clearing))))
start_in_hand_example =
    start_in_hand cfg store crashed 9 (tt, (tt, (tt, (tt, (tt, (tt, tt)))))) crash_boots_again.0

step-Inv_example : Inv (step 6 stops (run (init cfg store) booted))
step-Inv_example =
    step-Inv 6 stops (run (init cfg store) booted)
      (run-Inv (init cfg store) booted (init-Inv cfg store))

stopping_now : (run (init cfg store) stops_now).state ≡ stopping
unfolding run step init
stopping_now = refl

stopping-Inv : Inv (run (init cfg store) stops_now)
stopping-Inv = run-Inv (init cfg store) stops_now (init-Inv cfg store)

stop_ends_stopped_example :
    let t = step 9 (stop_ends at_emu_stop) (run (init cfg store) stops_now) in
    (t.state ≡ stopped)
    × (t.stop_task ≡ none)
    × (future_at t.futures t.boot_done ≢ pending)
    × (t.launched_at ≡ none)
stop_ends_stopped_example =
    stop_ends_stopped 9 at_emu_stop (run (init cfg store) stops_now) stopping-Inv stopping_now

abbrev dead : Emu
dead = record { pid = 0; returncode = some (pos 0); hang = false; fatal = false }

shutdown_final_example :
    let s = run (step 6 shuts_down (run (init cfg store) booted)) ((7, starts true) ∷ []) in
    ((s.state ≡ stopping) ⊎ (s.state ≡ stopped)) × ((start_turn true s).1 ≡ raises unavailable)
shutdown_final_example = shutdown_final cfg store booted ((7, starts true) ∷ []) 6 true

abbrev adb_failure : Failure
adb_failure = record { kind = adb_kind; exit_status = none; code = boot_failed }

abbrev old_emu : Emu
old_emu = record { pid = 0; returncode = some (pos 0); hang = false; fatal = false }

leftover_facts :
    let s = run (init cfg store) leftover in
    (s.state ≡ starting) × (s.boot_task ≡ active) × (s.emu ≡ some old_emu) × (s.watcher ≡ none)
unfolding run step init
leftover_facts = (refl, refl, refl, refl)

-- A restart that does not wait: the stop began, and a start waits in the background.
abbrev restarted : List (ℕ × Event)
restarted = booted ++ (6, restarts false) ∷ []

restarted_facts :
    let s = run (init cfg store) restarted in
    (s.state ≡ stopping) × (s.closing ≡ false) × (0 < s.background)
unfolding run step init
restarted_facts = (refl, refl, omega arith)

-- adb says "unauthorized" for 31 seconds.
abbrev locked_out : Answers
locked_out =
    (1000000, other_state)
    ∷ (2000000, unauthorized)
    ∷ (3000000, unauthorized)
    ∷ (33000000, unauthorized)
    ∷ []

locked_out_fails : wait_device none locked_out ≡ not_authorized
unfolding wait_device
locked_out_fails = refl

wait_device_iff_example : (wait_device none locked_out ≡ not_authorized) ↔ HasRun locked_out
wait_device_iff_example =
    wait_device_iff locked_out (omega arith, (omega arith, (omega arith, (omega arith, tt))))
