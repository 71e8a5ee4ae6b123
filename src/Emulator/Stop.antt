-- ===== src/Emulator/Stop.antt =====
-- The end of qemu, and the Xvnc of the GPU.
use android_appliance.Base.{
  ℕ, ◌+◌, ◌≤◌, ◌≡◌, ◌↔◌, ◌⊎◌, Option, none, some, Bool, true, false, ◌&&◌, ◌||◌, not, List, [], ◌∷◌,
  arith, is_some,
}
use android_appliance.Base.Text.{Text}
use android_appliance.Emulator.Process.{
  Gpu, host, Glx, resolved, launch_error, raised, setup_gpu, is_host, Action, syncs, emu_kills,
  terms, kills, waits, aborts, Command, accepts, adb_error, os_error, Looks, stop_actions,
}

-- What a step of the escalation may come after: the sync before `emu kill`, that before SIGTERM,
-- that before SIGKILL, each at most once, and the waits for the exit.
pub data Stage : Type 0 where
  begins synced asked termed killed : Stage

abbrev pub stage_after : Stage → Action → Option Stage
stage_after begins syncs = some synced
stage_after begins emu_kills = some asked
stage_after synced emu_kills = some asked
stage_after begins terms = some termed
stage_after synced terms = some termed
stage_after asked terms = some termed
stage_after termed kills = some killed
stage_after s (waits n) = some s
stage_after s aborts = some s
stage_after _ _ = none

abbrev pub escalates : Option Stage → List Action → Option Stage
escalates s [] = s
escalates none (a ∷ as') = none
escalates (some s) (a ∷ as') = escalates (stage_after s a) as'

abbrev pub waited : List Action → ℕ
waited [] = 0
waited (waits n ∷ as') = n + waited as'
waited (_ ∷ as') = waited as'

-- Whether an exception ends the stop: the sync that cannot be started, or an `emu kill` that fails
-- otherwise than by its timeout.
abbrev pub is_os_error : Command → Bool
is_os_error os_error = true
is_os_error _ = false

abbrev pub fails : Command → Bool
fails os_error = true
fails adb_error = true
fails _ = false

abbrev pub is_accepted : Command → Bool
is_accepted accepts = true
is_accepted _ = false

abbrev pub is_cut : Command → Command → Looks → Bool
is_cut sync kill l = not l.at_start && is_os_error sync || not l.after_sync && fails kill

-- qemu was found gone at a look that ends the escalation.
abbrev pub is_gone : Command → Looks → Bool
is_gone kill l =
    l.before_term || l.after_term || not l.after_sync && is_accepted kill && l.after_emu_kill

-- Every stop sends `emu kill`, SIGTERM and SIGKILL in this order and each at most once, and waits
-- for at most 105 seconds, its commands of adb included, if each of them ends with its timeout. Unless
-- adb cannot be started or `emu kill` fails with an error other than its timeout, which ends the stop,
-- or qemu was found gone before SIGTERM, after it or after an accepted `emu kill`, SIGKILL has been
-- sent.
pub stop_escalates :
    (sync kill : Command) (l : Looks)
    → (is_some (escalates (some begins) (stop_actions sync kill l)) ≡ true)
      × (waited (stop_actions sync kill l) ≤ 105)
      × ((is_cut sync kill l ≡ true)
          ⊎ (is_gone kill l ≡ true)
          ⊎ (escalates (some begins) (stop_actions sync kill l) ≡ some killed))
unfolding stop_actions
stop_escalates sync kill l = ground arith

-- After the GPU is resolved an Xvnc runs exactly if it is handed over with the mode `host`; and with
-- APPLIANCE_GPU=host the result is `host` or an error, never another mode.
setup_gpu_lem :
    (is_software : Text → Bool) (g : Gpu) (path : Option Text) (starts : Bool) (glx : Glx)
    → let (r, runs) = setup_gpu is_software g path starts glx in
      ((runs ≡ true) ↔ (r ≡ resolved host true))
      × ((is_host g ≡ false) ⊎ (r ≡ resolved host true) ⊎ (r ≡ launch_error) ⊎ (r ≡ raised))
unfolding setup_gpu
setup_gpu_lem is_software g path starts glx = ground arith
