-- ===== src/Examples/Emulator.antt =====
-- The log of qemu and its stop at concrete inputs.
use android_appliance.Base.{
  ℕ, ◌≤◌, ◌≡◌, refl, ◌⊎◌, inl, inr, none, some, List, [], ◌∷◌, Bool, true, false, is_some,
}
use android_appliance.Base.Text.{Text, codes, has_infix}
use android_appliance.Emulator.Log.{Look, no_watch, watch_log, watch_round, first_hang, cut_lines}
use android_appliance.Emulator.LogLaws.{heard, watch_log_lem}
use android_appliance.Emulator.Process.{Looks, stop_actions, accepts, expires, adb_error}
use android_appliance.Emulator.Stop.{escalates, begins, asked, killed, waited, stop_escalates}

abbrev is_fatal : Text → Bool
is_fatal line = has_infix (codes "FATAL") line

abbrev look : Text → Bool → Bool → Look
look c stopping exited = record { chunk = c; stopping = stopping; exited = exited }

-- A stop begins in the last round.
abbrev looks : List Look
looks =
    look (codes "start\nFA") false false
    ∷ look (codes "TAL: no") false false
    ∷ look (codes " display\nFATAL: late\n") false false
    ∷ look (codes "FATAL: stop\n") true false
    ∷ []

watch_log_lem_example :
    (watch_log is_fatal looks no_watch).hang_line
    ≡ first_hang is_fatal (cut_lines [] (heard looks)).0
watch_log_lem_example =
    watch_log_lem is_fatal looks ((inl refl, (inl refl, (inl refl, (inr tt, tt)))))

found_line : (watch_log is_fatal looks no_watch).hang_line ≡ some (codes "FATAL: no display")
unfolding watch_log watch_round
found_line = refl

-- What is written just before qemu exits is not read.
exited_first :
    (watch_log is_fatal
      (look (codes "FATAL: no") false false ∷ look (codes "\n") false true ∷ [])
      no_watch).hang_line
    ≡ none
unfolding watch_log watch_round
exited_first = refl

abbrev numbers : List ℕ
numbers = 9 ∷ 3 ∷ 10 ∷ 4 ∷ 5 ∷ 6 ∷ []

abbrev stays : Looks
stays = record {
  at_start = false;
  after_sync = false;
  after_emu_kill = false;
  before_term = false;
  after_term = false;
}

stop_escalates_example :
    (is_some (escalates (some begins) (stop_actions expires expires stays)) ≡ true)
    × (waited (stop_actions expires expires stays) ≤ 105)
    × ((false ≡ true)
        ⊎ (false ≡ true)
        ⊎ (escalates (some begins) (stop_actions expires expires stays) ≡ some killed))
stop_escalates_example = stop_escalates expires expires stays

-- An `emu kill` that fails leaves qemu running, with no signal sent.
emu_kill_failed : escalates (some begins) (stop_actions accepts adb_error stays) ≡ some asked
unfolding stop_actions
emu_kill_failed = refl
