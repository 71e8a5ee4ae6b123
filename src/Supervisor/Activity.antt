-- ===== src/Supervisor/Activity.antt =====
-- Activity, idle time and the crash history (supervisor.py: idle_seconds, touch_activity,
-- _save_activity, _record). Times are whole numbers of ticks, `ticks` to the second.
use android_appliance.Base.{
  ℕ, ◌-◌, ◌/◌, Option, none, some, List, [], ◌∷◌, ◌++◌, Bool, false, leb, ◌==◌, drop, length,
  if◌then◌else◌,
}
use android_appliance.Supervisor.Types.{Sup, Failure, Crash}

-- time.time() in microseconds.
abbrev pub ticks : ℕ
ticks = 1000000

-- ACTIVITY_SAVE_INTERVAL
abbrev pub activity_save_interval : ℕ
activity_save_interval = 10000000

abbrev pub crash_history : ℕ
crash_history = 20

-- max(0, int(now - activity)): truncated subtraction is the clamp at 0.
abbrev idle_from : ℕ → Option ℕ → ℕ
idle_from now none = 0
idle_from now (some t) = (now - t) / ticks

unfoldable pub idle_seconds : ℕ → Sup → ℕ
idle_seconds now s = idle_from now s.activity

-- self._activity != self.store.data.get("activity"), for an activity that is set
abbrev saved_as : ℕ → Option ℕ → Bool
saved_as t none = false
saved_as t (some u) = t == u

abbrev save_activity_at : Option ℕ → Sup → Sup
save_activity_at none s = s
save_activity_at (some t) s =
    if saved_as t s.store.activity
    then s
    else record s { store = record (s.store) { activity = some t }; activity_saved = t }

-- The write of state.json always ends normally: `save` logs a disk error and keeps the data.
unfoldable pub save_activity : Sup → Sup
save_activity s = save_activity_at s.activity s

-- Called with time.time(); a difference below 0 does not reach the interval either.
unfoldable pub touch_activity : ℕ → Sup → Sup
unfolding save_activity
touch_activity now s =
    let t = record s { activity = some now } in
    if leb activity_save_interval (now - t.activity_saved) then save_activity t else t

-- crashes.append(...); del crashes[:-CRASH_HISTORY]
unfoldable pub append_crash : List Crash → Crash → List Crash
append_crash crashes c =
    let longer = crashes ++ c ∷ [] in drop (length longer - crash_history) longer

-- The entry that `_record` stores and returns.
abbrev pub crash_of : ℕ → Failure → Bool → Crash
crash_of now f retried = record { failure = f; time = now; was_retried = retried }

unfoldable pub record_failure : ℕ → Failure → Bool → Sup → Sup
unfolding append_crash
record_failure now f retried s = record s {
  store = record (s.store) { crashes = append_crash s.store.crashes (crash_of now f retried) };
}
