-- ===== src/Mcp/Boot.antt =====
-- The wait for a boot with progress (mcp_server.py: Tools._wait_boot). Times are in ticks of a
-- microsecond since the call began. A round is what the daemon answers in it, and how long its requests
-- take beyond the waiting.
use android_appliance.Base.{
  ℕ, ◌+◌, ◌-◌, ◌*◌, min, Bool, true, false, List, [], ◌∷◌, leb, if◌then◌else◌,
}

pub data State : Type 0 where
  stopped starting running stopping restarting : State

-- What the daemon answers to a wait: the status of a boot that ends so long after the question, the
-- error that there is none to join, with the state that it is in then and whether that has an error,
-- the end of the time, or another error.
pub data Answer : Type 0 where
  up : ℕ → Answer
  conflict : State → Bool → Answer
  timed_out : Answer
  fails : Answer

pub data Ending : Type 0 where
  -- The status, with the note that it takes longer or without it.
  status : Ending
  still : Ending
  -- The errors: Android is down with its last error, or the client's error.
  down_error client_error : Ending
  -- The rounds given end before the loop.
  unfinished : Ending

abbrev pub interval : ℕ
interval = 2 * 1000000

abbrev pub goes_down : State → Bool
goes_down stopping = true
goes_down restarting = true
goes_down _ = false

abbrev pub Round : Type 0
Round = Answer × ℕ

-- What the daemon is asked to wait, and the sleep where there is no boot to join: min(2 s, remaining).
unfoldable pub step_of : ℕ → ℕ → ℕ
step_of timeout elapsed = min interval (timeout - elapsed)

-- How long the round waits: the daemon's wait ends with the boot, or after the time that it was given.
abbrev pub waits : ℕ → Answer → ℕ
waits asked (up n) = min n asked
waits asked timed_out = asked
waits asked fails = 0
waits asked (conflict s e) = if goes_down s then asked else 0

-- The end of the round at the time `now`, or the rounds after it.
abbrev pub on_answer : Answer → ℕ → Ending × ℕ → Ending × ℕ
on_answer (up n) now rest = (status, now)
on_answer fails now rest = (client_error, now)
on_answer timed_out now rest = rest
on_answer (conflict s e) now rest =
    if goes_down s then rest else if e then (down_error, now) else (client_error, now)

-- The loop from the time `elapsed` on: how it ends, and when.
unfoldable pub wait_boot : ℕ → ℕ → List Round → Ending × ℕ
unfolding step_of
wait_boot timeout elapsed [] = (unfinished, elapsed)
wait_boot timeout elapsed ((a, over) ∷ rounds) =
    let now = elapsed + waits (step_of timeout elapsed) a + over in
    let rest = wait_boot timeout now rounds in
    if leb timeout elapsed then (still, elapsed) else on_answer a now rest
