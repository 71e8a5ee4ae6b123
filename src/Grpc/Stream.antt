-- ===== src/Grpc/Stream.antt =====
-- The shared input stream (grpc_client.py: InputStream). Between two waits of the writer, close and
-- the end of a call can come; the lock lets one writer in at a time. Calls have numbers in the order
-- in which they are opened.
use android_appliance.Base.{
  ℕ, suc, Option, none, some, Bool, true, false, not, ◌||◌, List, [], ◌∷◌, ◌==◌, if◌then◌else◌,
  keep_if,
}

-- A writer waits for its event to be written on a call, in its first or second attempt.
pub data Writer : Type 0 where
  idle : Writer
  writing : ℕ → Bool → Writer

pub record Input : Type 0 where
  -- _call
  pub current : Option ℕ
  pub closed : Bool
  pub writer : Writer
  -- The calls that are open at the emulator, neither cancelled nor done, and the next number.
  pub live : List ℕ
  pub next : ℕ

pub data Result : Type 0 where
  waiting written connection_error : Result

abbrev pub new_input : Input
new_input = record { current = none; closed = false; writer = idle; live = []; next = 0 }

abbrev pub member : ℕ → List ℕ → Bool
member c [] = false
member c (d ∷ ds) = d == c || member c ds

-- call.cancel()
abbrev pub cancel : ℕ → List ℕ → List ℕ
cancel c live = keep_if (λ d. not (d == c)) live

abbrev pub is_current : Option ℕ → ℕ → Bool
is_current none c = false
is_current (some d) c = d == c

abbrev pub open_call : Bool → Input → Input
open_call again s = record s {
  current = some s.next;
  writer = writing s.next again;
  live = s.next ∷ s.live;
  next = suc s.next;
}

-- An attempt up to its write; `again` for the second. A call that is done is replaced.
abbrev pub attempt_on : Bool → Option ℕ → Input → Input
attempt_on again none s = open_call again s
attempt_on again (some c) s =
    if member c s.live then record s { writer = writing c again } else open_call again s

unfoldable pub attempt : Bool → Input → Input × Result
attempt again s =
    if s.closed
    then (record s { writer = idle }, connection_error)
    else (attempt_on again s.current s, waiting)

-- _write up to its first write. A second writer waits for the lock.
unfoldable pub write : Input → Input × Result
unfolding attempt
write s = attempt false s

-- The emulator took the event.
unfoldable pub write_done : Input → Input × Result
write_done s = (record s { writer = idle }, written)

abbrev pub drop_call : ℕ → Input → Input
drop_call c s = record s {
  current = if is_current s.current c then none else s.current;
  live = cancel c s.live;
}

abbrev pub failed_on : Writer → Input → Input × Result
failed_on idle s = (s, waiting)
failed_on (writing c true) s = (record (drop_call c s) { writer = idle }, connection_error)
failed_on (writing c false) s = attempt true (drop_call c s)

-- The write failed or took too long.
unfoldable pub write_failed : Input → Input × Result
unfolding attempt
write_failed s = failed_on s.writer s

abbrev pub cancelled : Option ℕ → List ℕ → List ℕ
cancelled none live = live
cancelled (some c) live = cancel c live

unfoldable pub close : Input → Input
close s = record s { closed = true; current = none; live = cancelled s.current s.live }

-- A call ended at the emulator.
unfoldable pub call_ended : ℕ → Input → Input
call_ended c s = record s { live = cancel c s.live }

pub data Event : Type 0 where
  writes writes_done writes_failed cancels closes : Event
  ends : ℕ → Event

abbrev pub is_idle : Writer → Bool
is_idle idle = true
is_idle _ = false

-- A write starts only without another, and ends only one that is under way.
unfoldable pub step : Event → Input → Input
unfolding write write_done write_failed close call_ended
step writes s = if is_idle s.writer then (write s).0 else s
step writes_done s = if is_idle s.writer then s else (write_done s).0
step writes_failed s = if is_idle s.writer then s else (write_failed s).0
-- The caller that waits is cancelled: its call stays.
step cancels s = record s { writer = idle }
step closes s = close s
step (ends c) s = call_ended c s

unfoldable pub run : List Event → Input → Input
unfolding step
run [] s = s
run (e ∷ es) s = run es (step e s)
