-- ===== src/Session/Viewers.antt =====
-- The sessions of the hub and the number of viewers that the supervisor sees (session.py: Hub,
-- Session.run, _close, _drop_stream, _start_stream, _stop_stream, _android_stopped, _on_end). A session
-- here is its number and whether it has a stream.
use android_appliance.Base.{
  ℕ, suc, Bool, true, false, not, ◌&&◌, List, [], ◌∷◌, ◌++◌, ◌==◌, leb, if◌then◌else◌, length,
  keep_if, any,
}

abbrev pub Viewer : Type 0
Viewer = ℕ × Bool

pub record Hub : Type 0 where
  pub sessions : List Viewer
  -- The sessions that _close took out of the set and whose tasks have not ended yet.
  pub leaving : List Viewer
  -- Supervisor.viewers
  pub viewers : ℕ

abbrev pub streaming : List Viewer → ℕ
streaming [] = 0
streaming ((i, b) ∷ vs) = if b then suc (streaming vs) else streaming vs

unfoldable pub count_viewers : Hub → Hub
count_viewers h = record h { viewers = streaming h.sessions }

abbrev pub set_in : ℕ → Bool → List Viewer → List Viewer
set_in i b [] = []
set_in i b ((j, c) ∷ vs) = (j, if j == i then b else c) ∷ set_in i b vs

abbrev pub set_stream : ℕ → Bool → Hub → Hub
set_stream i b h = record h { sessions = set_in i b h.sessions; leaving = set_in i b h.leaving }

abbrev pub is_session : ℕ → Viewer → Bool
is_session i (j, b) = j == i

abbrev pub has_stream : ℕ → List Viewer → Bool
has_stream i vs = any (λ v. is_session i v && v.1) vs

-- _drop_stream
unfoldable pub drop_stream : ℕ → Hub → Hub
unfolding count_viewers
drop_stream i h =
    if has_stream i (h.sessions ++ h.leaving) then count_viewers (set_stream i false h) else h

-- _start_stream up to `open`: `granted` if Android and the TURN server run and the set of streams takes
-- one more.
unfoldable pub start_stream : ℕ → Bool → Hub → Hub
unfolding count_viewers drop_stream
start_stream i granted h =
    if granted then count_viewers (set_stream i true (drop_stream i h)) else drop_stream i h

-- _on_end: the stream ended by itself.
unfoldable pub stream_ended : ℕ → Hub → Hub
unfolding count_viewers
stream_ended i h = count_viewers (set_stream i false h)

abbrev pub max_sessions : ℕ
max_sessions = 16

-- The start of run; the session is refused if there are too many.
unfoldable pub join : ℕ → Hub → Hub
join i h =
    if leb max_sessions (length h.sessions)
    then h
    else record h { sessions = (i, false) ∷ h.sessions }

-- _close up to its first wait.
unfoldable pub leave : ℕ → Hub → Hub
leave i h = record h {
  sessions = keep_if (λ v. not (is_session i v)) h.sessions;
  leaving = keep_if (λ v. is_session i v) h.sessions ++ h.leaving;
}

-- The end of _close, when the tasks and the lanes of the session have ended.
unfoldable pub left : ℕ → Hub → Hub
unfolding count_viewers drop_stream
left i h =
    let dropped = count_viewers (drop_stream i h) in
    record dropped { leaving = keep_if (λ v. not (is_session i v)) dropped.leaving }

pub data Event : Type 0 where
  joins leaves lefts ends drops : ℕ → Event
  starts : ℕ → Bool → Event

-- `drops` stands for a stop, for a stream that the emulator refuses, and for the end of Android.
unfoldable pub step : Event → Hub → Hub
unfolding join leave left stream_ended drop_stream start_stream
step (joins i) h = join i h
step (leaves i) h = leave i h
step (lefts i) h = left i h
step (ends i) h = stream_ended i h
step (drops i) h = drop_stream i h
step (starts i granted) h = start_stream i granted h

unfoldable pub run : List Event → Hub → Hub
unfolding step
run [] h = h
run (e ∷ es) h = run es (step e h)

abbrev pub new_hub : Hub
new_hub = record { sessions = []; leaving = []; viewers = 0 }
