-- ===== src/Bridge/Streams.antt =====
-- The life of one stream (webrtc.py: Stream) and the set of streams (Bridge). A stream is known by
-- a number. Its tasks are cut at their waits: the request to the emulator, the pump that receives
-- its messages, and the release of a stream whose viewer left.
use android_appliance.Base.{
  ℕ, suc, ◌-◌, Bool, true, false, not, ◌&&◌, List, [], ◌∷◌, ◌++◌, leb, ◌==◌, if◌then◌else◌, length,
}

-- The request for the stream: not made, in flight, answered, failed.
pub data Request : Type 0 where
  not_made in_flight answered refused : Request

-- The pump and the release task.
pub data Task : Type 0 where
  absent active done : Task

pub record Stream : Type 0 where
  pub id : ℕ
  pub request : Request
  pub pump : Task
  pub release : Task
  -- The viewer's answer was passed on.
  pub is_answered : Bool
  -- The viewer is there and the stream is not over.
  pub live : Bool

-- The streams that count, oldest first, and the number of the next one.
pub record Bridge : Type 0 where
  pub streams : List Stream
  pub next : ℕ

abbrev pub max_streams : ℕ
max_streams = 4

abbrev pub max_releasing : ℕ
max_releasing = 8

abbrev pub count_live : List Stream → ℕ
count_live [] = 0
count_live (s ∷ ss) = let rest = count_live ss in if s.live then suc rest else rest

pub data Created : Type 0 where
  too_many_open still_closing : Created
  created : ℕ → Created

unfoldable pub new_stream : ℕ → Stream
new_stream i = record {
  id = i;
  request = not_made;
  pump = absent;
  release = absent;
  is_answered = false;
  live = true;
}

-- Bridge.create
unfoldable pub create : Bridge → Bridge × Created
unfolding new_stream
create b =
    let live = count_live b.streams in
    if leb max_streams live
    then (b, too_many_open)
    else if leb max_releasing (length b.streams - live)
    then (b, still_closing)
    else (
      record { streams = b.streams ++ new_stream b.next ∷ []; next = suc b.next },
      created b.next,
    )

-- Bridge.forget
abbrev pub forget : ℕ → List Stream → List Stream
forget i [] = []
forget i (s ∷ ss) = let rest = forget i ss in if s.id == i then rest else s ∷ rest

-- What a stretch of a stream's tasks does: the stream after it, whether the bridge forgets it, and
-- whether the viewer is told that it is over.
pub record Turn : Type 0 where
  pub stream : Stream
  pub forgets : Bool
  pub tells : Bool

abbrev pub stays : Stream → Turn
stays s = record { stream = s; forgets = false; tells = false }

abbrev pub is_active : Task → Bool
is_active active = true
is_active _ = false

abbrev pub is_in_flight : Request → Bool
is_in_flight in_flight = true
is_in_flight _ = false

-- open, up to the wait for the emulator
unfoldable pub open_request : Stream → Turn
open_request s = stays (record s { request = in_flight })

-- The emulator answers the request, or refuses it.
unfoldable pub request_answered : Stream → Turn
request_answered s = stays (record s { request = answered })

unfoldable pub request_refused : Stream → Turn
request_refused s = stays (record s { request = refused })

-- open after that answer; the stream may have been closed meanwhile.
unfoldable pub open_answered : Stream → Turn
open_answered s =
    let t = record s { pump = active } in
    stays (if t.live then t else record t { release = active })

-- The task that called open was cancelled: _let_go_late waits for the request instead.
unfoldable pub open_cancelled : Stream → Turn
open_cancelled s = stays (record s { live = false; release = active })

-- _let_go_late after its wait
unfoldable pub late_answered : Stream → Turn
late_answered s = stays (record s { pump = active })

unfoldable pub late_refused : Stream → Turn
late_refused s = record { stream = record s { release = done }; forgets = true; tells = false }

-- send: an answer that reached the emulator
unfoldable pub send_answer : Stream → Turn
send_answer s = stays (if is_active s.pump then record s { is_answered = true } else s)

-- close
unfoldable pub close : Stream → Turn
close s =
    let t = record s { live = false } in
    if not s.live
    then stays s
    else if is_active s.pump
    then stays (record t { release = active })
    else if is_in_flight s.request
    then stays t
    else record { stream = t; forgets = true; tells = false }

-- The end of _let_go, on each of its ways: the pump ended, or the waits ran out, or a call failed.
unfoldable pub let_go_ends : Stream → Turn
let_go_ends s = record {
  stream = record s { pump = done; release = done };
  forgets = true;
  tells = false;
}

-- The end of _receive: the emulator said bye, ended the stream or failed.
unfoldable pub receive_ends : Stream → Turn
receive_ends s = record {
  stream = record s { pump = done; live = false };
  forgets = true;
  tells = s.live;
}

pub data Move : Type 0 where
  opens answers refuses resumes cancels late_answers late_refuses : Move
  sends closes lets_go ends : Move

abbrev pub is_answered_request : Request → Bool
is_answered_request answered = true
is_answered_request _ = false

abbrev pub is_refused_request : Request → Bool
is_refused_request refused = true
is_refused_request _ = false

abbrev pub is_new : Request → Bool
is_new not_made = true
is_new _ = false

abbrev pub is_absent : Task → Bool
is_absent absent = true
is_absent _ = false

-- The stretch that a move runs, where the tasks of the stream are at its start; else nothing.
unfoldable pub turn : Move → Stream → Turn
unfolding open_request request_answered request_refused open_answered open_cancelled late_answered
    late_refused send_answer close let_go_ends receive_ends
turn opens s = if is_new s.request then open_request s else stays s
turn answers s = if is_in_flight s.request then request_answered s else stays s
turn refuses s = if is_in_flight s.request then request_refused s else stays s
turn resumes s =
    if is_answered_request s.request && is_absent s.pump && is_absent s.release
    then open_answered s
    else stays s
turn cancels s =
    if not (is_new s.request) && is_absent s.pump && is_absent s.release
    then open_cancelled s
    else stays s
turn late_answers s =
    if is_answered_request s.request && is_absent s.pump && is_active s.release
    then late_answered s
    else stays s
turn late_refuses s =
    if is_refused_request s.request && is_active s.release then late_refused s else stays s
turn sends s = send_answer s
turn closes s = close s
turn lets_go s = if is_active s.pump && is_active s.release then let_go_ends s else stays s
turn ends s = if is_active s.pump then receive_ends s else stays s

-- A stream that is not in the set any more runs its turns too; they change no other.
abbrev pub act_on : Move → ℕ → List Stream → List Stream
act_on m i [] = []
act_on m i (s ∷ ss) =
    let rest = act_on m i ss in
    let t = turn m s in
    if s.id == i then (if t.forgets then rest else t.stream ∷ rest) else s ∷ rest

pub data Event : Type 0 where
  creates : Event
  moves : Move → ℕ → Event

unfoldable pub step : Event → Bridge → Bridge
unfolding create
step creates b = (create b).0
step (moves m i) b = record b { streams = act_on m i b.streams }

unfoldable pub run : Bridge → List Event → Bridge
run b [] = b
run b (e ∷ es) = run (step e b) es

abbrev pub no_streams : Bridge
no_streams = record { streams = []; next = 0 }
