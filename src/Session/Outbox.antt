-- ===== src/Session/Outbox.antt =====
-- The queues of a session (session.py: Lane, and the outbox in Session.send, end, _write and _lane).
use android_appliance.Base.{ℕ, Bool, true, false, List, [], ◌∷◌, ◌++◌, ltb, if◌then◌else◌, length}

abbrev pub try_again_later : ℕ
try_again_later = 1013

abbrev pub policy_violation : ℕ
policy_violation = 1008

abbrev pub max_outbox : ℕ
max_outbox = 512

abbrev pub max_lane : ℕ
max_lane = 256

-- What goes to the viewer: a message of the outbox, or the status after some time without one.
pub data Written (M : Type 0) : Type 0 where
  message refresh : M → Written M

pub record Outbox (M : Type 0) : Type 0 where
  pub waiting : List M
  pub written : List (Written M)
  -- _close_code, and whether `end` was called.
  pub close_code : ℕ
  pub is_ended : Bool

pub data Event (M : Type 0) : Type 0 where
  sends : M → Event M
  writes : Event M
  refreshes : M → Event M
  ends : ℕ → Event M

-- A lane: the jobs that wait, and those that ran, oldest first.
pub record Lane (J : Type 0) : Type 0 where
  pub jobs : List J
  pub ran : List J

pub data Move (J : Type 0) : Type 0 where
  puts : J → Move J
  runs : Move J

abbrev pub new_outbox : {M : Type 0} → Outbox M
new_outbox = record { waiting = []; written = []; close_code = 1000; is_ended = false }

abbrev pub new_lane : {J : Type 0} → Lane J
new_lane = record { jobs = []; ran = [] }

module _ {M : Type 0} where
  -- end
  unfoldable pub end_with : ℕ → Outbox M → Outbox M
  end_with code o = record o { close_code = code; is_ended = true }

  -- send
  unfoldable pub send : M → Outbox M → Outbox M
  unfolding end_with
  send m o =
      if ltb (length o.waiting) max_outbox
      then record o { waiting = o.waiting ++ m ∷ [] }
      else end_with try_again_later o

  -- A turn of the loop of _write: the next message.
  abbrev pub write_from : List M → Outbox M → Outbox M
  write_from [] o = o
  write_from (m ∷ ms) o = record o { waiting = ms; written = o.written ++ message m ∷ [] }

  -- The status in its place when none came in time.
  abbrev pub refresh_from : M → List M → Outbox M → Outbox M
  refresh_from s [] o = record o { written = o.written ++ refresh s ∷ [] }
  refresh_from s (m ∷ ms) o = o

  unfoldable pub step : Event M → Outbox M → Outbox M
  unfolding send end_with
  step (sends m) o = send m o
  step writes o = write_from o.waiting o
  step (refreshes s) o = refresh_from s o.waiting o
  step (ends code) o = end_with code o

  unfoldable pub run : List (Event M) → Outbox M → Outbox M
  unfolding step
  run [] o = o
  run (e ∷ es) o = run es (step e o)

module _ {J : Type 0} where
  -- Lane.put; without room the session ends (_lane).
  unfoldable pub put : J → Lane J → Lane J × Bool
  put j l =
      if ltb (length l.jobs) max_lane
      then (record l { jobs = l.jobs ++ j ∷ [] }, true)
      else (l, false)

  -- A turn of Lane._run: also a job that fails is done.
  abbrev pub run_from : List J → Lane J → Lane J
  run_from [] l = l
  run_from (j ∷ js) l = record { jobs = js; ran = l.ran ++ j ∷ [] }

  abbrev pub after_put : J → Lane J × Bool → Lane J × List J → Lane J × List J
  after_put j (l, true) (k, taken) = (k, j ∷ taken)
  after_put j (l, false) (k, taken) = (k, taken)

  -- The lane after the moves, and the jobs that it took.
  unfoldable pub work : List (Move J) → Lane J → Lane J × List J
  unfolding put
  work [] l = (l, [])
  work (puts j ∷ ms) l = let p = put j l in after_put j p (work ms p.0)
  work (runs ∷ ms) l = work ms (run_from l.jobs l)
