-- ===== src/Daemon/Watchdog.antt =====
-- The connections that wait too long for a request (__main__.py: _close_silent, REQUEST_TIMEOUT). A
-- connection is a number, and a time is in ticks of a microsecond.
use android_appliance.Base.{
  ℕ, ◌+◌, ◌*◌, Option, none, some, Bool, not, ◌&&◌, List, [], ◌∷◌, ◌==◌, leb, if◌then◌else◌,
}

-- The attributes of uvicorn's protocol that tell whether a connection waits; only those of HTTP have
-- a cycle.
pub record Connection : Type 0 where
  pub number : ℕ
  pub has_cycle : Bool
  -- cycle is None, or its response is complete.
  pub is_between : Bool
  pub has_keep_alive : Bool

abbrev pub waiting : List Connection → List ℕ
waiting [] = []
waiting (c ∷ cs) =
    let rest = waiting cs in
    if c.has_cycle && (c.is_between && not c.has_keep_alive) then c.number ∷ rest else rest

-- waiting_since
abbrev pub Since : Type 0
Since = List (ℕ × ℕ)

abbrev pub since_of : ℕ → Since → Option ℕ
since_of p [] = none
since_of p ((q, t) ∷ since) = if q == p then some t else since_of p since

abbrev pub or_now : ℕ → Option ℕ → ℕ
or_now now none = now
or_now now (some t) = t

abbrev pub note : ℕ → Since → List ℕ → Since
note now since [] = []
note now since (p ∷ ps) = (p, or_now now (since_of p since)) ∷ note now since ps

abbrev pub request_timeout : ℕ
request_timeout = 15 * 1000000

abbrev pub overdue : ℕ → Since → List ℕ
overdue now [] = []
overdue now ((p, t) ∷ since) =
    let rest = overdue now since in if leb (t + request_timeout) now then p ∷ rest else rest

-- One round: what is kept, and the connections that are closed.
unfoldable pub watch_round : ℕ → List Connection → Since → Since × List ℕ
watch_round now connections since =
    let next = note now since (waiting connections) in (next, overdue now next)

-- The rounds so far, the last one first, each with its time and the connections there are.
abbrev pub History : Type 0
History = List (ℕ × List Connection)

unfoldable pub watched : History → Since
unfolding watch_round
watched [] = []
watched ((now, cs) ∷ older) = (watch_round now cs (watched older)).0

-- The connections that the last round closes.
unfoldable pub closed : History → List ℕ
unfolding watch_round watched
closed [] = []
closed ((now, cs) ∷ older) = (watch_round now cs (watched older)).1
