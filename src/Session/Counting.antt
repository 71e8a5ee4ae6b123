-- ===== src/Session/Counting.antt =====
-- The number of viewers is that of the sessions with a stream.
use android_appliance.Base.{
  ℕ, ◌+◌, ◌≤◌, ◌≡◌, refl, Bool, true, false, not, List, [], ◌∷◌, ◌++◌, leb, if◌then◌else◌, length,
  keep_if, arith, length-keep_if-le,
}
use android_appliance.Session.Viewers.{
  Viewer, Hub, streaming, count_viewers, set_in, set_stream, is_session, has_stream, drop_stream,
  start_stream, stream_ended, join, leave, left, Event, joins, leaves, lefts, ends, drops, starts,
  step, run, new_hub,
}

-- The count is exact but for sessions that are leaving, and there are at most 16 sessions.
record Inv (h : Hub) : Type 0 where
  least : streaming h.sessions ≤ h.viewers
  most : h.viewers ≤ streaming h.sessions + streaming h.leaving
  few : length h.sessions ≤ 16

streaming-append : (vs ws : List Viewer) → streaming (vs ++ ws) ≡ streaming vs + streaming ws
streaming-append [] ws = omega arith
streaming-append ((i, b) ∷ vs) ws = ground (arith, streaming-append vs ws)

-- The sessions are those with a number and the others.
streaming-split :
    (i : ℕ) (vs : List Viewer)
    → streaming vs
      ≡ streaming (keep_if (λ v. not (is_session i v)) vs)
        + streaming (keep_if (λ v. is_session i v) vs)
streaming-split i [] = omega arith
streaming-split i ((j, b) ∷ vs) = ground (arith, streaming-split i vs)

length-set_in : (i : ℕ) (b : Bool) (vs : List Viewer) → length (set_in i b vs) ≡ length vs
length-set_in i b [] = refl
length-set_in i b ((j, c) ∷ vs) = omega (arith, length-set_in i b vs)

counted-Inv : (h : Hub) → length h.sessions ≤ 16 → Inv (count_viewers h)
unfolding count_viewers
counted-Inv h f = record { least = omega arith; most = omega arith; few = f }

set-counted-Inv : (i : ℕ) (b : Bool) (h : Hub) → Inv h → Inv (count_viewers (set_stream i b h))
set-counted-Inv i b h k =
    counted-Inv (set_stream i b h) (omega (arith, length-set_in i b h.sessions, k.few))

if-Inv : (b : Bool) (g h : Hub) → Inv g → Inv h → Inv (if b then g else h)
if-Inv true g h p q = p
if-Inv false g h p q = q

drop_stream-Inv : (i : ℕ) (h : Hub) → Inv h → Inv (drop_stream i h)
unfolding drop_stream
drop_stream-Inv i h k =
    if-Inv (has_stream i (h.sessions ++ h.leaving)) _ h (set-counted-Inv i false h k) k

pick : (b : Bool) (g h : Hub) → Inv g → (b ≡ false → Inv h) → Inv (if b then g else h)
pick true g h p q = p
pick false g h p q = q refl

join-Inv : (i : ℕ) (h : Hub) → Inv h → Inv (join i h)
unfolding join
join-Inv i h k =
    pick (leb 16 (length h.sessions)) h _ k
      λ e. record { least = k.least; most = k.most; few = ground arith }

leave-Inv : (i : ℕ) (h : Hub) → Inv h → Inv (leave i h)
unfolding leave
leave-Inv i h k =
    let mine = keep_if (λ v. is_session i v) h.sessions in
    record {
      least = omega (arith, streaming-split i h.sessions, k.least);
      most = omega (arith, streaming-split i h.sessions, streaming-append mine h.leaving, k.most);
      few = omega (arith, length-keep_if-le (λ v. not (is_session i v)) h.sessions, k.few);
    }

left-Inv : (i : ℕ) (h : Hub) → Inv h → Inv (left i h)
unfolding left
left-Inv i h k =
    let d = counted-Inv (drop_stream i h) (drop_stream-Inv i h k).few in
    record { least = d.least; most = omega arith; few = d.few }

step-Inv : (e : Event) (h : Hub) → Inv h → Inv (step e h)
unfolding step stream_ended start_stream
step-Inv (joins i) h k = join-Inv i h k
step-Inv (leaves i) h k = leave-Inv i h k
step-Inv (lefts i) h k = left-Inv i h k
step-Inv (ends i) h k = set-counted-Inv i false h k
step-Inv (drops i) h k = drop_stream-Inv i h k
step-Inv (starts i true) h k = set-counted-Inv i true (drop_stream i h) (drop_stream-Inv i h k)
step-Inv (starts i false) h k = drop_stream-Inv i h k

run-Inv : (es : List Event) (h : Hub) → Inv h → Inv (run es h)
unfolding run
run-Inv [] h k = k
run-Inv (e ∷ es) h k = run-Inv es (step e h) (step-Inv e h k)

-- After any history there are at most 16 sessions, and the number of viewers is that of the sessions
-- with a stream, but that it may still have those of sessions that are leaving.
pub viewers_counted :
    (es : List Event)
    → let h = run es new_hub in
      (streaming h.sessions ≤ h.viewers)
      × (h.viewers ≤ streaming h.sessions + streaming h.leaving)
      × (length h.sessions ≤ 16)
viewers_counted es =
    let k =
      run-Inv es new_hub (record { least = omega arith; most = omega arith; few = omega arith }) in
    (k.least, k.most, k.few)
