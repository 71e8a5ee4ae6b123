-- ===== src/Bridge/Limits.antt =====
-- How many streams there can be, and that none is kept for good by the bridge itself.
use android_appliance.Base.{
  ℕ, ◌+◌, ◌-◌, ◌≤◌, ◌<◌, ◌≡◌, ◌↔◌, ap, suc, refl, ◌⊎◌, inl, inr, Bool, true, false, ◌&&◌, ◌||◌,
  List, [], ◌∷◌, ◌++◌, arith, leb, if◌then◌else◌, length, length-append, All, All-append,
  Bool-cases,
}
use android_appliance.Bridge.Streams.{
  Stream, Bridge, count_live, create, new_stream, created, is_active, is_in_flight, Move, turn,
  act_on, Event, creates, moves, step, run, no_streams, opens, ends, is_absent, is_answered_request,
  is_refused_request,
}

-- A task that will make the bridge forget the stream: the release, or `open`, which starts the
-- release once the emulator answers.
abbrev pub is_due : Stream → Bool
is_due s =
    is_active s.release
    || is_in_flight s.request
    || is_answered_request s.request && is_absent s.pump

abbrev pub is_kept : Stream → Bool
is_kept s =
    (s.live || is_due s || is_refused_request s.request)
    && (is_absent s.pump || is_answered_request s.request)

turn-is_kept :
    (m : Move) (s : Stream)
    → is_kept s ≡ true
    → (turn m s).forgets ≡ false
    → is_kept (turn m s).stream ≡ true
unfolding turn
turn-is_kept opens s h f = ground arith
turn-is_kept _ s h f = ground arith

turn-live : (m : Move) (s : Stream) → (turn m s).stream.live ≡ true → s.live ≡ true
unfolding turn
turn-live opens s h = ground arith
turn-live _ s h = ground arith

act_on-kept :
    (m : Move) (i : ℕ) (ss : List Stream)
    → All (λ s. is_kept s ≡ true) ss
    → All (λ s. is_kept s ≡ true) (act_on m i ss)
act_on-kept m i [] h = tt
act_on-kept m i (s ∷ ss) h = ground (arith, act_on-kept m i ss h.1, turn-is_kept m s h.0)

act_on-le :
    (m : Move) (i : ℕ) (ss : List Stream)
    → (count_live (act_on m i ss) ≤ count_live ss) × (length (act_on m i ss) ≤ length ss)
act_on-le m i [] = omega arith
act_on-le m i (s ∷ ss) = ground (arith, act_on-le m i ss, turn-live m s)

count_live-append :
    (ss : List Stream) (s : Stream)
    → count_live (ss ++ s ∷ []) ≡ count_live ss + (if s.live then 1 else 0)
count_live-append [] s = ground arith
count_live-append (x ∷ ss) s = ground (arith, count_live-append ss s)

pub record Inv (b : Bridge) : Type 0 where
  pub few_live : count_live b.streams ≤ 4
  pub few : length b.streams ≤ 11
  pub kept : All (λ s. is_kept s ≡ true) b.streams

create-kept :
    (b : Bridge)
    → All (λ s. is_kept s ≡ true) b.streams
    → All (λ s. is_kept s ≡ true) (create b).0.streams
unfolding create
create-kept b h = elim (Bool-cases (leb 4 (count_live b.streams))) [
  | inl many ↦ rw many h
  | inr few ↦ rw few (elim (Bool-cases (leb 8 (length b.streams - count_live b.streams))) [
    | inl many ↦ rw many h
    | inr free ↦
        rw free (All-append (λ s. is_kept s ≡ true) b.streams (new_stream b.next ∷ []) h (refl, tt))
  ])
]

create-Inv : (b : Bridge) → Inv b → Inv (create b).0
unfolding create
create-Inv b v =
    let fresh = new_stream b.next in
    ground (
      arith,
      count_live-append b.streams fresh,
      length-append b.streams (fresh ∷ []),
      create-kept b v.kept,
    )

step-kept : (e : Event) (b : Bridge) → Inv b → Inv (step e b)
unfolding step
step-kept creates b v = create-Inv b v
step-kept (moves m i) b v =
    ground (arith, act_on-le m i b.streams, act_on-kept m i b.streams v.kept)

run-kept : (b : Bridge) (es : List Event) → Inv b → Inv (run b es)
unfolding run
run-kept b [] v = v
run-kept b (e ∷ es) v = run-kept (step e b) es (step-kept e b v)

-- After any history of the bridge at most four viewers have a stream and at most eleven streams
-- count; each that counts has its viewer, or a task under way that ends it, or its request was
-- refused, and messages are received only for a request that was answered.
pub streams_bounded :
    (es : List Event)
    → let b = run no_streams es in
      (count_live b.streams ≤ 4) × (length b.streams ≤ 11) × All (λ s. is_kept s ≡ true) b.streams
streams_bounded es =
    let v =
      run-kept no_streams es (record { few_live = omega arith; few = omega arith; kept = tt }) in
    (v.few_live, v.few, v.kept)

-- A new stream is made, with the next number, exactly if fewer than four viewers have one and fewer
-- than eight streams are still closing, and it then counts as the last one, with its viewer; else,
-- and only then, nothing changes.
create_cases :
    (b : Bridge)
    → let (b', r) = create b in
      let closing = length b.streams - count_live b.streams in
      ((r ≡ created b.next) ↔ ((count_live b.streams < 4) × (closing < 8)))
      × ((b' ≡ b) ↔ ((4 ≤ count_live b.streams) ⊎ (8 ≤ closing)))
      × ((b' ≡ b)
          ⊎ (b' ≡ record { streams = b.streams ++ new_stream b.next ∷ []; next = suc b.next }))
unfolding create
create_cases b = (
  (λ h. ground (arith, h), λ h. ground (arith, h)),
  (λ h. let n = ap (λ x. x.next) h in ground (arith, n), λ h. ground (arith, h)),
  ground arith,
)

-- The viewer hears of the end of a stream only from the pump, only while it is there, and after
-- that no move of the stream tells it again.
told_once :
    (m n : Move) (s : Stream)
    → (turn m s).tells ≡ true
    → (m ≡ ends) × (s.live ≡ true) × ((turn n (turn m s).stream).tells ≡ false)
unfolding turn
told_once m n s h = ground arith
