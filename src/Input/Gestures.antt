-- ===== src/Input/Gestures.antt =====
-- Gestures as timed steps (input.py: Step, tap, long_press, swipe, wheel).
use android_appliance.Base.{
  ℕ, zero, suc, ◌-◌, ◌≤◌, ◌≡◌, refl, inl, inr, Bool, true, false, List, [], ◌∷◌, ◌++◌, arith, ◌==◌,
  if◌then◌else◌, All, All-append, ◌∙◌, Bool-cases, OnSome, get_last?, get_last?-append,
}
use android_appliance.Base.Int.{pos, negsuc}
use android_appliance.Base.Float.{Floats}
use android_appliance.Input.Touch.{
  Touch, width, height, at_least_one, InFrame, clamp, touch, fmin, fmax, touch-InFrame, Screen,
  put_touch,
}

-- Wait `delay` seconds, then send the event, which has one touch point in a gesture.
pub record Step (F : Type 0) : Type 0 where
  pub delay : F
  pub event : Touch

module _ (fl : Floats) where
  open fl use {F, add, sub, mul, div, hypot, lt, of_int, round}

  abbrev num : ℕ → F
  num n = of_int (pos n)

  abbrev neg : F → F
  neg x = sub (of_int (pos 0)) x

  -- TAP_HOLD = 0.05
  abbrev tap_hold : F
  tap_hold = div (num 5) (num 100)

  -- FRAME = 1 / 60
  abbrev frame : F
  frame = div (num 1) (num 60)

  abbrev wheel_px : F
  wheel_px = div (num 168) (num 120)

  -- 0.12 and 0.08
  abbrev wheel_move : F
  wheel_move = div (num 12) (num 100)

  abbrev wheel_hold : F
  wheel_hold = div (num 8) (num 100)

  unfoldable pub tap : ℕ → F → F → List (Step F)
  tap i x y =
      record { delay = num 0; event = touch fl i x y true }
      ∷ record { delay = tap_hold; event = touch fl i x y false }
      ∷ []

  unfoldable pub long_press : ℕ → F → F → F → List (Step F)
  long_press i x y duration_ms =
      record { delay = num 0; event = touch fl i x y true }
      ∷ record { delay = div duration_ms (num 1000); event = touch fl i x y false }
      ∷ []

  -- for i in range(1, moves + 1): the moves that are left, and the next index.
  pub moves_from : ℕ → ℕ → (ℕ → Step F) → List (Step F)
  moves_from zero i step = []
  moves_from (suc n) i step = step i ∷ moves_from n (suc i) step

  unfoldable pub swipe : ℕ → F → F → F → F → F → List (Step F)
  unfolding moves_from
  swipe i x1 y1 x2 y2 duration_ms =
      let moves = at_least_one (round (div (div duration_ms (num 1000)) frame)) in
      let interval = div (div duration_ms (num 1000)) (num moves) in
      let move = λ (k : ℕ).
        let f = div (num k) (num moves) in
        let s : Step F = record {
          delay = interval;
          event = touch fl i (add x1 (mul (sub x2 x1) f)) (add y1 (mul (sub y2 y1) f)) true;
        } in
        s in
      record { delay = num 0; event = touch fl i x1 y1 true }
      ∷ (moves_from moves 1 move ++ record { delay = num 0; event = touch fl i x2 y2 false } ∷ [])

  -- abs(move) < size
  abbrev abs_lt : F → F → Bool
  abs_lt move size = if lt move (num 0) then lt (neg move) size else lt move size

  unfoldable pub fit : F → F → ℕ → F
  fit start move size =
      if abs_lt move (num size)
      then fmin fl (fmax fl start (neg move)) (sub (num (size - 1)) move)
      else start

  -- max(-MAX_WHEEL_PX, min(MAX_WHEEL_PX, -d * WHEEL_PX))
  abbrev wheel_axis : F → F
  wheel_axis d = fmax fl (of_int (negsuc 999)) (fmin fl (num 1000) (mul (neg d) wheel_px))

  unfoldable pub wheel : ℕ → F → F → F → F → List (Step F)
  unfolding moves_from fit clamp
  wheel i x y dx dy =
      let mx = wheel_axis dx in
      let my = wheel_axis dy in
      let (cx, cy) = clamp fl x y in
      let sx = fit (num cx) mx width in
      let sy = fit (num cy) my height in
      let moves = at_least_one (round (div wheel_move frame)) in
      let move = λ (k : ℕ).
        let s : Step F = record {
          delay = div wheel_move (num moves);
          event =
              touch fl i (add sx (div (mul mx (num k)) (num moves)))
                (add sy (div (mul my (num k)) (num moves))) true;
        } in
        s in
      if lt (hypot mx my) (num 30)
      then []
      else record { delay = num 0; event = touch fl i sx sy true }
        ∷ (moves_from moves 1 move
            ++ record { delay = wheel_hold; event = touch fl i (add sx mx) (add sy my) false } ∷ [])

-- The emulator's screen after a whole gesture.
abbrev pub play : {F : Type 0} → List (Step F) → Screen → Screen
play [] s = s
play (st ∷ sts) s = play sts (put_touch st.event s)

-- A step of the finger `i`, inside the frame.
abbrev pub IsStepOf : {F : Type 0} → ℕ → Step F → Type 0
IsStepOf i st = InFrame st.event × (st.event.identifier ≡ i)

-- The first step presses, if there is one.
abbrev pub Presses : {F : Type 0} → List (Step F) → Type 0
Presses [] = Unit
Presses (st ∷ sts) = 1 ≤ st.event.pressure

-- The finger `i` goes down first, and the last step lifts it; no other finger changes.
pub record IsGesture {F : Type 0} (i : ℕ) (sts : List (Step F)) : Type 0 where
  pub steps : All (IsStepOf i) sts
  pub presses : Presses sts
  pub ends : OnSome (λ st. (st.event.identifier ≡ i) × (st.event.pressure ≡ 0)) (get_last? sts)
  pub lifts : (s : Screen) (j : ℕ) → s i ≡ false → play sts s j ≡ s j

pub play-lift :
    {F : Type 0} (i : ℕ) (sts : List (Step F)) (st : Step F) (s : Screen) (j : ℕ)
    → All (IsStepOf i) sts
    → st.event.identifier ≡ i
    → st.event.pressure ≡ 0
    → play (sts ++ st ∷ []) s j ≡ (if i == j then false else s j)
play-lift i [] st s j a e p = ground arith
play-lift i (x ∷ sts) st s j a e p =
    play-lift i sts st (put_touch x.event s) j a.1 e p ∙ ground arith

last-lifts :
    {F : Type 0} (i : ℕ) (sts : List (Step F)) (st : Step F)
    → st.event.identifier ≡ i
    → st.event.pressure ≡ 0
    → OnSome
        (λ st. (st.event.identifier ≡ i) × (st.event.pressure ≡ 0))
        (get_last? (sts ++ st ∷ []))
last-lifts i sts st e p = rw (get_last?-append sts st) (e, p)

IsGesture-of :
    {F : Type 0} (i : ℕ) (first : Step F) (sts : List (Step F)) (last : Step F)
    → IsStepOf i first
    → 1 ≤ first.event.pressure
    → All (IsStepOf i) sts
    → IsStepOf i last
    → last.event.pressure ≡ 0
    → IsGesture i (first ∷ (sts ++ last ∷ []))
IsGesture-of i first sts last a b c d e = record {
  steps = (a, All-append (IsStepOf i) sts (last ∷ []) c (d, tt));
  presses = b;
  ends = last-lifts i (first ∷ sts) last d.1 e;
  lifts = λ s j h. play-lift i (first ∷ sts) last s j (a, c) d.1 e ∙ ground arith;
}

module _ (fl : Floats) where
  open fl use {F}

  moves_from-All :
      (i n k : ℕ) (step : ℕ → Step F)
      → ((m : ℕ) → IsStepOf i (step m))
      → All (IsStepOf i) (moves_from fl n k step)
  unfolding moves_from
  moves_from-All i zero k step h = tt
  moves_from-All i (suc n) k step h = (h k, moves_from-All i n (suc k) step h)

  touch_step :
      (i : ℕ) (x y : F) (b : Bool)
      → InFrame (touch fl i x y b) × ((touch fl i x y b).identifier ≡ i)
  unfolding touch
  touch_step i x y b = (touch-InFrame fl i x y b, refl)

  -- A tap, a long press and a swipe are gestures of their finger, for any coordinates and duration:
  -- each point is inside the frame, the first presses, and no finger stays down.
  gestures :
      (i : ℕ) (x y x' y' d : F)
      → IsGesture i (tap fl i x y)
        × IsGesture i (long_press fl i x y d)
        × IsGesture i (swipe fl i x y x' y' d)
  unfolding tap long_press swipe touch
  gestures i x y x' y' d = (
    IsGesture-of i _ [] _ (touch_step i x y true) (omega arith) tt (touch_step i x y false) refl,
    IsGesture-of i _ [] _ (touch_step i x y true) (omega arith) tt (touch_step i x y false) refl,
    IsGesture-of i _ (moves_from fl _ 1 _) _ (touch_step i x y true) (omega arith)
        (moves_from-All i _ 1 _ (λ m. touch_step i _ _ true)) (touch_step i x' y' false) refl,
  )

  -- A wheel notch is nothing or such a gesture.
  pub wheel-IsGesture : (i : ℕ) (x y dx dy : F) → IsGesture i (wheel fl i x y dx dy)
  unfolding wheel touch
  wheel-IsGesture i x y dx dy =
      elim (Bool-cases
        (fl.lt (fl.hypot (wheel_axis fl dx) (wheel_axis fl dy)) (fl.of_int (pos 30)))) [
          | inl small ↦
              rw (small) (record { steps = tt; presses = tt; ends = tt; lifts = λ s j h. refl })
          | inr big ↦ rw (big) (
              IsGesture-of i _ (moves_from fl _ 1 _) _ (touch_step i _ _ true) (omega arith)
                (moves_from-All i _ 1 _ (λ m. touch_step i _ _ true)) (touch_step i _ _ false) refl)
        ]
