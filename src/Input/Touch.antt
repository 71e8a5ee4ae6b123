-- ===== src/Input/Touch.antt =====
-- Touch points (input.py: clamp, touch, contact) and what they do at the emulator's screen.
use android_appliance.Base.{
  ℕ, ◌-◌, ◌≤◌, ◌<◌, min, max, Bool, List, [], ◌∷◌, arith, leb, ◌==◌, if◌then◌else◌,
}
use android_appliance.Base.Int.{ℤ, pos, negsuc}
use android_appliance.Base.Float.{Floats}

abbrev pub width : ℕ
width = 1080

abbrev pub height : ℕ
height = 1920

abbrev pub pressure_max : ℕ
pressure_max = 1024

-- pb.Touch
pub record Touch : Type 0 where
  pub x : ℕ
  pub y : ℕ
  pub identifier : ℕ
  pub pressure : ℕ

-- max(0, min(size - 1, z)), a number that is not negative
abbrev pub clamp_axis : ℕ → ℤ → ℕ
clamp_axis size (pos n) = min (size - 1) n
clamp_axis size (negsuc n) = 0

-- max(1, z)
abbrev pub at_least_one : ℤ → ℕ
at_least_one (pos n) = max 1 n
at_least_one (negsuc n) = 1

pub InFrame : Touch → Type 0
InFrame t = (t.x < width) × (t.y < height)

clamp_axis-lt : (size : ℕ) (z : ℤ) → 0 < size → clamp_axis size z < size
clamp_axis-lt size (pos n) h = omega arith
clamp_axis-lt size (negsuc n) h = omega arith

pub at_least_one-pos : (z : ℤ) → 1 ≤ at_least_one z
at_least_one-pos (pos n) = omega arith
at_least_one-pos (negsuc n) = omega arith

module _ (fl : Floats) where
  open fl use {F, lt, mul, of_int, round}

  unfoldable pub clamp : F → F → ℕ × ℕ
  clamp x y = (clamp_axis width (round x), clamp_axis height (round y))

  unfoldable pub touch : ℕ → F → F → Bool → Touch
  unfolding clamp
  touch identifier x y down =
      let (cx, cy) = clamp x y in
      record {
        x = cx;
        y = cy;
        identifier = identifier;
        pressure = if down then pressure_max else 0;
      }

  -- min(a, b) of Python: `a` unless `b` is less.
  abbrev pub fmin : F → F → F
  fmin a b = if lt b a then b else a

  -- max(a, b) of Python: `a` unless `b` is more.
  abbrev pub fmax : F → F → F
  fmax a b = if lt a b then b else a

  -- pressure > 0
  abbrev pub is_pressed : F → Bool
  is_pressed p = lt (of_int (pos 0)) p

  unfoldable pub contact : ℕ → F → F → F → Touch
  unfolding clamp
  contact identifier x y p =
      let (cx, cy) = clamp x y in
      record {
        x = cx;
        y = cy;
        identifier = identifier;
        pressure =
            if is_pressed p
            then at_least_one (round (mul (fmin p (of_int (pos 1))) (of_int (pos pressure_max))))
            else 0;
      }

  pub touch-InFrame : (i : ℕ) (x y : F) (d : Bool) → InFrame (touch i x y d)
  unfolding touch InFrame
  touch-InFrame i x y d =
      (clamp_axis-lt width (round x) (omega arith), clamp_axis-lt height (round y) (omega arith))

  pub contact-InFrame : (i : ℕ) (x y p : F) → InFrame (contact i x y p)
  unfolding contact InFrame
  contact-InFrame i x y p =
      (clamp_axis-lt width (round x) (omega arith), clamp_axis-lt height (round y) (omega arith))

-- The fingers that are down at the emulator: a finger is down while its pressure is not 0.
abbrev pub Screen : Type 0
Screen = ℕ → Bool

abbrev pub put_touch : Touch → Screen → Screen
put_touch t s i = if t.identifier == i then leb 1 t.pressure else s i

abbrev pub put_touches : List Touch → Screen → Screen
put_touches [] s = s
put_touches (t ∷ ts) s = put_touches ts (put_touch t s)
