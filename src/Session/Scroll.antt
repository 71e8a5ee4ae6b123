-- ===== src/Session/Scroll.antt =====
-- The wheel of a session (session.py: _wheel_message, _scroll). A round of the loop of _scroll has the
-- answer of the emulator and the notches that come while its drag runs.
use android_appliance.Base.{
  ℕ, zero, suc, Option, none, some, Bool, true, false, List, [], ◌∷◌, ◌++◌, if◌then◌else◌,
  get_last?,
}
use android_appliance.Base.Float.{Floats}
use android_appliance.Base.Int.{pos}
use android_appliance.Input.Gestures.{Step, wheel}

-- How the sending of a drag ends: it is sent whole; it is cut off after some of its steps and its last
-- step gets through; or not even that one does.
pub data Sending : Type 0 where
  sent_whole : Sending
  cut_off : ℕ → Sending
  lost : ℕ → Sending

-- x, y, dx and dy.
pub record Notch (F : Type 0) : Type 0 where
  pub x : F
  pub y : F
  pub dx : F
  pub dy : F

pub record Round (F : Type 0) : Type 0 where
  -- Whether Android runs at the start of the round.
  pub running : Bool
  pub identifier : ℕ
  pub sending : Sending
  pub during : List (Notch F)

module _ {F : Type 0} where
  abbrev pub take_steps : ℕ → List (Step F) → List (Step F)
  take_steps zero sts = []
  take_steps (suc n) [] = []
  take_steps (suc n) (st ∷ sts) = st ∷ take_steps n sts

  abbrev pub last_step : Option (Step F) → List (Step F)
  last_step none = []
  last_step (some st) = st ∷ []

  -- The steps that reach the emulator, and whether the loop goes on.
  unfoldable pub sent : Sending → List (Step F) → List (Step F) × Bool
  sent sent_whole sts = (sts, true)
  sent (cut_off n) sts = (take_steps n sts ++ last_step (get_last? sts), false)
  sent (lost n) sts = (take_steps n sts, false)

-- What a scroll leaves for the next one, and what it sends.
abbrev pub Scrolled : Type 0 → Type 0
Scrolled F = Option (Notch F) × List (Step F)

module _ (fl : Floats) where
  open fl use {F, add, of_int}

  -- _wheel_message: notches add up, at the last place.
  abbrev pub add_notch : Option (Notch F) → Notch F → Notch F
  add_notch none n = record {
    x = n.x;
    y = n.y;
    dx = add (of_int (pos 0)) n.dx;
    dy = add (of_int (pos 0)) n.dy;
  }
  add_notch (some w) n = record { x = n.x; y = n.y; dx = add w.dx n.dx; dy = add w.dy n.dy }

  unfoldable pub add_notches : Option (Notch F) → List (Notch F) → Option (Notch F)
  add_notches w [] = w
  add_notches w (n ∷ ns) = add_notches (some (add_notch w n)) ns

  abbrev pub after_round : Option (Notch F) → List (Step F) × Bool → Scrolled F → Scrolled F
  after_round w (sts, true) rest = (rest.0, sts ++ rest.1)
  after_round w (sts, false) rest = (w, sts)

  -- A drag of steps; one without a step waits for more notches.
  abbrev pub drag : Notch F → Round F → List (Step F) → Scrolled F → Scrolled F
  drag n r [] rest = (some n, [])
  drag n r (st ∷ sts) rest =
      after_round (add_notches none r.during) (sent r.sending (st ∷ sts)) rest

  -- _scroll
  unfoldable pub scroll : Option (Notch F) → List (Round F) → Scrolled F
  unfolding add_notches sent
  scroll w [] = (w, [])
  scroll none (r ∷ rs) = (none, [])
  scroll (some n) (r ∷ rs) =
      let rest = scroll (add_notches none r.during) rs in
      if r.running then drag n r (wheel fl r.identifier n.x n.y n.dx n.dy) rest else (none, [])
