-- ===== src/Input/Pointers.antt =====
-- The fingers and the mouse of one browser session (input.py: Pointers). `_contacts` is a dict in
-- its order of insertion. `_new_identifier` counts for all sessions: the next identifier goes in
-- and comes out.
use android_appliance.Base.{
  ℕ, suc, ◌%◌, ◌/◌, Option, none, some, Bool, false, not, ◌&&◌, ◌||◌, List, [], ◌∷◌, ◌++◌, map, leb,
  ◌==◌, if◌then◌else◌, length,
}
use android_appliance.Base.Int.{ℤ, pos, negsuc}
use android_appliance.Base.Text.{Text, codes, text_eq}
use android_appliance.Base.Float.{Floats}
use android_appliance.Input.Touch.{Touch, contact, is_pressed}

-- The id of a touch in a browser message.
pub data Ident : Type 0 where
  number : ℤ → Ident
  name : Text → Ident

abbrev pub int_eq : ℤ → ℤ → Bool
int_eq (pos m) (pos n) = m == n
int_eq (negsuc m) (negsuc n) = m == n
int_eq _ _ = false

abbrev pub ident_eq : Ident → Ident → Bool
ident_eq (number a) (number b) = int_eq a b
ident_eq (name s) (name t) = text_eq s t
ident_eq _ _ = false

-- The key that `mouse` uses is the id "mouse".
abbrev pub mouse_id : Ident
mouse_id = name (codes "mouse")

abbrev pub max_contacts : ℕ
max_contacts = 10

pub record Contact (F : Type 0) : Type 0 where
  pub key : Ident
  pub identifier : ℕ
  pub x : F
  pub y : F

pub record Pointers (F : Type 0) : Type 0 where
  pub contacts : List (Contact F)
  pub right : Bool

-- One (id, x, y, pressure) of a browser message.
pub record Point (F : Type 0) : Type 0 where
  pub id : Ident
  pub x : F
  pub y : F
  pub pressure : F

module _ {F : Type 0} where
  abbrev pub find : Ident → List (Contact F) → Option (Contact F)
  find k [] = none
  find k (c ∷ cs) = let rest = find k cs in if ident_eq c.key k then some c else rest

  -- del self._contacts[key]
  abbrev pub remove : Ident → List (Contact F) → List (Contact F)
  remove k [] = []
  remove k (c ∷ cs) = let rest = remove k cs in if ident_eq c.key k then cs else c ∷ rest

  -- self._contacts[key] = (identifier, x, y), for a key that is there: it keeps its place.
  abbrev pub move : Ident → F → F → List (Contact F) → List (Contact F)
  move k x y [] = []
  move k x y (c ∷ cs) =
      let rest = move k x y cs in
      if ident_eq c.key k then record c { x = x; y = y } ∷ cs else c ∷ rest

-- What a call leaves and returns.
pub record After (F A : Type 0) : Type 0 where
  pub contacts : List (Contact F)
  pub next_id : ℕ
  pub result : A

module _ (fl : Floats) where
  open fl use {F, of_int}

  -- A point for a contact that is known, and for one that is not.
  point_known : Contact F → ℕ → List (Contact F) → Point F → After F (Option Touch)
  point_known c next cs p =
      if is_pressed fl p.pressure
      then record {
        contacts = move p.id p.x p.y cs;
        next_id = next;
        result = some (contact fl c.identifier p.x p.y p.pressure);
      }
      else record {
        contacts = remove p.id cs;
        next_id = next;
        result = some (contact fl c.identifier p.x p.y (of_int (pos 0)));
      }

  point_new : ℕ → List (Contact F) → Point F → After F (Option Touch)
  point_new next cs p =
      if not (is_pressed fl p.pressure) || leb max_contacts (length cs)
      then record { contacts = cs; next_id = next; result = none }
      else record {
        contacts = cs ++ record { key = p.id; identifier = next; x = p.x; y = p.y } ∷ [];
        next_id = suc next;
        result = some (contact fl next p.x p.y p.pressure);
      }

  abbrev point_at : Option (Contact F) → ℕ → List (Contact F) → Point F → After F (Option Touch)
  point_at none = point_new
  point_at (some c) = point_known c

  unfoldable pub point : ℕ → List (Contact F) → Point F → After F (Option Touch)
  unfolding point_known point_new
  point next cs p = point_at (find p.id cs) next cs p

  abbrev pub add_touch : Option Touch → List Touch → List Touch
  add_touch none ts = ts
  add_touch (some t) ts = t ∷ ts

  -- The touches of the points, in order; the event is not sent if there is none.
  unfoldable pub touches : ℕ → List (Contact F) → List (Point F) → After F (List Touch)
  unfolding point
  touches next cs [] = record { contacts = cs; next_id = next; result = [] }
  touches next cs (p ∷ ps) =
      let a = point next cs p in
      let b = touches a.next_id a.contacts ps in record b { result = add_touch a.result b.result }

  -- buttons & 1 and buttons & 2, of a two's complement number
  abbrev pub bit_0 : ℤ → Bool
  bit_0 (pos n) = n % 2 == 1
  bit_0 (negsuc n) = n % 2 == 0

  abbrev pub bit_1 : ℤ → Bool
  bit_1 (pos n) = n / 2 % 2 == 1
  bit_1 (negsuc n) = n / 2 % 2 == 0

  -- The touches of the left button, and whether the right button was just pressed.
  unfoldable pub mouse : ℕ → Pointers F → F → F → ℤ → Pointers F × ℕ × List Touch × Bool
  unfolding touches
  mouse next s x y buttons =
      let p : Point F = record {
        id = mouse_id;
        x = x;
        y = y;
        pressure = of_int (pos (if bit_0 buttons then 1 else 0));
      } in
      let a = touches next s.contacts (p ∷ []) in
      (
        record { contacts = a.contacts; right = bit_1 buttons },
        a.next_id,
        a.result,
        bit_1 buttons && not s.right,
      )

  unfoldable pub forget : Pointers F → Pointers F
  forget s = record { contacts = []; right = false }

  abbrev pub lift : Contact F → Touch
  lift c = contact fl c.identifier c.x c.y (of_int (pos 0))

  unfoldable pub release : Pointers F → Pointers F × List Touch
  unfolding forget
  release s = (forget s, map lift s.contacts)
