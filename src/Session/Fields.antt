-- ===== src/Session/Fields.antt =====
-- The values in a message that pass their checks.
use android_appliance.Base.{
  OnSome, ℕ, ◌≤◌, ◌≡◌, refl, Option, none, some, Bool, true, false, not, ◌&&◌, List, leb, length,
  any, All, arith, Bool-cases, inl, inr,
}
use android_appliance.Base.Int.{ℤ}
use android_appliance.Base.Text.{Text, codes, contains, is_empty_text}
use android_appliance.Input.Keys.{valid_key}
use android_appliance.Session.Messages.{
  Json, null, boolean, integer, float, string_value, array, object, Jsons, no_items, item, Fields,
  Point, answer, candidate, is_surrogate, Handling, pongs, relays, touches_at, mouse_at, scrolls_at,
  presses_key, presses_button, pastes_text, get, text_value, checked_text, string, is_id,
  when_running,
}
use android_appliance.Session.Dispatch.{number, point_of, add_point, points}

-- A text that fits a process argument and a protobuf string.
abbrev pub IsClean : ℕ → Text → Type 0
IsClean limit t = (length t ≤ limit) × (any is_surrogate t ≡ false) × (contains 0 t ≡ false)

pub checked_text-IsClean :
    (limit : ℕ) (t : Option Text) → OnSome (IsClean limit) (checked_text limit t)
checked_text-IsClean limit none = tt
checked_text-IsClean limit (some t) =
    elim (Bool-cases (leb (length t) limit && (not (any is_surrogate t) && not (contains 0 t)))) [
      | inl e ↦ rw e (ground arith, ground arith, ground arith)
      | inr e ↦ rw e tt
    ]

pub string-IsClean :
    {F : Type 0} (message : Fields F) (key : Text) (limit : ℕ)
    → OnSome (IsClean limit) (string message key limit)
unfolding string
string-IsClean message key limit = checked_text-IsClean limit (text_value (get key message))

module _ {F : Type 0} (finite_int : ℤ → Bool) (finite_float : F → Bool) where
  abbrev pub IsNumber : Json F → Type 0
  IsNumber (integer n) = finite_int n ≡ true
  IsNumber (float x) = finite_float x ≡ true
  IsNumber _ = ⊥

  abbrev pub IsPoint : Point F → Type 0
  IsPoint p = (is_id (some p.id) ≡ true) × IsNumber p.x × IsNumber p.y × IsNumber p.pressure

  abbrev pub IsShort : Json F → Type 0
  IsShort (boolean b) = ⊥
  IsShort (array t) = ⊥
  IsShort (object t) = ⊥
  IsShort (string_value t) = length t ≤ 64
  IsShort _ = Unit

  -- What is passed on, if Android runs or not.
  unfoldable pub IsSafe : Bool → Handling F → Type 0
  IsSafe running (pongs t) = IsShort t
  IsSafe running (relays (answer sdp)) = IsClean 65536 sdp
  IsSafe running (relays (candidate c mid index)) = IsClean 4096 c
  IsSafe running (touches_at ps) = (running ≡ true) × (length ps ≤ 10) × All IsPoint ps
  IsSafe running (mouse_at x y b) = (running ≡ true) × IsNumber x × IsNumber y × IsNumber b
  IsSafe running (scrolls_at x y dx dy) =
      (running ≡ true) × IsNumber x × IsNumber y × IsNumber dx × IsNumber dy
  IsSafe running (presses_key key a) = (running ≡ true) × (valid_key key ≡ true) × IsClean 32 key
  IsSafe running (presses_button b a) = running ≡ true
  IsSafe running (pastes_text t) = (running ≡ true) × (is_empty_text t ≡ false) × IsClean 65536 t
  IsSafe running _ = Unit

  pub number-IsNumber : (o : Option (Json F)) → OnSome IsNumber (number finite_int finite_float o)
  number-IsNumber none = tt
  number-IsNumber (some (integer n)) = elim (Bool-cases (finite_int n)) [
    | inl e ↦ rw e e
    | inr e ↦ rw e tt
  ]
  number-IsNumber (some (float x)) = elim (Bool-cases (finite_float x)) [
    | inl e ↦ rw e e
    | inr e ↦ rw e tt
  ]
  number-IsNumber (some null) = tt
  number-IsNumber (some (boolean b)) = tt
  number-IsNumber (some (string_value b)) = tt
  number-IsNumber (some (array b)) = tt
  number-IsNumber (some (object b)) = tt

  pub when_running-IsSafe :
      (running : Bool) (h : Handling F)
      → (running ≡ true → IsSafe running h)
      → IsSafe running (when_running running h)
  unfolding IsSafe
  when_running-IsSafe true h k = k refl
  when_running-IsSafe false h k = tt

  point_of-IsPoint :
      (i x y p : Option (Json F))
      → OnSome IsNumber x
      → OnSome IsNumber y
      → OnSome IsNumber p
      → OnSome IsPoint (point_of finite_int finite_float i x y p)
  point_of-IsPoint (some i) (some x) (some y) (some p) hx hy hp =
      elim (Bool-cases (is_id (some i))) [ inl e ↦ rw e (e, hx, hy, hp) | inr e ↦ rw e tt ]
  point_of-IsPoint none x y p hx hy hp = tt
  point_of-IsPoint (some i) none y p hx hy hp = tt
  point_of-IsPoint (some i) (some x) none p hx hy hp = tt
  point_of-IsPoint (some i) (some x) (some y) none hx hy hp = tt

  add_point-IsPoint :
      (p : Option (Point F)) (ps : Option (List (Point F)))
      → OnSome IsPoint p
      → OnSome (All IsPoint) ps
      → OnSome (All IsPoint) (add_point finite_int finite_float p ps)
  add_point-IsPoint none ps h k = tt
  add_point-IsPoint (some p) none h k = tt
  add_point-IsPoint (some p) (some ps) h k = (h, k)

  pub points-IsPoint :
      (items : Jsons F) → OnSome (All IsPoint) (points finite_int finite_float items)
  unfolding points
  points-IsPoint no_items = tt
  points-IsPoint (item (object t) items) =
      add_point-IsPoint _ (points finite_int finite_float items)
        (point_of-IsPoint (get (codes "id") t) _ _ _ (number-IsNumber (get (codes "x") t))
          (number-IsNumber (get (codes "y") t)) (number-IsNumber (get (codes "pressure") t)))
        (points-IsPoint items)
  points-IsPoint (item null items) = tt
  points-IsPoint (item (boolean b) items) = tt
  points-IsPoint (item (integer b) items) = tt
  points-IsPoint (item (float b) items) = tt
  points-IsPoint (item (string_value b) items) = tt
  points-IsPoint (item (array b) items) = tt
