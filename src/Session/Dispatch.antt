-- ===== src/Session/Dispatch.antt =====
-- The dispatch of a message to its handler, with the numbers of touches, mouse and wheel (session.py:
-- _dispatch, number, _touch, _touch_id, _mouse, _wheel_message). math.isfinite on an integer, which
-- may be too large for a float, and on a float are parameters, as json.loads is.
use android_appliance.Base.{
  ℕ, ◌*◌, Option, none, some, Bool, List, [], ◌∷◌, leb, if◌then◌else◌, length,
}
use android_appliance.Base.Int.{ℤ}
use android_appliance.Base.Text.{Text, codes, text_eq}
use android_appliance.Session.Messages.{
  Json, integer, float, array, object, Jsons, no_items, item, Fields, Point, Handling, bad_request,
  touches_at, mouse_at, scrolls_at, get, text_value, string, action_named, button_named, jsep,
  is_id, when_running, pong, stream_action, key_message, button_message, text_message,
}

module _ {F : Type 0} (finite_int : ℤ → Bool) (finite_float : F → Bool) where
  -- number: none is the error.
  abbrev pub number : Option (Json F) → Option (Json F)
  number (some (integer n)) = if finite_int n then some (integer n) else none
  number (some (float x)) = if finite_float x then some (float x) else none
  number _ = none

  abbrev pub point_of :
      Option (Json F) → Option (Json F) → Option (Json F) → Option (Json F) → Option (Point F)
  point_of (some i) (some px) (some py) (some p) =
      if is_id (some i) then some (record { id = i; x = px; y = py; pressure = p }) else none
  point_of _ _ _ _ = none

  abbrev pub add_point : Option (Point F) → Option (List (Point F)) → Option (List (Point F))
  add_point (some p) (some ps) = some (p ∷ ps)
  add_point _ _ = none

  unfoldable pub points : Jsons F → Option (List (Point F))
  points no_items = some []
  points (item (object t) items) =
      add_point
        (point_of (get (codes "id") t) (number (get (codes "x") t)) (number (get (codes "y") t))
          (number (get (codes "pressure") t)))
        (points items)
  points (item _ items) = none

  abbrev pub max_touches : ℕ
  max_touches = 10

  abbrev pub touch_points : Bool → Option (List (Point F)) → Handling F
  touch_points running none = bad_request
  touch_points running (some ps) =
      if leb (length ps) max_touches then when_running running (touches_at ps) else bad_request

  abbrev pub touch_message : Bool → Option (Json F) → Handling F
  touch_message running (some (array items)) = touch_points running (points items)
  touch_message running _ = bad_request

  abbrev pub mouse_message : Bool → Option (Json F) → Option (Json F) → Option (Json F) → Handling F
  mouse_message running (some x) (some y) (some b) = when_running running (mouse_at x y b)
  mouse_message running _ _ _ = bad_request

  abbrev pub wheel_message :
      Bool → Option (Json F) → Option (Json F) → Option (Json F) → Option (Json F) → Handling F
  wheel_message running (some x) (some y) (some dx) (some dy) =
      when_running running (scrolls_at x y dx dy)
  wheel_message running _ _ _ _ = bad_request

  abbrev pub number_at : Fields F → Text → Option (Json F)
  number_at message key = number (get key message)

  -- The handler of a kind of message, on the message.
  unfoldable pub handle : Bool → Text → Fields F → Handling F
  handle running kind message =
      if text_eq kind (codes "ping")
      then pong (get (codes "t") message)
      else if text_eq kind (codes "stream")
      then stream_action (text_value (get (codes "action") message))
      else if text_eq kind (codes "jsep")
      then jsep (get (codes "data") message)
      else if text_eq kind (codes "touch")
      then touch_message running (get (codes "touches") message)
      else if text_eq kind (codes "mouse")
      then mouse_message running (number_at message (codes "x")) (number_at message (codes "y"))
          (number_at message (codes "buttons"))
      else if text_eq kind (codes "wheel")
      then wheel_message running (number_at message (codes "x")) (number_at message (codes "y"))
          (number_at message (codes "dx")) (number_at message (codes "dy"))
      else if text_eq kind (codes "key")
      then key_message running (string message (codes "key") 32)
          (action_named (text_value (get (codes "action") message)))
      else if text_eq kind (codes "button")
      then button_message running (button_named (text_value (get (codes "name") message)))
          (action_named (text_value (get (codes "action") message)))
      else if text_eq kind (codes "text")
      then text_message running (string message (codes "text") 65536)
      else bad_request

  abbrev pub handle_kind : Bool → Option Text → Fields F → Handling F
  handle_kind running none message = bad_request
  handle_kind running (some kind) message = handle running kind message

  abbrev pub handle_json : Bool → Option (Json F) → Handling F
  handle_json running (some (object message)) =
      handle_kind running (text_value (get (codes "type") message)) message
  handle_json running _ = bad_request

  abbrev pub max_message : ℕ
  max_message = 256 * 1024

  -- _dispatch on a frame with this text, or none for a binary one.
  unfoldable pub dispatch : (Text → Option (Json F)) → Bool → Option Text → Handling F
  unfolding handle
  dispatch loads running none = bad_request
  dispatch loads running (some t) =
      if leb (length t) max_message then handle_json running (loads t) else bad_request
