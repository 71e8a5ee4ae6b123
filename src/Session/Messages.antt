-- ===== src/Session/Messages.antt =====
-- The messages of a session (session.py: number, string, choice, jsep, _dispatch and the handlers up
-- to what they give to a lane or to the pointers). A message is the JSON that json.loads gives.
use android_appliance.Base.{
  ℕ, Option, none, some, Bool, true, false, not, ◌&&◌, List, [], ◌∷◌, leb, if◌then◌else◌, length,
  any,
}
use android_appliance.Base.Int.{ℤ}
use android_appliance.Base.Text.{Text, codes, text_eq, contains, is_empty_text}
use android_appliance.Input.Keys.{
  Action, down, up, press, Button, home, back, app_switch, power, volume_up, volume_down, menu,
  button_name, valid_key,
}

-- The values of json.loads; F are the floats. An object has each key once.
mutual
  pub data Json (F : Type 0) : Type 0 where
    null : Json F
    boolean : Bool → Json F
    integer : ℤ → Json F
    float : F → Json F
    string_value : Text → Json F
    array : Jsons F → Json F
    object : Fields F → Json F

  pub data Jsons (F : Type 0) : Type 0 where
    no_items : Jsons F
    item : Json F → Jsons F → Jsons F

  pub data Fields (F : Type 0) : Type 0 where
    no_fields : Fields F
    field : Text → Json F → Fields F → Fields F

-- What json.loads does with a text: a value, a ValueError, or a RecursionError, which is none.
pub data Loaded (F : Type 0) : Type 0 where
  unreadable too_deep : Loaded F
  loaded : Json F → Loaded F

abbrev pub is_surrogate : ℕ → Bool
is_surrogate c = leb 55296 c && leb c 57343

-- The rebuilt answer or candidate of a viewer.
pub data Jsep (F : Type 0) : Type 0 where
  answer : Text → Jsep F
  candidate : Text → Option Text → Option ℤ → Jsep F

pub record Point (F : Type 0) : Type 0 where
  pub id : Json F
  pub x : Json F
  pub y : Json F
  pub pressure : Json F

-- What the handler of a message does: an error message, or what it passes on.
pub data Handling (F : Type 0) : Type 0 where
  bad_request not_running starts_stream stops_stream : Handling F
  pongs : Json F → Handling F
  relays : Jsep F → Handling F
  touches_at : List (Point F) → Handling F
  mouse_at : Json F → Json F → Json F → Handling F
  scrolls_at : Json F → Json F → Json F → Json F → Handling F
  presses_key : Text → Action → Handling F
  presses_button : Button → Action → Handling F
  pastes_text : Text → Handling F

abbrev pub checked_text : ℕ → Option Text → Option Text
checked_text limit none = none
checked_text limit (some t) =
    if leb (length t) limit && (not (any is_surrogate t) && not (contains 0 t))
    then some t
    else none

abbrev pub action_named : Option Text → Option Action
action_named none = none
action_named (some t) =
    if text_eq t (codes "down")
    then some down
    else if text_eq t (codes "up")
    then some up
    else if text_eq t (codes "press")
    then some press
    else none

abbrev pub button_in : List Button → Text → Option Button
button_in [] t = none
button_in (b ∷ bs) t = if text_eq t (button_name b) then some b else button_in bs t

abbrev pub button_named : Option Text → Option Button
button_named none = none
button_named (some t) =
    button_in (home ∷ back ∷ app_switch ∷ power ∷ volume_up ∷ volume_down ∷ menu ∷ []) t

abbrev pub is_answer : Option Text → Bool
is_answer none = false
is_answer (some t) = text_eq t (codes "answer")

module _ {F : Type 0} where
  -- message.get(key)
  abbrev pub get : Text → Fields F → Option (Json F)
  get key no_fields = none
  get key (field k v fields) = if text_eq k key then some v else get key fields

  abbrev pub text_value : Option (Json F) → Option Text
  text_value (some (string_value t)) = some t
  text_value _ = none

  -- string: none is the error.
  unfoldable pub string : Fields F → Text → ℕ → Option Text
  string message key limit = checked_text limit (text_value (get key message))

  -- sdpMid and sdpMLineIndex: none inside is None.
  abbrev pub mid_of : Option (Json F) → Option (Option Text)
  mid_of none = some none
  mid_of (some null) = some none
  mid_of (some (string_value t)) = some (some t)
  mid_of _ = none

  abbrev pub index_of : Option (Json F) → Option (Option ℤ)
  index_of none = some none
  index_of (some null) = some none
  index_of (some (integer n)) = some (some n)
  index_of _ = none

  abbrev pub relay_answer : Option Text → Handling F
  relay_answer none = bad_request
  relay_answer (some sdp) = relays (answer sdp)

  abbrev pub relay_candidate : Option (Option ℤ) → Option (Option Text) → Option Text → Handling F
  relay_candidate (some index) (some mid) (some c) = relays (candidate c mid index)
  relay_candidate _ _ _ = bad_request

  -- jsep, and _jsep_message: a candidate that is no text fails in `string` as it does in the test.
  unfoldable pub jsep : Option (Json F) → Handling F
  unfolding string
  jsep (some (object fields)) =
      if is_answer (text_value (get (codes "type") fields))
      then relay_answer (string fields (codes "sdp") 65536)
      else relay_candidate (index_of (get (codes "sdpMLineIndex") fields))
          (mid_of (get (codes "sdpMid") fields)) (string fields (codes "candidate") 4096)
  jsep _ = bad_request

  -- _touch_id
  abbrev pub is_id : Option (Json F) → Bool
  is_id (some (integer n)) = true
  is_id (some (string_value t)) = leb (length t) 32
  is_id _ = false

  -- _ready, with whether Android runs.
  abbrev pub when_running : Bool → Handling F → Handling F
  when_running running h = if running then h else not_running

  -- _ping
  abbrev pub pong : Option (Json F) → Handling F
  pong none = pongs null
  pong (some null) = pongs null
  pong (some (integer n)) = pongs (integer n)
  pong (some (float x)) = pongs (float x)
  pong (some (string_value t)) = if leb (length t) 64 then pongs (string_value t) else bad_request
  pong _ = bad_request

  abbrev pub stream_action : Option Text → Handling F
  stream_action none = bad_request
  stream_action (some t) =
      if text_eq t (codes "start")
      then starts_stream
      else if text_eq t (codes "stop")
      then stops_stream
      else bad_request

  abbrev pub key_message : Bool → Option Text → Option Action → Handling F
  key_message running (some key) (some a) =
      if valid_key key then when_running running (presses_key key a) else bad_request
  key_message running _ _ = bad_request

  abbrev pub button_message : Bool → Option Button → Option Action → Handling F
  button_message running (some b) (some a) = when_running running (presses_button b a)
  button_message running _ _ = bad_request

  abbrev pub text_message : Bool → Option Text → Handling F
  text_message running none = bad_request
  text_message running (some t) =
      if is_empty_text t then bad_request else when_running running (pastes_text t)
