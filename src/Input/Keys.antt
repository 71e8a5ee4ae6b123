-- ===== src/Input/Keys.antt =====
-- The key tables (input.py: KEYS, resolve_key, valid_key, browser_key, button_key, ascii_keys).
use android_appliance.Base.{
  ℕ, ◌+◌, ◌-◌, Option, none, some, Bool, true, false, not, ◌&&◌, ◌||◌, List, [], ◌∷◌, ◌++◌, map,
  leb, ◌==◌, if◌then◌else◌, length, drop, all,
}
use android_appliance.Base.Text.{
  Text, codes, text_eq, starts_with, is_digit, is_upper, is_lower, is_alnum,
}

-- What a KeyboardEvent names: a W3C key, or an evdev code.
pub data KeySpec : Type 0 where
  named : Text → KeySpec
  evdev : ℕ → KeySpec

pub data EventType : Type 0 where
  keydown keyup keypress : EventType

pub record KeyEvent : Type 0 where
  pub spec : KeySpec
  pub event_type : EventType

abbrev keys : List (Text × KeySpec)
keys =
    (codes "HOME", named (codes "GoHome"))
    ∷ (codes "BACK", named (codes "GoBack"))
    ∷ (codes "APP_SWITCH", named (codes "AppSwitch"))
    ∷ (codes "RECENTS", named (codes "AppSwitch"))
    ∷ (codes "POWER", named (codes "Power"))
    ∷ (codes "VOLUME_UP", named (codes "AudioVolumeUp"))
    ∷ (codes "VOLUME_DOWN", named (codes "AudioVolumeDown"))
    ∷ (codes "MENU", evdev 139)
    ∷ (codes "ENTER", named (codes "Enter"))
    ∷ (codes "TAB", named (codes "Tab"))
    ∷ (codes "DEL", named (codes "Backspace"))
    ∷ (codes "FORWARD_DEL", named (codes "Delete"))
    ∷ (codes "ESCAPE", named (codes "Escape"))
    ∷ (codes "DPAD_UP", named (codes "ArrowUp"))
    ∷ (codes "DPAD_DOWN", named (codes "ArrowDown"))
    ∷ (codes "DPAD_LEFT", named (codes "ArrowLeft"))
    ∷ (codes "DPAD_RIGHT", named (codes "ArrowRight"))
    ∷ (codes "MOVE_HOME", named (codes "Home"))
    ∷ (codes "MOVE_END", named (codes "End"))
    ∷ (codes "PASTE", evdev 135)
    ∷ (codes "SPACE", named (codes " "))
    ∷ []

lookup : Text → List (Text × KeySpec) → Option KeySpec
lookup k [] = none
lookup k ((j, v) ∷ m) = let rest = lookup k m in if text_eq j k then some v else rest

-- c.lower() and c.upper() of an ASCII character
abbrev lower : ℕ → ℕ
lower c = if is_upper c then c + 32 else c

abbrev pub upper : ℕ → ℕ
upper c = if is_lower c then c - 32 else c

-- The entries of the letters A to Z and of the digits.
character_key : Text → Option KeySpec
character_key [] = none
character_key (c ∷ d ∷ s) = none
character_key (c ∷ []) = if is_upper c || is_digit c then some (named (lower c ∷ [])) else none

-- KEYS.get(name)
unfoldable pub key_spec : Text → Option KeySpec
unfolding character_key lookup
key_spec name = elim (character_key name) [ some v ↦ some v | none ↦ lookup name keys ]

abbrev pub is_word : ℕ → Bool
is_word c = is_alnum c || c == b'_'

-- isdigit() of an ASCII text
abbrev pub is_number : Text → Bool
is_number [] = false
is_number (c ∷ s) = all is_digit (c ∷ s)

abbrev pub is_name : Text → Bool
is_name [] = false
is_name (c ∷ s) = all is_word (c ∷ s)

pub data KeyError : Type 0 where
  invalid_name caps_lock : KeyError

pub data Resolved : Type 0 where
  event : KeyEvent → Resolved
  -- The argument for `input keyevent`.
  argument : Text → Resolved
  refused : KeyError → Resolved

abbrev pub or_argument : Option KeySpec → Text → Resolved
or_argument (some spec) short = event (record { spec = spec; event_type = keypress })
or_argument none short = argument (codes "KEYCODE_" ++ short)

unfoldable pub resolve_key : Text → Resolved
resolve_key name =
    let up = map upper name in
    let prefixed = starts_with (codes "KEYCODE_") up in
    let short = if prefixed then drop 8 up else up in
    if not (is_name name)
    then refused invalid_name
    else if text_eq short (codes "CAPS_LOCK")
    then refused caps_lock
    else if is_number short && not prefixed
    then argument short
    else or_argument (key_spec short) short

pub data Action : Type 0 where
  down up press : Action

abbrev pub event_type_of : Action → EventType
event_type_of down = keydown
event_type_of up = keyup
event_type_of press = keypress

-- What a browser key becomes: an event, or a text to paste.
pub data Plan : Type 0 where
  send : KeyEvent → Plan
  paste : Text → Plan

unfoldable pub is_dropped : Text → Bool
is_dropped k =
    text_eq k (codes "CapsLock")
    || text_eq k (codes "Dead")
    || text_eq k (codes "Process")
    || text_eq k (codes "Unidentified")

-- KEYS[KEY_ALIASES[key]] if key in KEY_ALIASES else {"key": key}
unfoldable pub browser_spec : Text → KeySpec
browser_spec k =
    if text_eq k (codes "ContextMenu") || text_eq k (codes "Menu")
    then evdev 139
    else if text_eq k (codes "BrowserHome")
    then named (codes "GoHome")
    else named k

-- " " <= key <= "~"
abbrev pub is_printable_ascii : ℕ → Bool
is_printable_ascii c = leb 32 c && leb c 126

-- len(key) == 1 or a name of 1 to 32 letters and digits
unfoldable pub valid_key : Text → Bool
valid_key k = length k == 1 || all is_alnum k && leb 1 (length k) && leb (length k) 32

-- `printable` is str.isprintable of a character.
module _ (printable : ℕ → Bool) where
  unfoldable pub character_plan : ℕ → Action → Option Plan
  character_plan c up = none
  character_plan c a =
      if is_printable_ascii c
      then some (send (record { spec = named (c ∷ []); event_type = keypress }))
      else if printable c
      then some (paste (c ∷ []))
      else none

  unfoldable pub named_plan : KeySpec → Action → Bool → Option Plan
  named_plan spec down true = none
  named_plan spec down false = some (send (record { spec = spec; event_type = keydown }))
  named_plan spec up r = some (send (record { spec = spec; event_type = keyup }))
  named_plan spec press r = some (send (record { spec = spec; event_type = keypress }))

  unfoldable pub by_length : Text → Action → Bool → Option Plan
  by_length (c ∷ []) a r = character_plan c a
  by_length k a r = named_plan (browser_spec k) a r

  unfoldable pub browser_key : Text → Action → Bool → Option Plan
  unfolding by_length
  browser_key k a r = if is_dropped k then none else by_length k a r

-- The hardware buttons.
pub data Button : Type 0 where
  home back app_switch power volume_up volume_down menu : Button

abbrev pub button_name : Button → Text
button_name home = codes "HOME"
button_name back = codes "BACK"
button_name app_switch = codes "APP_SWITCH"
button_name power = codes "POWER"
button_name volume_up = codes "VOLUME_UP"
button_name volume_down = codes "VOLUME_DOWN"
button_name menu = codes "MENU"

abbrev pub button_plan : Option KeySpec → Action → Bool → Option Plan
button_plan none a r = none
button_plan (some spec) a r = named_plan (λ _. false) spec a r

-- KEYS[name] is there for every button (see `button-key_spec`).
unfoldable pub button_key : Button → Action → Bool → Option Plan
button_key b a r = button_plan (key_spec (button_name b)) a r

pub data Typed : Type 0 where
  typed : List KeyEvent → Typed
  not_ascii : Typed

abbrev pub add_typed : Option Text → Typed → Typed
add_typed none t = not_ascii
add_typed (some k) not_ascii = not_ascii
add_typed (some k) (typed es) = typed (record { spec = named k; event_type = keypress } ∷ es)

unfoldable pub ascii_key : ℕ → Option Text
ascii_key c =
    if c == 10
    then some (codes "Enter")
    else if c == 9
    then some (codes "Tab")
    else if is_printable_ascii c
    then some (c ∷ [])
    else none

unfoldable pub ascii_keys : Text → Typed
unfolding ascii_key
ascii_keys [] = typed []
ascii_keys (c ∷ s) = add_typed (ascii_key c) (ascii_keys s)
