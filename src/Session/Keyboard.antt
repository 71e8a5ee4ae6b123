-- ===== src/Session/Keyboard.antt =====
-- The keys and buttons that a session holds (session.py: _press, _send_key, _paste, _let_go).
-- What a call sends is a list, in order. The held keys are changed before a send is awaited, so a send
-- that fails or is cancelled leaves them as they are here; which sends get through is said in
-- Session.Keys (deliver).
use android_appliance.Base.{
  ℕ, Option, none, some, Bool, true, false, not, ◌&&◌, ◌||◌, List, [], ◌∷◌, ◌++◌, leb,
  if◌then◌else◌, length,
}
use android_appliance.Base.Text.{Text, codes, text_eq}
use android_appliance.Input.Keys.{
  KeySpec, named, evdev, KeyEvent, EventType, keydown, keyup, Action, up, Plan, send, paste,
  browser_key, Button, home, back, app_switch, power, volume_up, volume_down, menu, button_key,
}

-- The name under which a key is held: "key:..." or "button:...".
pub data HeldName : Type 0 where
  of_key : Text → HeldName
  of_button : Button → HeldName

abbrev pub button_eq : Button → Button → Bool
button_eq home home = true
button_eq back back = true
button_eq app_switch app_switch = true
button_eq power power = true
button_eq volume_up volume_up = true
button_eq volume_down volume_down = true
button_eq menu menu = true
button_eq _ _ = false

abbrev pub held_eq : HeldName → HeldName → Bool
held_eq (of_key s) (of_key t) = text_eq s t
held_eq (of_button a) (of_button b) = button_eq a b
held_eq _ _ = false

-- `_held`: the event that lets each key go.
abbrev pub Held : Type 0
Held = List (HeldName × KeyEvent)

abbrev pub max_held : ℕ
max_held = 32

abbrev pub holds : HeldName → Held → Bool
holds n [] = false
holds n ((m, e) ∷ h) = held_eq m n || holds n h

-- self._held.pop(name, None)
abbrev pub pop : HeldName → Held → Held
pop n [] = []
pop n ((m, e) ∷ h) = let rest = pop n h in if held_eq m n then h else (m, e) ∷ rest

-- self._held[name] = event
abbrev pub put : HeldName → KeyEvent → Held → Held
put n v [] = (n, v) ∷ []
put n v ((m, e) ∷ h) = let rest = put n v h in if held_eq m n then (m, v) ∷ h else (m, e) ∷ rest

pub data Out : Type 0 where
  sent : KeyEvent → Out
  pasted : Text → Out
  refused : Out

-- `running`: there is an emulator.
unfoldable pub send_key : Bool → KeyEvent → List Out
send_key true e = sent e ∷ []
send_key false e = refused ∷ []

abbrev pub is_modifier : KeySpec → Bool
is_modifier (evdev n) = false
is_modifier (named k) =
    text_eq k (codes "Control")
    || text_eq k (codes "Shift")
    || text_eq k (codes "Alt")
    || text_eq k (codes "AltGraph")
    || text_eq k (codes "Meta")

unfoldable pub modifiers : Held → List KeyEvent
modifiers [] = []
modifiers ((m, e) ∷ h) = let rest = modifiers h in if is_modifier e.spec then e ∷ rest else rest

-- The modifiers that are held go up for the paste, and down again after it.
unfoldable pub ups : List KeyEvent → List Out
ups [] = []
ups (e ∷ es) = sent e ∷ ups es

unfoldable pub downs : List KeyEvent → List Out
downs [] = []
downs (e ∷ es) = sent (record e { event_type = keydown }) ∷ downs es

unfoldable pub paste_text : Bool → Text → Held → List Out
paste_text running text h =
    if running then ups (modifiers h) ++ (pasted text ∷ downs (modifiers h)) else refused ∷ []

abbrev pub is_keydown : EventType → Bool
is_keydown keydown = true
is_keydown _ = false

abbrev pub is_up : Action → Bool
is_up up = true
is_up _ = false

-- The part of `_press` after the plan is made.
unfoldable pub press_plan : Bool → HeldName → Option Plan → Held → Held × List Out
unfolding send_key
press_plan running n none h = (h, [])
press_plan running n (some (paste t)) h = (h, paste_text running t h)
press_plan running n (some (send e)) h =
    if is_keydown e.event_type
    then (if leb max_held (length h) && not (holds n h)
        then (h, refused ∷ [])
        else (put n (record e { event_type = keyup }) h, send_key running e))
    else (h, send_key running e)

module _ (printable : ℕ → Bool) where
  unfoldable pub plan_of : HeldName → Action → Bool → Option Plan
  plan_of (of_key k) a r = browser_key printable k a r
  plan_of (of_button b) a r = button_key b a r

  unfoldable pub press_key : Bool → HeldName → Action → Held → Held × List Out
  unfolding plan_of press_plan
  press_key running n a h =
      press_plan running n (plan_of n a (holds n h)) (if is_up a then pop n h else h)

abbrev pub all_sent : Held → List Out
all_sent [] = []
all_sent ((m, e) ∷ h) = sent e ∷ all_sent h

-- The keys of `_let_go`; the touches go first (see Input.Pointers.release).
unfoldable pub let_go : Bool → Held → Held × List Out
let_go running h = if running then ([], all_sent h) else ([], [])
