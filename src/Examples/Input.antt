-- ===== src/Examples/Input.antt =====
-- Gestures, pointers and keys at concrete inputs.
use android_appliance.Base.{
  ◌≤◌, ◌≡◌, refl, List, [], ◌∷◌, true, false, arith, length, all, if◌then◌else◌,
}
use android_appliance.Base.Int.{ℤ, pos}
use android_appliance.Base.Text.{codes}
use android_appliance.Base.Float.{whole}
use android_appliance.Input.Touch.{put_touches}
use android_appliance.Input.Pointers.{Pointers, Point, touches, release, number}
use android_appliance.Input.Fingers.{Inv, fingers, touches-fingers, release-lifts}
use android_appliance.Input.Keys.{named, keyup, down, up, resolve_key, key_spec, is_word, home}
use android_appliance.Input.KeyLaws.{resolve_key-safe}
use android_appliance.Session.Keyboard.{of_key, of_button, Held, let_go}
use android_appliance.Session.Keys.{typed}
use android_appliance.Session.Release.{
  KeyStep, presses, stops, starts, key_steps, fresh_keys, let_go-clears,
}

-- Two fingers of one message.
abbrev two_points : List (Point ℤ)
two_points =
    record { id = number (pos 0); x = pos 10; y = pos 20; pressure = pos 1 }
    ∷ record { id = number (pos 1); x = pos 30; y = pos 40; pressure = pos 1 }
    ∷ []

two_fingers : (touches whole 7 [] two_points).next_id ≡ 9
unfolding touches
two_fingers = refl

touches-fingers_example :
    let a = touches whole 7 [] two_points in
    Inv a.next_id a.contacts × (put_touches a.result (λ _. false) 8 ≡ fingers a.contacts 8)
touches-fingers_example =
    touches-fingers whole refl 7 [] two_points (λ _. false) 8
      (record { valid = tt; bounded = omega arith }) refl

abbrev one_finger : Pointers ℤ
one_finger = record {
  contacts = record { key = number (pos 0); identifier = 7; x = pos 10; y = pos 20 } ∷ [];
  right = true;
}

release-lifts_example :
    let (q, ts) = release whole one_finger in
    (q.contacts ≡ [])
    × (q.right ≡ false)
    × (put_touches ts (λ _. true) 7 ≡ (if fingers one_finger.contacts 7 then false else true))
release-lifts_example = release-lifts whole refl one_finger (λ _. true) 7

resolve_key-safe_example : all is_word (codes "KEYCODE_CAMERA") ≡ true
resolve_key-safe_example =
    resolve_key-safe (codes "camera") (codes "KEYCODE_CAMERA") (unfold resolve_key key_spec in refl)

-- Control goes down, Android stops and starts, and the session is cut off in a paste.
abbrev ctrl_v : List KeyStep
ctrl_v =
    presses (of_key (codes "Control")) down (true ∷ [])
    ∷ stops
    ∷ starts
    ∷ presses (of_key (codes "Control")) down (true ∷ [])
    ∷ presses (of_button home) down (false ∷ [])
    ∷ presses (of_button home) up (true ∷ [])
    ∷ presses (of_key (codes "v")) down (true ∷ [])
    ∷ []

let_go-clears_example :
    let s = key_steps (λ _. false) ctrl_v (fresh_keys true (λ _. false)) in
    let (h', os) = let_go s.running s.held in
    (h' ≡ []) × (length s.held ≤ 32) × (typed os s.board (named (codes "Control")) ≡ false)
let_go-clears_example =
    let_go-clears (λ _. false) (named (codes "Control")) ctrl_v true (λ _. false)
      (tt, (tt, (tt, (tt, (tt, (tt, (tt, tt))))))) refl

abbrev control_held : Held
control_held =
    (of_key (codes "Control"), record { spec = named (codes "Control"); event_type = keyup }) ∷ []
