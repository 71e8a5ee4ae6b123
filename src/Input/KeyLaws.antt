-- ===== src/Input/KeyLaws.antt =====
-- What the key tables guarantee.
use android_appliance.Base.{
  ℕ, ◌≡◌, refl, inl, inr, Option, none, some, Bool, true, false, not, ◌&&◌, ◌||◌, List, [], ◌∷◌,
  ◌++◌, map, arith, ◌==◌, if◌then◌else◌, length, drop, all, Bool-cases,
}
use android_appliance.Base.Text.{Text, codes, text_eq, starts_with}
use android_appliance.Input.Keys.{
  KeySpec, KeyEvent, keydown, keyup, keypress, argument, refused, invalid_name, caps_lock, key_spec,
  is_word, is_name, is_number, upper, or_argument, resolve_key, down, up, press, Plan, send, paste,
  named_plan, character_plan, browser_key, Button, home, back, app_switch, power, volume_up,
  volume_down, menu, button_name, button_key, Typed, typed, not_ascii, add_typed, ascii_key,
  ascii_keys, is_printable_ascii,
}

all-append :
    (p : ℕ → Bool) (xs ys : List ℕ) → all p xs ≡ true → all p ys ≡ true → all p (xs ++ ys) ≡ true
all-append p [] ys h k = k
all-append p (x ∷ xs) ys h k = ground (arith, all-append p xs ys)

all-drop : (p : ℕ → Bool) (n : ℕ) (xs : List ℕ) → all p xs ≡ true → all p (drop n xs) ≡ true
all-drop p ℕ.zero xs h = h
all-drop p (ℕ.suc n) [] h = refl
all-drop p (ℕ.suc n) (x ∷ xs) h = all-drop p n xs (ground arith)

upper-is_word : (c : ℕ) → is_word c ≡ true → is_word (upper c) ≡ true
upper-is_word c h = ground arith

map-is_word : (s : Text) → all is_word s ≡ true → all is_word (map upper s) ≡ true
map-is_word [] h = refl
map-is_word (c ∷ s) h = ground (arith, upper-is_word c, map-is_word s)

is_name-all : (s : Text) → is_name s ≡ true → all is_word s ≡ true
is_name-all [] h = cc
is_name-all (c ∷ s) h = h

-- Whatever name is asked for, the argument that reaches the device shell has only letters, digits
-- and underscores.
pub resolve_key-safe : (name arg : Text) → resolve_key name ≡ argument arg → all is_word arg ≡ true
unfolding resolve_key
resolve_key-safe name arg h =
    let up = map upper name in
    elim (Bool-cases (starts_with (codes "KEYCODE_") up)) [
      | inl p ↦ safe_in (drop 8 up) true (all-drop is_word 8 up) (rw p at h)
      | inr p ↦ safe_in up false (λ w. w) (rw p at h)
    ]
  where
    safe_last :
        (short : Text) (o : Option KeySpec)
        → all is_word short ≡ true
        → or_argument o short ≡ argument arg
        → all is_word arg ≡ true
    safe_last short (some v) w e = cc
    safe_last short none w e = ground (arith, all-append is_word (codes "KEYCODE_") short refl w)

    safe_in :
        (short : Text) (prefixed : Bool)
        → (all is_word (map upper name) ≡ true → all is_word short ≡ true)
        → (if not (is_name name)
            then refused invalid_name
            else if text_eq short (codes "CAPS_LOCK")
            then refused caps_lock
            else if is_number short && not prefixed
            then argument short
            else or_argument (key_spec short) short)
          ≡ argument arg
        → all is_word arg ≡ true
    safe_in short prefixed w e = elim (Bool-cases (is_name name)) [
      | inl n ↦ ground (
        arith,
        n,
        safe_last short (key_spec short) (w (map-is_word name (is_name-all name n))),
        w (map-is_word name (is_name-all name n)),
      )
      | inr n ↦ absurd (ground (arith, n))
    ]

-- Every hardware button is in the key table.
button-key_spec : (b : Button) → (v : KeySpec) × (key_spec (button_name b) ≡ some v)
unfolding key_spec
button-key_spec home = (_, refl)
button-key_spec back = (_, refl)
button-key_spec app_switch = (_, refl)
button-key_spec power = (_, refl)
button-key_spec volume_up = (_, refl)
button-key_spec volume_down = (_, refl)
button-key_spec menu = (_, refl)

-- A key event that goes down has its counterpart: the same key, and the plan of `up`.
abbrev pub Answers : Option Plan → Option Plan → Type 0
Answers p q =
    (e : KeyEvent)
    → p ≡ some (send e)
    → e.event_type ≡ keydown
    → q ≡ some (send (record e { event_type = keyup }))

module _ (printable : ℕ → Bool) where
  pub browser_key-up :
      (k : Text) (r r' : Bool)
      → Answers (browser_key printable k down r) (browser_key printable k up r')
  unfolding browser_key character_plan named_plan
  browser_key-up [] r r' e p t = ground (arith, p, t)
  browser_key-up (c ∷ []) r r' e p t = ground (arith, p, t)
  browser_key-up (c ∷ d ∷ k) r r' e p t = ground (arith, p, t)

pub button_key-up : (b : Button) (r r' : Bool) → Answers (button_key b down r) (button_key b up r')
unfolding button_key named_plan
button_key-up b r r' e p t = ground (arith, p, t)

-- The codes that `ascii_keys` types: newline, tab and the printable ASCII characters.
abbrev pub is_typable : ℕ → Bool
is_typable c = c == 10 || c == 9 || is_printable_ascii c

abbrev pub is_press : KeyEvent → Bool
is_press e = elim e.event_type [ keypress ↦ true | _ ↦ false ]

abbrev pub Types : Text → Typed → Type 0
Types s not_ascii = all is_typable s ≡ false
Types s (typed es) = (all is_typable s ≡ true) × (length es ≡ length s) × (all is_press es ≡ true)

add-Types : (c : ℕ) (s : Text) (t : Typed) → Types s t → Types (c ∷ s) (add_typed (ascii_key c) t)
unfolding ascii_key
add-Types c s not_ascii h = ground arith
add-Types c s (typed es) h = ground arith

-- The keys method refuses a text exactly if it has a character other than newline, tab and
-- printable ASCII, and else types one key press for each character.
ascii_keys-Types : (s : Text) → Types s (ascii_keys s)
unfolding ascii_keys
ascii_keys-Types [] = (refl, refl, refl)
ascii_keys-Types (c ∷ s) = add-Types c s (ascii_keys s) (ascii_keys-Types s)

-- The plan of `up` is nothing or the event that lets the key go.
abbrev pub LetsGo : Option Plan → Type 0
LetsGo p = (e : KeyEvent) → p ≡ some (send e) → e.event_type ≡ keyup

abbrev pub sends : Option Plan → Bool
sends (some (paste t)) = false
sends _ = true

module _ (printable : ℕ → Bool) where
  pub browser_key-repeat :
      (k : Text) (r r' : Bool) → browser_key printable k up r ≡ browser_key printable k up r'
  unfolding browser_key character_plan named_plan
  browser_key-repeat [] r r' = refl
  browser_key-repeat (c ∷ []) r r' = refl
  browser_key-repeat (c ∷ d ∷ k) r r' = refl

  pub browser_key-LetsGo : (k : Text) (r : Bool) → LetsGo (browser_key printable k up r)
  unfolding browser_key character_plan named_plan
  browser_key-LetsGo [] r e p = ground (arith, p)
  browser_key-LetsGo (c ∷ []) r e p = ground (arith, p)
  browser_key-LetsGo (c ∷ d ∷ k) r e p = ground (arith, p)

  pub browser_key-sends : (k : Text) (r : Bool) → sends (browser_key printable k up r) ≡ true
  unfolding browser_key character_plan named_plan
  browser_key-sends [] r = ground arith
  browser_key-sends (c ∷ []) r = ground arith
  browser_key-sends (c ∷ d ∷ k) r = ground arith

  pub browser_key-press :
      (k : Text) (r : Bool) (e : KeyEvent)
      → browser_key printable k press r ≡ some (send e)
      → e.event_type ≡ keypress
  unfolding browser_key character_plan named_plan
  browser_key-press [] r e p = ground (arith, p)
  browser_key-press (c ∷ []) r e p = ground (arith, p)
  browser_key-press (c ∷ d ∷ k) r e p = ground (arith, p)

pub button_key-press :
    (b : Button) (r : Bool) (e : KeyEvent)
    → button_key b press r ≡ some (send e)
    → e.event_type ≡ keypress
unfolding button_key named_plan
button_key-press b r e p = ground (arith, p)

pub button_key-repeat : (b : Button) (r r' : Bool) → button_key b up r ≡ button_key b up r'
unfolding button_key named_plan
button_key-repeat b r r' = ground arith

pub button_key-LetsGo : (b : Button) (r : Bool) → LetsGo (button_key b up r)
unfolding button_key named_plan
button_key-LetsGo b r e p = ground (arith, p)

pub button_key-sends : (b : Button) (r : Bool) → sends (button_key b up r) ≡ true
unfolding button_key named_plan
button_key-sends b r = ground arith
