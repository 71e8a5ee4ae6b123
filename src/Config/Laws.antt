-- ===== src/Config/Laws.antt =====
-- What a configuration that load accepts has, and where its values come from.
use android_appliance.Base.{
  or_else-none, or_else, ℕ, ◌≤◌, Option, none, some, Bool, true, false, List, [], ◌∷◌, leb,
  if◌then◌else◌, is_some, ◌≡◌, refl, sym, ap, ◌∙◌, arith, Bool-cases, inl, inr,
}
use android_appliance.Base.Text.{Text, text_eq, text_eq_congr, is_number, int_of, split_lines}
use android_appliance.Config.Fields.{
  Environ, entry, lookup, set_default, add_entry, read_lines, read_file, unless_empty, config_key,
  environment, get, or_default,
}
use android_appliance.Config.Load.{
  Checked, config_error, value_error, accepts, ◌>>=◌, checked, at_least, integer_of, integer,
}

-- The value of the first line of the file that sets the key.
abbrev pub value_in : Text → Option (Text × Text) → Option Text
value_in key none = none
value_in key (some (k, v)) = if text_eq k key then some v else none

abbrev pub first_value : Text → List Text → Option Text
first_value key [] = none
first_value key (line ∷ lines) = or_else (value_in key (entry line)) (first_value key lines)

lookup-present :
    (b : Bool) (w v : Text) (rest : Option Text)
    → (if b then some w else rest)
      ≡ or_else (if b then some w else rest) (if b then some v else none)
lookup-present true w v rest = refl
lookup-present false w v rest = sym (or_else-none rest)

if-or_else :
    (b : Bool) (w : Text) (a c : Option Text)
    → (if b then some w else or_else a c) ≡ or_else (if b then some w else a) c
if-or_else true w a c = refl
if-or_else false w a c = refl

lookup-set_default :
    (key k v : Text) (values : List (Text × Text))
    → lookup key (set_default k v values) ≡ or_else (lookup key values) (value_in key (some (k, v)))
unfolding set_default
lookup-set_default key k v [] = refl
lookup-set_default key k v ((l, w) ∷ values) =
    let rec = lookup-set_default key k v values in
    elim (Bool-cases (text_eq l k)) [
      | inl same ↦
          rw (same, sym (text_eq_congr l k key same))
            (lookup-present (text_eq l key) w v (lookup key values))
      | inr differs ↦
          rw (differs, rec)
            (if-or_else (text_eq l key) w (lookup key values) (value_in key (some (k, v))))
    ]

lookup-add_entry :
    (key : Text) (e : Option (Text × Text)) (values : List (Text × Text))
    → lookup key (add_entry e values) ≡ or_else (lookup key values) (value_in key e)
lookup-add_entry key none values = sym (or_else-none (lookup key values))
lookup-add_entry key (some (k, v)) values = lookup-set_default key k v values

or_else_assoc : (a b c : Option Text) → or_else (or_else a b) c ≡ or_else a (or_else b c)
or_else_assoc none b c = refl
or_else_assoc (some a) b c = refl

lookup-read_lines :
    (key : Text) (lines : List Text) (values : List (Text × Text))
    → lookup key (read_lines lines values) ≡ or_else (lookup key values) (first_value key lines)
lookup-read_lines key [] values = sym (or_else-none (lookup key values))
lookup-read_lines key (line ∷ lines) values =
    lookup-read_lines key lines (add_entry (entry line) values)
    ∙ (ap (λ o. or_else o (first_value key lines)) (lookup-add_entry key (entry line) values)
        ∙ or_else_assoc (lookup key values) (value_in key (entry line)) (first_value key lines))

-- If APPLIANCE_CONFIG names a file, the value of a key is what the environment sets, be it empty, and
-- else what the first line of the file that sets the key gives.
environment_lem :
    (files : Text → Text) (environ : Environ) (path key : Text)
    → unless_empty (environ config_key) ≡ some path
    → environment files environ key
      ≡ or_else (environ key) (first_value key (split_lines (files path)))
unfolding environment read_file
environment_lem files environ path key h =
    rw h (ap (or_else (environ key)) (lookup-read_lines key (split_lines (files path)) []))

-- A checked value has the property, and an error names a key that is set.
unfoldable pub Checks : {A : Type 0} → Environ → (A → Type 0) → Checked A → Type 0
Checks env P (config_error key) = is_some (get env key) ≡ true
Checks env P value_error = Unit
Checks env P (accepts a) = P a

pub bind-Checks :
    {A B : Type 0} (env : Environ) (P : A → Type 0) (Q : B → Type 0) (m : Checked A)
    (f : A → Checked B)
    → Checks env P m
    → ((a : A) → P a → Checks env Q (f a))
    → Checks env Q (m >>= f)
unfolding Checks
bind-Checks env P Q (config_error key) f h k = h
bind-Checks env P Q value_error f h k = h
bind-Checks env P Q (accepts a) f h k = k a h

pub checked-Checks :
    (env : Environ) (key default : Text) (test : Text → Bool) (change : Text → Text)
    (given : Option Text)
    → get env key ≡ given
    → test (change default) ≡ true
    → Checks env (λ v. test v ≡ true) (checked key test (change (or_default given default)))
unfolding Checks
checked-Checks env key default test change none g d = rw d d
checked-Checks env key default test change (some raw) g d = elim (Bool-cases (test (change raw))) [
  | inl e ↦ rw e e
  | inr e ↦ rw (e, g) refl
]

at_least-Checks :
    (env : Environ) (key : Text) (minimum : ℕ) (n : Option ℕ)
    → is_some (get env key) ≡ true
    → Checks env (λ v. minimum ≤ v) (at_least key minimum n)
unfolding Checks
at_least-Checks env key minimum none h = tt
at_least-Checks env key minimum (some n) h = elim (Bool-cases (leb minimum n)) [
  | inl e ↦ rw e (ground arith)
  | inr e ↦ rw e h
]

integer_of-Checks :
    (env : Environ) (key : Text) (default minimum : ℕ) (given : Option Text)
    → get env key ≡ given
    → (given ≡ none → minimum ≤ default)
    → Checks env (λ v. minimum ≤ v) (integer_of key given default minimum)
unfolding Checks
integer_of-Checks env key default minimum none g h = h refl
integer_of-Checks env key default minimum (some raw) g h =
    let set : is_some (get env key) ≡ true = rw g refl in
    elim (Bool-cases (is_number raw)) [
      | inl e ↦ rw e (at_least-Checks env key minimum (int_of raw) set)
      | inr e ↦ rw e set
    ]

pub integer-Checks :
    (env : Environ) (key : Text) (default minimum : ℕ)
    → (get env key ≡ none → minimum ≤ default)
    → Checks env (λ v. minimum ≤ v) (integer env key default minimum)
unfolding integer
integer-Checks env key default minimum h =
    integer_of-Checks env key default minimum (get env key) refl h
