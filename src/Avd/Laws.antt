-- ===== src/Avd/Laws.antt =====
-- What setting the managed keys does to config.ini.
use android_appliance.Base.{
  or_else, ◌≡◌, refl, ap, inl, inr, Option, none, some, Bool, true, false, not, ◌&&◌, List, [], ◌∷◌,
  ◌++◌, ◌==◌, arith, Bool-cases, is_some,
}
use android_appliance.Base.Text.{Text, text_eq, contains}
use android_appliance.Avd.Ini.{
  value_of, read_key, without_unit, setting, replace_line, replace_lines, set_key,
}

-- A key has no '=' and no space.
abbrev pub is_plain : Text → Bool
is_plain key = not (contains b'=' key) && not (contains b' ' key)

abbrev pub starts_space : Text → Bool
starts_space [] = false
starts_space (c ∷ s) = c == b' '

-- A value that reads back as it is written, without a unit.
abbrev pub is_value : Text → Bool
is_value v = not (starts_space v) && text_eq (without_unit v) v

-- The value of a key is the given one, but for a unit.
abbrev pub has : Text → Option Text → Bool
has v none = false
has v (some w) = text_eq (without_unit w) v

value_of-setting : (key v : Text) → starts_space v ≡ false → value_of key (setting key v) ≡ some v
value_of-setting [] [] h = refl
value_of-setting [] (c ∷ v) h = rw h refl
value_of-setting (c ∷ key) v h = ground (arith, value_of-setting key v h)

value_of_unique :
    (k j line : Text)
    → is_plain k ≡ true
    → is_plain j ≡ true
    → is_some (value_of k line) ≡ true
    → is_some (value_of j line) ≡ true
    → text_eq k j ≡ true
value_of_unique [] [] line p q a b = refl
value_of_unique [] (d ∷ j) [] p q a b = cc
value_of_unique [] (d ∷ j) (c ∷ line) p q a b = ground arith
value_of_unique (d ∷ k) [] [] p q a b = cc
value_of_unique (d ∷ k) [] (c ∷ line) p q a b = ground arith
value_of_unique (d ∷ k) (e ∷ j) [] p q a b = cc
value_of_unique (d ∷ k) (e ∷ j) (c ∷ line) p q a b = ground (arith, value_of_unique k j line)

-- A line of one key is no line of another.
value_of_other :
    (k j line : Text)
    → is_plain k ≡ true
    → is_plain j ≡ true
    → text_eq k j ≡ false
    → is_some (value_of k line) ≡ true
    → value_of j line ≡ none
value_of_other k j line p q n a = ground (arith, value_of_unique k j line p q a)

read_key-append :
    (ls : List Text) (l k : Text)
    → read_key (ls ++ l ∷ []) k ≡ or_else (read_key ls k) (value_of k l)
unfolding read_key
read_key-append [] l k = ground arith
read_key-append (x ∷ ls) l k = ground (arith, read_key-append ls l k)

read_key-replace_lines :
    (k v : Text) (ls : List Text)
    → starts_space v ≡ false
    → is_some (read_key ls k) ≡ true
    → read_key (replace_lines k v ls) k ≡ some v
unfolding read_key
read_key-replace_lines k v [] h a = cc
read_key-replace_lines k v (l ∷ ls) h a =
    ground (arith, read_key-replace_lines k v ls h, value_of-setting k v h)

replace_line_other :
    (k j v l : Text)
    → is_plain k ≡ true
    → is_plain j ≡ true
    → text_eq k j ≡ false
    → starts_space v ≡ false
    → value_of j (replace_line k v l) ≡ value_of j l
replace_line_other k j v l p q n h = elim (Bool-cases (is_some (value_of k l))) [
  | inl a ↦
      rw (a, value_of_other k j l p q n a)
        (value_of_other k j (setting k v) p q n (ap is_some (value_of-setting k v h)))
  | inr a ↦ rw a refl
]

read_key-replace_lines_other :
    (k j v : Text) (ls : List Text)
    → is_plain k ≡ true
    → is_plain j ≡ true
    → text_eq k j ≡ false
    → starts_space v ≡ false
    → read_key (replace_lines k v ls) j ≡ read_key ls j
unfolding read_key
read_key-replace_lines_other k j v [] p q n h = refl
read_key-replace_lines_other k j v (l ∷ ls) p q n h =
    rw (replace_line_other k j v l p q n h, read_key-replace_lines_other k j v ls p q n h) refl

pub set_key-has :
    (ls : List Text) (k v : Text) → is_value v ≡ true → has v (read_key (set_key ls k v).0 k) ≡ true
unfolding set_key
set_key-has ls k v h =
    ground (
      arith,
      read_key-append ls (setting k v) k,
      value_of-setting k v,
      read_key-replace_lines k v ls,
    )

pub set_key_same :
    (ls : List Text) (k v : Text) → has v (read_key ls k) ≡ true → set_key ls k v ≡ (ls, false)
unfolding set_key
set_key_same ls k v h = ground arith

pub set_key_other :
    (ls : List Text) (k j v : Text)
    → is_plain k ≡ true
    → is_plain j ≡ true
    → text_eq k j ≡ false
    → is_value v ≡ true
    → read_key (set_key ls k v).0 j ≡ read_key ls j
unfolding set_key
set_key_other ls k j v p q n h = ground (
  arith,
  read_key-append ls (setting k v) j,
  value_of-setting k v,
  value_of_other k j (setting k v) p q n,
  read_key-replace_lines_other k j v ls p q n,
)
