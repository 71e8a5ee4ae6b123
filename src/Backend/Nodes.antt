-- ===== src/Backend/Nodes.antt =====
-- The screen as a list of nodes (backend.py: compact, UI_FLAGS). A node is its attributes, in the
-- order of ElementTree. `\d` and int take the decimal digits of every script: which characters they
-- are, and their values, are parameters.
use android_appliance.Base.{
  ℕ, ◌+◌, ◌*◌, ◌/◌, Option, none, some, Bool, true, false, ◌&&◌, ◌||◌, List, [], ◌∷◌, ◌==◌, leb,
  if◌then◌else◌, length, is_some,
}
use android_appliance.Base.Int.{ℤ, pos, negsuc, ltb_ℤ, ◌+ℤ◌, ◌-ℤ◌}
use android_appliance.Base.Text.{Text, codes, text_eq, contains, is_empty_text}

pub record Bounds : Type 0 where
  pub x1 : ℤ
  pub y1 : ℤ
  pub x2 : ℤ
  pub y2 : ℤ

-- A node of the result. The text, the description and the identifier are left out where they are
-- none, as are empty flags.
pub record Item : Type 0 where
  pub class_name : Text
  pub text : Option Text
  pub desc : Option Text
  pub id : Option Text
  pub bounds : Bounds
  pub center : ℤ × ℤ
  pub flags : List Text

abbrev pub Attributes : Type 0
Attributes = Text → Option Text

-- a.get(key, "")
abbrev pub or_empty : Option Text → Text
or_empty none = []
or_empty (some t) = t

abbrev pub ui_flags : List Text
ui_flags =
    codes "clickable"
    ∷ codes "long-clickable"
    ∷ codes "scrollable"
    ∷ codes "checkable"
    ∷ codes "checked"
    ∷ codes "focused"
    ∷ codes "selected"
    ∷ codes "password"
    ∷ []

abbrev pub flags_of : Attributes → List Text → List Text
flags_of a [] =
    if text_eq (or_empty (a (codes "enabled"))) (codes "false") then codes "disabled" ∷ [] else []
flags_of a (f ∷ fs) =
    let rest = flags_of a fs in if text_eq (or_empty (a f)) (codes "true") then f ∷ rest else rest

abbrev pub is_action : Text → Bool
is_action f =
    text_eq f (codes "clickable")
    || text_eq f (codes "long-clickable")
    || text_eq f (codes "scrollable")
    || text_eq f (codes "checkable")
    || text_eq f (codes "focused")

abbrev pub has_action : List Text → Bool
has_action [] = false
has_action (f ∷ fs) = is_action f || has_action fs

-- cls.rsplit(".", 1)[-1]
abbrev pub after_dot : Text → Text
after_dot [] = []
after_dot (c ∷ s) = let rest = after_dot s in if contains b'.' (c ∷ s) then rest else c ∷ s

-- s.endswith(p)
abbrev pub ends_with : Text → Text → Bool
ends_with p [] = is_empty_text p
ends_with p (c ∷ s) = text_eq p (c ∷ s) || ends_with p s

abbrev pub unless_empty : Text → Option Text
unless_empty [] = none
unless_empty (c ∷ s) = some (c ∷ s)

-- z // 2
abbrev pub half : ℤ → ℤ
half (pos n) = pos (n / 2)
half (negsuc n) = negsuc (n / 2)

-- A number of the pattern: whether it has a minus sign, and its digits.
abbrev pub Numeral : Type 0
Numeral = Bool × Text

module _ (is_decimal : ℕ → Bool) (digit : ℕ → ℕ) where
  abbrev pub take_decimals : Text → Text
  take_decimals [] = []
  take_decimals (c ∷ s) = let rest = take_decimals s in if is_decimal c then c ∷ rest else []

  abbrev pub drop_decimals : Text → Text
  drop_decimals [] = []
  drop_decimals (c ∷ s) = let rest = drop_decimals s in if is_decimal c then rest else c ∷ s

  -- \d+ and then the character `stop`.
  abbrev pub after_stop : ℕ → Bool → Text → Text → Option (Numeral × Text)
  after_stop stop minus [] s = none
  after_stop stop minus (d ∷ ds) [] = none
  after_stop stop minus (d ∷ ds) (c ∷ s) = if c == stop then some ((minus, d ∷ ds), s) else none

  abbrev pub numeral : ℕ → Text → Option (Numeral × Text)
  numeral stop [] = none
  numeral stop (c ∷ s) =
      if c == b'-'
      then after_stop stop true (take_decimals s) (drop_decimals s)
      else after_stop stop false (take_decimals (c ∷ s)) (drop_decimals (c ∷ s))

  abbrev pub second_number : Option (Numeral × Text) → Option (Numeral × Numeral × Text)
  second_number none = none
  second_number (some (x, s)) = elim (numeral b']' s) [ none ↦ none | some (y, t) ↦ some (x, y, t) ]

  -- \[(-?\d+),(-?\d+)\]
  abbrev pub pair : Text → Option (Numeral × Numeral × Text)
  pair [] = none
  pair (c ∷ s) = if c == b'[' then second_number (numeral b',' s) else none

  abbrev pub at_end :
      Numeral
      → Numeral
      → Option (Numeral × Numeral × Text)
      → Option (Numeral × Numeral × Numeral × Numeral)
  at_end x1 y1 (some (x2, y2, [])) = some (x1, y1, x2, y2)
  at_end x1 y1 _ = none

  -- The groups of the pattern, on the whole text.
  unfoldable pub groups : Text → Option (Numeral × Numeral × Numeral × Numeral)
  groups s = elim (pair s) [ none ↦ none | some (x1, y1, t) ↦ at_end x1 y1 (pair t) ]

  abbrev pub value_from : ℕ → Text → ℕ
  value_from n [] = n
  value_from n (c ∷ s) = value_from (n * 10 + digit c) s

  abbrev pub negated : ℕ → ℤ
  negated n = pos 0 -ℤ pos n

  -- int: it refuses more than 4300 digits with a ValueError.
  abbrev pub int_of : Numeral → Option ℤ
  int_of (minus, s) =
      if leb (length s) 4300
      then some (if minus then negated (value_from 0 s) else pos (value_from 0 s))
      else none

  abbrev pub ints : Option ℤ → Option ℤ → Option ℤ → Option ℤ → Option Bounds
  ints (some a) (some b) (some c) (some d) = some (record { x1 = a; y1 = b; x2 = c; y2 = d })
  ints _ _ _ _ = none

  abbrev pub is_wide : Bounds → Bool
  is_wide b = ltb_ℤ b.x1 b.x2 && ltb_ℤ b.y1 b.y2

  -- Whether an agent can act on the node or read it.
  abbrev pub is_useful : Attributes → List Text → Bool
  is_useful a fs =
      is_some (unless_empty (or_empty (a (codes "text"))))
      || is_some (unless_empty (or_empty (a (codes "content-desc"))))
      || has_action fs
      || ends_with (codes "EditText") (or_empty (a (codes "class")))

  abbrev pub item_of : Attributes → Bounds → Item
  item_of a b = record {
    class_name = after_dot (or_empty (a (codes "class")));
    text = unless_empty (or_empty (a (codes "text")));
    desc = unless_empty (or_empty (a (codes "content-desc")));
    id = unless_empty (or_empty (a (codes "resource-id")));
    bounds = b;
    center = (half (b.x1 +ℤ b.x2), half (b.y1 +ℤ b.y2));
    flags = flags_of a ui_flags;
  }

  abbrev pub with_bounds : Attributes → Option Bounds → Option (List Item) → Option (List Item)
  with_bounds a none rest = none
  with_bounds a (some b) none = none
  with_bounds a (some b) (some items) =
      if is_wide b && is_useful a (flags_of a ui_flags)
      then some (item_of a b ∷ items)
      else some items

  abbrev pub with_groups :
      Attributes
      → Option (Numeral × Numeral × Numeral × Numeral)
      → Option (List Item)
      → Option (List Item)
  with_groups a none rest = rest
  with_groups a (some (x1, y1, x2, y2)) rest =
      with_bounds a (ints (int_of x1) (int_of y1) (int_of x2) (int_of y2)) rest

  -- compact: none is the ValueError.
  unfoldable pub compact : List Attributes → Option (List Item)
  compact [] = some []
  compact (a ∷ nodes) = with_groups a (groups (or_empty (a (codes "bounds")))) (compact nodes)
