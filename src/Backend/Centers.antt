-- ===== src/Backend/Centers.antt =====
-- Where the nodes of the screen are tapped.
use android_appliance.Base.{
  ℕ, ◌≡◌, refl, inl, inr, Option, none, some, Bool, true, false, not, ◌&&◌, ◌||◌, List, [], ◌∷◌,
  arith, All, OnSome, Bool-cases, is_some, subst,
}
use android_appliance.Base.Int.{ℤ, pos, negsuc, ltb_ℤ, ◌+ℤ◌}
use android_appliance.Base.Text.{Text, codes, contains, text_eq, text_eq_sound}
use android_appliance.Backend.Nodes.{
  Bounds, Item, Attributes, has_action, half, Numeral, groups, is_wide, is_useful, item_of,
  with_bounds, with_groups, compact, flags_of, ui_flags, or_empty, ends_with, after_dot,
}

-- The middle of two numbers lies from the first up to the second.
half_between :
    (a b : ℤ)
    → ltb_ℤ a b ≡ true
    → (not (ltb_ℤ (half (a +ℤ b)) a) ≡ true) × (ltb_ℤ (half (a +ℤ b)) b ≡ true)
half_between (pos n) (pos m) h = ground arith
half_between (pos n) (negsuc m) h = ground arith
half_between (negsuc n) (pos m) h = ground arith
half_between (negsuc n) (negsuc m) h = ground arith

-- Inside the bounds, the right and the lower edge left out.
abbrev pub IsInside : ℤ × ℤ → Bounds → Type 0
IsInside (x, y) b =
    (not (ltb_ℤ x b.x1) ≡ true)
    × (ltb_ℤ x b.x2 ≡ true)
    × (not (ltb_ℤ y b.y1) ≡ true)
    × (ltb_ℤ y b.y2 ≡ true)

-- An item can be tapped at its center, and shows why it is listed.
abbrev pub IsListed : Item → Type 0
IsListed it =
    IsInside it.center it.bounds
    × ((is_some it.text
          || is_some it.desc
          || has_action it.flags
          || ends_with (codes "EditText") it.class_name)
        ≡ true)

not_whole :
    (p t : Text) (b : Bool)
    → contains b'.' p ≡ false
    → contains b'.' t ≡ true
    → text_eq p t || b ≡ true
    → b ≡ true
not_whole p t b d e h = elim (Bool-cases (text_eq p t)) [
  | inl q ↦ cc (subst (λ u. contains b'.' u ≡ false) (text_eq_sound p t q) d)
  | inr q ↦ rw q at h
]

ends_with-after_dot :
    (p s : Text) → contains b'.' p ≡ false → ends_with p s ≡ true → ends_with p (after_dot s) ≡ true
ends_with-after_dot p [] d h = h
ends_with-after_dot p (c ∷ s) d h = elim (Bool-cases (contains b'.' (c ∷ s))) [
  | inr e ↦ rw e h
  | inl e ↦ rw e (ends_with-after_dot p s d (not_whole p (c ∷ s) (ends_with p s) d e h))
]

both : (a b : Bool) → a && b ≡ true → (a ≡ true) × (b ≡ true)
both true b h = (refl, h)
both false b h = ground arith

shown_after :
    (t d fs e f : Bool)
    → t || d || fs || e ≡ true
    → (e ≡ true → f ≡ true)
    → t || d || fs || f ≡ true
shown_after true d fs e f h k = refl
shown_after false true fs e f h k = refl
shown_after false false true e f h k = refl
shown_after false false false e f h k = k h

module _ (is_decimal : ℕ → Bool) (digit : ℕ → ℕ) where
  item_of-IsListed :
      (a : Attributes) (b : Bounds)
      → is_wide is_decimal digit b ≡ true
      → is_useful is_decimal digit a (flags_of a ui_flags) ≡ true
      → IsListed (item_of is_decimal digit a b)
  item_of-IsListed a b h u =
      let w = both (ltb_ℤ b.x1 b.x2) (ltb_ℤ b.y1 b.y2) h in
      let x = half_between b.x1 b.x2 w.0 in
      let y = half_between b.y1 b.y2 w.1 in
      let c = or_empty (a (codes "class")) in
      (
        (x.0, x.1, y.0, y.1),
        let it = item_of is_decimal digit a b in
            shown_after (is_some it.text) (is_some it.desc) (has_action it.flags)
              (ends_with (codes "EditText") c) (ends_with (codes "EditText") it.class_name) u
              (ends_with-after_dot (codes "EditText") c refl),
      )

  with_bounds-IsListed :
      (a : Attributes) (b : Option Bounds) (rest : Option (List Item))
      → OnSome (All IsListed) rest
      → OnSome (All IsListed) (with_bounds is_decimal digit a b rest)
  with_bounds-IsListed a none rest h = tt
  with_bounds-IsListed a (some b) none h = tt
  with_bounds-IsListed a (some b) (some items) h =
      elim (Bool-cases
        (is_wide is_decimal digit b && is_useful is_decimal digit a (flags_of a ui_flags))) [
          | inl e ↦
              let k =
                both (is_wide is_decimal digit b)
                  (is_useful is_decimal digit a (flags_of a ui_flags)) e in
              rw e (item_of-IsListed a b k.0 k.1, h)
          | inr e ↦ rw e h
        ]

  with_groups-IsListed :
      (a : Attributes) (g : Option (Numeral × Numeral × Numeral × Numeral))
      (rest : Option (List Item))
      → OnSome (All IsListed) rest
      → OnSome (All IsListed) (with_groups is_decimal digit a g rest)
  with_groups-IsListed a none rest h = h
  with_groups-IsListed a (some (x1, y1, x2, y2)) rest h = with_bounds-IsListed a _ rest h

  -- Every node that the compact list names has its center inside its own bounds, so a tap there hits
  -- it, and shows a text, a description, an action or an edit field.
  pub compact-IsListed :
      (nodes : List Attributes) → OnSome (All IsListed) (compact is_decimal digit nodes)
  unfolding compact
  compact-IsListed [] = tt
  compact-IsListed (a ∷ nodes) =
      with_groups-IsListed a (groups is_decimal digit (or_empty (a (codes "bounds"))))
        (compact is_decimal digit nodes) (compact-IsListed nodes)
