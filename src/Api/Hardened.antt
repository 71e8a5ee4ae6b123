-- ===== src/Api/Hardened.antt =====
-- The headers that every response carries (api.py: hardened).
use android_appliance.Base.{
  or_else-none, or_else_assoc, or_else, ◌≡◌, refl, sym, ◌∙◌, ap, subst, inl, inr, Option, none,
  some, List, [], ◌∷◌, ◌++◌, Bool-cases,
}
use android_appliance.Base.Text.{Text, codes, text_eq, text_eq_sound}
use android_appliance.Api.Gate.{http}
use android_appliance.Api.Responses.{
  Header, value_of, unless_set, set_default, set_defaults, policy_for, caching_for, hardened,
}

value_of-append :
    (n : Text) (hs ks : List Header)
    → value_of n (hs ++ ks) ≡ or_else (value_of n hs) (value_of n ks)
value_of-append n [] ks = refl
value_of-append n (h ∷ hs) ks = elim (Bool-cases (text_eq h.0 n)) [
  | inl e ↦ rw e refl
  | inr e ↦ rw e (value_of-append n hs ks)
]

-- A header that is set already, for each name.
set_kept :
    (n : Text) (h : Header) (hs : List Header) (v : Text)
    → value_of h.0 hs ≡ some v
    → value_of n hs ≡ or_else (value_of n hs) (value_of n (h ∷ []))
set_kept n h hs v e = elim (Bool-cases (text_eq h.0 n)) [
  | inr k ↦ rw k (sym (or_else-none (value_of n hs)))
  | inl k ↦
      let told : value_of n hs ≡ some v =
        subst (λ m. value_of m hs ≡ some v) (text_eq_sound h.0 n k) e in
      rw told refl
]

value_of-set_default :
    (n : Text) (h : Header) (hs : List Header) (o : Option Text)
    → value_of h.0 hs ≡ o
    → value_of n (unless_set o h hs) ≡ or_else (value_of n hs) (value_of n (h ∷ []))
value_of-set_default n h hs none e = value_of-append n hs (h ∷ [])
value_of-set_default n h hs (some v) e = set_kept n h hs v e

value_of-set_defaults :
    (n : Text) (ds hs : List Header)
    → value_of n (set_defaults ds hs) ≡ or_else (value_of n hs) (value_of n ds)
unfolding set_defaults set_default
value_of-set_defaults n [] hs = sym (or_else-none (value_of n hs))
value_of-set_defaults n (d ∷ ds) hs =
    value_of-set_defaults n ds (set_default d hs)
    ∙ ap (λ o. or_else o (value_of n ds)) (value_of-set_default n d hs (value_of d.0 hs) refl)
    ∙ or_else_assoc (value_of n hs) (value_of n (d ∷ [])) (value_of n ds)
    ∙ ap (or_else (value_of n hs)) (sym (value_of-append n (d ∷ []) ds))

-- The headers that hardened sets.
abbrev pub defaults : Text → List Header
defaults path =
    (codes "x-frame-options", codes "DENY")
    ∷ (codes "x-content-type-options", codes "nosniff")
    ∷ (codes "referrer-policy", codes "same-origin")
    ∷ (codes "content-security-policy", policy_for path)
    ∷ (codes "cache-control", caching_for path)
    ∷ []

-- Every HTTP response has each of the five headers. One that the handler set keeps its value, and so
-- does every other header; one that it did not set has the value for the path.
pub hardened_lem :
    (path n : Text) (hs : List Header)
    → value_of n (hardened http path hs) ≡ or_else (value_of n hs) (value_of n (defaults path))
unfolding hardened set_defaults set_default
hardened_lem path n hs = value_of-set_defaults n (defaults path) hs
