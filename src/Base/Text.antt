-- ===== src/Base/Text.antt =====
-- Texts as their code points, with the tests of `str` that the source uses.
use Prim.Native.Char.{code}
use Prim.Native.String.{String}
use Prim.Native.Nat.{ℕ, ◌+◌, ◌-◌, ◌*◌}
use mathlib.Core.Path.{◌≡◌, refl, ap}
use mathlib.Core.Bool.{Bool, true, false, not, ◌&&◌, ◌||◌}
use mathlib.Core.List.{List, [], ◌∷◌}
use native.Mathlib.Omega.{arith}
use android_appliance.Base.Tests.{leb, ◌==◌, if◌then◌else◌}
use mathlib.Core.Option.{Option, none, some}
use android_appliance.Base.Lists.{any, all, length}

abbrev pub Text : Type 0
Text = List ℕ

-- The code points of a literal.
abbrev pub codes : String → Text
codes String.[] = []
codes (String.◌∷◌ c s) = code c ∷ codes s

abbrev pub text_eq : Text → Text → Bool
text_eq [] [] = true
text_eq [] (d ∷ t) = false
text_eq (c ∷ s) [] = false
text_eq (c ∷ s) (d ∷ t) = c == d && text_eq s t

pub text_eq_sound : (s t : Text) → text_eq s t ≡ true → s ≡ t
text_eq_sound [] [] h = refl
text_eq_sound [] (d ∷ t) h = cc
text_eq_sound (c ∷ s) [] h = cc
text_eq_sound (c ∷ s) (d ∷ t) h = ground (arith, text_eq_sound s t)

pub text_eq_refl : (s : Text) → text_eq s s ≡ true
text_eq_refl [] = refl
text_eq_refl (c ∷ s) = ground (arith, text_eq_refl s)

pub text_eq_comm : (s t : Text) → text_eq s t ≡ text_eq t s
text_eq_comm [] [] = refl
text_eq_comm [] (d ∷ t) = refl
text_eq_comm (c ∷ s) [] = refl
text_eq_comm (c ∷ s) (d ∷ t) = ground (arith, text_eq_comm s t)

pub text_eq_congr : (s t u : Text) → text_eq s t ≡ true → text_eq s u ≡ text_eq t u
text_eq_congr s t u h = ap (λ x. text_eq x u) (text_eq_sound s t h)

-- `c in s`
abbrev pub contains : ℕ → Text → Bool
contains c s = any (λ d. d == c) s

-- `s.startswith(p)`
abbrev pub starts_with : Text → Text → Bool
starts_with [] s = true
starts_with (c ∷ p) [] = false
starts_with (c ∷ p) (d ∷ s) = c == d && starts_with p s

abbrev pub is_digit : ℕ → Bool
is_digit c = leb b'0' c && leb c b'9'

abbrev pub is_upper : ℕ → Bool
is_upper c = leb b'A' c && leb c b'Z'

abbrev pub is_lower : ℕ → Bool
is_lower c = leb b'a' c && leb c b'z'

abbrev pub is_alnum : ℕ → Bool
is_alnum c = is_digit c || is_upper c || is_lower c

-- The line boundaries of str.splitlines.
abbrev pub is_break : ℕ → Bool
is_break c = leb 10 c && leb c 13 || leb 28 c && leb c 30 || c == 133 || c == 8232 || c == 8233

-- The whitespace of str.strip.
abbrev pub is_space : ℕ → Bool
is_space c =
    leb 9 c && leb c 13
    || leb 28 c && leb c 32
    || c == 133
    || c == 160
    || c == 5760
    || leb 8192 c && leb c 8202
    || c == 8232
    || c == 8233
    || c == 8239
    || c == 8287
    || c == 12288

-- A character in front of the first line.
abbrev pub onto_first : ℕ → List Text → List Text
onto_first c [] = (c ∷ []) ∷ []
onto_first c (l ∷ ls) = (c ∷ l) ∷ ls

-- str.splitlines; the first argument says that a carriage return stands before the text.
abbrev pub lines_after : Bool → Text → List Text
lines_after after_return [] = []
lines_after after_return (c ∷ s) =
    let fresh = lines_after (c == 13) s in
    let same = lines_after false s in
    if after_return && c == 10 then same else if is_break c then [] ∷ fresh else onto_first c same

abbrev pub split_lines : Text → List Text
split_lines s = lines_after false s

abbrev pub drop_space : Text → Text
drop_space [] = []
drop_space (c ∷ s) = let rest = drop_space s in if is_space c then rest else c ∷ s

abbrev pub unless_space : ℕ → Text → Text
unless_space c [] = if is_space c then [] else c ∷ []
unless_space c (d ∷ s) = c ∷ d ∷ s

-- str.rstrip
abbrev pub drop_space_end : Text → Text
drop_space_end [] = []
drop_space_end (c ∷ s) = unless_space c (drop_space_end s)

-- str.strip
abbrev pub strip : Text → Text
strip s = drop_space_end (drop_space s)

abbrev pub is_empty_text : Text → Bool
is_empty_text [] = true
is_empty_text (c ∷ s) = false

-- `p in s`, for texts.
abbrev pub has_infix : Text → Text → Bool
has_infix p [] = is_empty_text p
has_infix p (c ∷ s) = starts_with p (c ∷ s) || has_infix p s

-- `s < t`, for texts.
abbrev pub text_ltb : Text → Text → Bool
text_ltb s [] = false
text_ltb [] (d ∷ t) = true
text_ltb (c ∷ s) (d ∷ t) = if c == d then text_ltb s t else leb c d

-- str.lower on the characters of an HTTP header, which are those of Latin-1.
abbrev pub lower_char : ℕ → ℕ
lower_char c = if is_upper c || leb 192 c && leb c 222 && not (c == 215) then c + 32 else c

abbrev pub lower : Text → Text
lower [] = []
lower (c ∷ s) = lower_char c ∷ lower s

-- int(s) of a text of ASCII digits; the first argument is the number so far.
abbrev pub decimal_from : ℕ → Text → ℕ
decimal_from n [] = n
decimal_from n (c ∷ s) = decimal_from (n * 10 + (c - b'0')) s

abbrev pub decimal : Text → ℕ
decimal s = decimal_from 0 s

-- `[0-9]+`, which is also `s.isascii() and s.isdigit()`.
abbrev pub is_number : Text → Bool
is_number s = not (is_empty_text s) && all is_digit s

-- int(s) of a text of ASCII digits: Python refuses one of more than 4300 digits with a ValueError.
abbrev pub int_of : Text → Option ℕ
int_of s = if leb (length s) 4300 then some (decimal s) else none
