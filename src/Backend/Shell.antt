-- ===== src/Backend/Shell.antt =====
-- Texts for the device shell (backend.py: quote, PACKAGE, COMPONENT, _check_path), and the way a
-- POSIX shell reads a command line as words.
use android_appliance.Base.{
  ℕ, Option, none, some, Bool, true, false, not, ◌&&◌, ◌||◌, List, [], ◌∷◌, ◌++◌, ◌==◌,
  if◌then◌else◌,
}
use android_appliance.Base.Text.{Text, codes, contains, starts_with, is_alnum, is_upper, is_lower}

abbrev pub escape : Text → Text
escape [] = []
escape (c ∷ v) = let rest = escape v in if c == b'\'' then codes "'\\''" ++ rest else c ∷ rest

unfoldable pub quote : Text → Text
quote v = b'\'' ∷ (escape v ++ b'\'' ∷ [])

abbrev pub is_name : ℕ → Bool
is_name c = is_alnum c || c == b'_'

-- The pattern [A-Za-z][A-Za-z0-9_]*(\.[A-Za-z0-9_]+)+ by its states: at the first character, in the
-- first part, at the start of a later part, in it.
pub data PackageState : Type 0 where
  at_first in_first at_part in_part : PackageState

unfoldable pub matches_package : PackageState → Text → Bool
matches_package in_part [] = true
matches_package _ [] = false
matches_package at_first (c ∷ s) =
    let rest = matches_package in_first s in (is_upper c || is_lower c) && rest
matches_package in_first (c ∷ s) =
    let stays = matches_package in_first s in
    let leaves = matches_package at_part s in if is_name c then stays else c == b'.' && leaves
matches_package at_part (c ∷ s) = let rest = matches_package in_part s in is_name c && rest
matches_package in_part (c ∷ s) =
    let stays = matches_package in_part s in
    let leaves = matches_package at_part s in if is_name c then stays else c == b'.' && leaves

unfoldable pub is_package : Text → Bool
unfolding matches_package
is_package s = matches_package at_first s

abbrev pub is_component_char : ℕ → Bool
is_component_char c = is_name c || c == b'.' || c == b'$'

-- The pattern [A-Za-z0-9_.$]+/[A-Za-z0-9_.$]+
pub data ComponentState : Type 0 where
  before_first before_slash after_slash after_first : ComponentState

unfoldable pub matches_component : ComponentState → Text → Bool
matches_component after_first [] = true
matches_component _ [] = false
matches_component before_first (c ∷ s) =
    let rest = matches_component before_slash s in is_component_char c && rest
matches_component before_slash (c ∷ s) =
    let stays = matches_component before_slash s in
    let leaves = matches_component after_slash s in
    if is_component_char c then stays else c == b'/' && leaves
matches_component after_slash (c ∷ s) =
    let rest = matches_component after_first s in is_component_char c && rest
matches_component after_first (c ∷ s) =
    let rest = matches_component after_first s in is_component_char c && rest

unfoldable pub is_component : Text → Bool
unfolding matches_component
is_component s = matches_component before_first s

-- _check_path: whether the path is accepted.
unfoldable pub check_path : Text → Bool
check_path path = starts_with (codes "/") path && not (contains 10 path) && not (contains 0 path)

-- The characters that a shell takes for themselves outside quotes, besides those of names.
abbrev pub is_literal : ℕ → Bool
is_literal c = is_name c || c == b'.' || c == b'/' || c == b'-' || c == b'%' || c == b':'

pub data Mode : Type 0 where
  plain quoted escaped : Mode

abbrev pub begun : Option Text → Text
begun none = []
begun (some w) = w

abbrev pub end_word : Option Text → Option (List Text) → Option (List Text)
end_word w none = none
end_word none (some ws) = some ws
end_word (some w) (some ws) = some (w ∷ ws)

-- The words of a simple command: what a POSIX shell makes of spaces, single quotes, backslashes and
-- characters without a meaning of their own. none for all else: an expansion, an operator, a
-- pattern, or an open quote. The argument before the last is the word that has begun.
abbrev pub read_words : Mode → Option Text → Text → Option (List Text)
read_words plain w [] = end_word w (some [])
read_words quoted w [] = none
read_words escaped w [] = none
read_words plain w (c ∷ s) =
    let next = read_words plain none s in
    let opens = read_words quoted (some (begun w)) s in
    let escapes = read_words escaped (some (begun w)) s in
    let goes_on = read_words plain (some (begun w ++ c ∷ [])) s in
    if c == b' '
    then end_word w next
    else if c == b'\''
    then opens
    else if c == b'\\'
    then escapes
    else if is_literal c
    then goes_on
    else none
read_words quoted w (c ∷ s) =
    let closes = read_words plain w s in
    let goes_on = read_words quoted (some (begun w ++ c ∷ [])) s in
    if c == b'\'' then closes else goes_on
read_words escaped w (c ∷ s) = read_words plain (some (begun w ++ c ∷ [])) s

abbrev pub words : Text → Option (List Text)
words s = read_words plain none s
