-- ===== src/Config/Fields.antt =====
-- The file format and the checks of single fields (config.py: read_file, HOST, load's get and
-- integer). An environment is a function from keys; a regular expression is a test by clauses.
use android_appliance.Base.{
  or_else, ℕ, Option, none, some, Bool, true, false, ◌&&◌, ◌||◌, List, [], ◌∷◌, ◌==◌, leb,
  if◌then◌else◌, all,
}
use android_appliance.Base.Text.{
  Text, codes, text_eq, contains, starts_with, is_digit, is_upper, is_lower, is_alnum, split_lines,
}

abbrev pub Environ : Type 0
Environ = Text → Option Text

-- line.partition("="): the key before the first equals sign and the value after it, if there is one.
abbrev pub onto_key : ℕ → Option (Text × Text) → Option (Text × Text)
onto_key c none = none
onto_key c (some (key, value)) = some (c ∷ key, value)

abbrev pub partition : Text → Option (Text × Text)
partition [] = none
partition (c ∷ s) = let rest = partition s in if c == b'=' then some ([], s) else onto_key c rest

abbrev pub is_letter : ℕ → Bool
is_letter c = is_upper c || is_lower c

-- [A-Za-z_][A-Za-z0-9_]*
abbrev pub is_key : Text → Bool
is_key [] = false
is_key (c ∷ s) = (is_letter c || c == b'_') && all (λ d. is_alnum d || d == b'_') s

abbrev pub with_key : Option (Text × Text) → Option (Text × Text)
with_key none = none
with_key (some (key, value)) = if is_key key then some (key, value) else none

-- What one line of the file sets.
abbrev pub entry : Text → Option (Text × Text)
entry line = if starts_with (codes "#") line then none else with_key (partition line)

abbrev pub lookup : Text → List (Text × Text) → Option Text
lookup key [] = none
lookup key ((k, v) ∷ values) = if text_eq k key then some v else lookup key values

-- values.setdefault(key, value), at the end where a dictionary keeps a new key.
unfoldable pub set_default : Text → Text → List (Text × Text) → List (Text × Text)
set_default key value [] = (key, value) ∷ []
set_default key value ((k, v) ∷ values) =
    let rest = set_default key value values in
    if text_eq k key then (k, v) ∷ values else (k, v) ∷ rest

abbrev pub add_entry : Option (Text × Text) → List (Text × Text) → List (Text × Text)
add_entry none values = values
add_entry (some (key, value)) values = set_default key value values

abbrev pub read_lines : List Text → List (Text × Text) → List (Text × Text)
read_lines [] values = values
read_lines (line ∷ lines) values = read_lines lines (add_entry (entry line) values)

-- read_file, from the contents of the file.
unfoldable pub read_file : Text → List (Text × Text)
read_file contents = read_lines (split_lines contents) []

-- The file fills the keys that the environment does not set. `files` gives the contents of a path.
abbrev pub fill : Environ → List (Text × Text) → Environ
fill environ values key = or_else (environ key) (lookup key values)

abbrev pub unless_empty : Option Text → Option Text
unless_empty none = none
unless_empty (some []) = none
unless_empty (some (c ∷ s)) = some (c ∷ s)

abbrev pub with_file : (Text → Text) → Environ → Option Text → Environ
with_file files environ none = environ
with_file files environ (some path) = fill environ (read_file (files path))

abbrev pub config_key : Text
config_key = codes "APPLIANCE_CONFIG"

unfoldable pub environment : (Text → Text) → Environ → Environ
environment files environ = with_file files environ (unless_empty (environ config_key))

-- The helper get of load.
unfoldable pub get : Environ → Text → Option Text
get environ key = unless_empty (environ key)

abbrev pub or_default : Option Text → Text → Text
or_default none t = t
or_default (some s) t = s

-- [A-Za-z0-9][A-Za-z0-9._-]*
abbrev pub is_name_char : ℕ → Bool
is_name_char c = is_alnum c || c == b'.' || c == b'_' || c == b'-'

abbrev pub is_avd_name : Text → Bool
is_avd_name [] = false
is_avd_name (c ∷ s) = is_alnum c && all is_name_char s

abbrev pub is_unit : ℕ → Bool
is_unit c = c == b'K' || c == b'M' || c == b'G'

-- [0-9]+[KMG]?
abbrev pub is_size_tail : Text → Bool
is_size_tail [] = true
is_size_tail (c ∷ []) = is_digit c || is_unit c
is_size_tail (c ∷ d ∷ s) = is_digit c && is_size_tail (d ∷ s)

abbrev pub is_disk_size : Text → Bool
is_disk_size [] = false
is_disk_size (c ∷ s) = is_digit c && is_size_tail s

abbrev pub ends_alnum : Text → Bool
ends_alnum [] = false
ends_alnum (c ∷ []) = is_alnum c
ends_alnum (c ∷ d ∷ s) = ends_alnum (d ∷ s)

-- The two halves of HOST: a host name or an IPv4 address, and an IPv6 address.
abbrev pub is_host_name : Text → Bool
is_host_name s = is_avd_name s && ends_alnum s

abbrev pub is_hex : ℕ → Bool
is_hex c = is_digit c || leb b'A' c && leb c b'F' || leb b'a' c && leb c b'f'

abbrev pub is_ipv6 : Text → Bool
is_ipv6 s = all (λ c. is_hex c || c == b':' || c == b'.') s && contains b':' s

abbrev pub is_host : Text → Bool
is_host s = is_host_name s || is_ipv6 s

abbrev pub is_bracket : ℕ → Bool
is_bracket c = c == b'[' || c == b']'

abbrev pub drop_brackets : Text → Text
drop_brackets [] = []
drop_brackets (c ∷ s) = let rest = drop_brackets s in if is_bracket c then rest else c ∷ s

abbrev pub unless_bracket : ℕ → Text → Text
unless_bracket c [] = if is_bracket c then [] else c ∷ []
unless_bracket c (d ∷ s) = c ∷ d ∷ s

abbrev pub drop_brackets_end : Text → Text
drop_brackets_end [] = []
drop_brackets_end (c ∷ s) = unless_bracket c (drop_brackets_end s)

-- s.strip("[]")
abbrev pub strip_brackets : Text → Text
strip_brackets s = drop_brackets_end (drop_brackets s)
