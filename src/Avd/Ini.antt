-- ===== src/Avd/Ini.antt =====
-- The managed keys of config.ini (avd.py: _read_key, _set_key, configure). A file is the list of its
-- lines, each a text without line breaks. `registry` and the other files of the AVD are written
-- whole; what they hold does not come back.
use android_appliance.Base.{
  or_else, ℕ, Option, none, some, Bool, true, false, ◌&&◌, ◌||◌, List, [], ◌∷◌, ◌++◌, ◌==◌,
  if◌then◌else◌, is_some,
}
use android_appliance.Base.Text.{Text, codes, text_eq, is_digit}

abbrev pub drop_spaces : Text → Text
drop_spaces [] = []
drop_spaces (c ∷ s) = let rest = drop_spaces s in if c == b' ' then rest else c ∷ s

abbrev pub after_equals : Text → Option Text
after_equals [] = none
after_equals (c ∷ s) = if c == b'=' then some (drop_spaces s) else none

-- The pattern ^key *= *(.*)$
abbrev pub value_of : Text → Text → Option Text
value_of [] line = after_equals (drop_spaces line)
value_of (c ∷ key) [] = none
value_of (c ∷ key) (d ∷ line) = let rest = value_of key line in if c == d then rest else none

unfoldable pub read_key : List Text → Text → Option Text
read_key [] key = none
read_key (line ∷ lines) key = or_else (value_of key line) (read_key lines key)

abbrev pub is_unit : Text → Bool
is_unit [] = false
is_unit (c ∷ []) = c == b'M' || c == b'G'
is_unit (c ∷ d ∷ s) = false

-- What follows the digits, and the digits.
abbrev pub drop_digits : Text → Text
drop_digits [] = []
drop_digits (c ∷ s) = let rest = drop_digits s in if is_digit c then rest else c ∷ s

abbrev pub take_digits : Text → Text
take_digits [] = []
take_digits (c ∷ s) = let rest = take_digits s in if is_digit c then c ∷ rest else []

abbrev pub starts_digit : Text → Bool
starts_digit [] = false
starts_digit (c ∷ s) = is_digit c

-- re.sub(r"^([0-9]+)[MG]$", r"\1", value)
unfoldable pub without_unit : Text → Text
without_unit v = if starts_digit v && is_unit (drop_digits v) then take_digits v else v

abbrev pub setting : Text → Text → Text
setting key value = key ++ b'=' ∷ value

abbrev pub replace_line : Text → Text → Text → Text
replace_line key value line = if is_some (value_of key line) then setting key value else line

abbrev pub replace_lines : Text → Text → List Text → List Text
replace_lines key value [] = []
replace_lines key value (l ∷ ls) = replace_line key value l ∷ replace_lines key value ls

abbrev pub set_read : Option Text → List Text → Text → Text → List Text × Bool
set_read none lines key value = (lines ++ setting key value ∷ [], true)
set_read (some current) lines key value =
    if text_eq (without_unit current) value
    then (lines, false)
    else (replace_lines key value lines, true)

-- The lines after the call, and whether it changed them.
unfoldable pub set_key : List Text → Text → Text → List Text × Bool
unfolding without_unit read_key
set_key lines key value = set_read (read_key lines key) lines key value

abbrev pub Settings : Type 0
Settings = List (Text × Text)

-- The loop of `configure`.
unfoldable pub set_keys : List Text → Settings → List Text × Bool
unfolding set_key
set_keys lines [] = (lines, false)
set_keys lines ((k, v) ∷ ss) =
    let (ls, changed) = set_key lines k v in
    let (rest, more) = set_keys ls ss in (rest, changed || more)

-- The settings, of the memory in MiB and the number of cores in decimal.
unfoldable pub managed : Text → Text → Settings
managed memory cores =
    (codes "hw.ramSize", memory)
    ∷ (codes "hw.cpu.ncore", cores)
    ∷ (codes "hw.lcd.width", codes "1080")
    ∷ (codes "hw.lcd.height", codes "1920")
    ∷ (codes "hw.lcd.density", codes "420")
    ∷ (codes "fastboot.forceColdBoot", codes "yes")
    ∷ (codes "fastboot.forceFastBoot", codes "no")
    ∷ []

-- rstrip("/")
abbrev pub drop_slashes : Text → Text
drop_slashes [] = []
drop_slashes (c ∷ s) = add_slash c (drop_slashes s)
  where
    add_slash : ℕ → Text → Text
    add_slash c [] = if c == b'/' then [] else c ∷ []
    add_slash c (d ∷ s) = c ∷ d ∷ s

abbrev pub or_empty : Option Text → Text
or_empty none = []
or_empty (some t) = t

-- The files that configure reads and writes: config.ini and quickbootChoice.ini of the AVD, and the
-- registry that the emulator reads.
pub record Files : Type 0 where
  pub config : List Text
  pub quickboot : Option Text
  pub registry : Option Text

unfoldable pub image_of : List Text → Text
unfolding read_key
image_of lines = drop_slashes (or_empty (read_key lines (codes "image.sysdir.1")))

abbrev pub no_save : Text
no_save = codes "saveOnExit=false" ++ 10 ∷ []

abbrev pub is_no_save : Option Text → Bool
is_no_save none = false
is_no_save (some t) = text_eq t no_save

-- configure, with the system image of the API level and the registry that `_registry` returns; none
-- stands for the AvdError, before anything is written.
unfoldable pub configure : Text → Text → Text → Text → Files → Option Files
configure image registry memory cores f =
    let (lines, changed) = set_keys f.config (managed memory cores) in
    if text_eq (image_of f.config) image
    then some (record {
      config = if changed then lines else f.config;
      quickboot = if is_no_save f.quickboot then f.quickboot else some no_save;
      registry = some registry;
    })
    else none
