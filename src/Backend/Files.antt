-- ===== src/Backend/Files.antt =====
-- The operations on device files (backend.py: _file_type, pull, push, list_files).
use android_appliance.Base.{
  ℕ, Option, none, some, Bool, true, false, not, ◌&&◌, ◌||◌, List, [], ◌∷◌, ◌++◌, ◌==◌, ◌-◌,
  if◌then◌else◌, is_some,
}
use android_appliance.Base.Text.{
  Text, codes, text_eq, text_ltb, contains, strip, split_lines, is_empty_text, has_infix,
}
use android_appliance.Backend.Shell.{quote, check_path}
use android_appliance.Backend.Calls.{
  Op, returns, raises, calls, shells, pulls, pushes, unlinks, Reply, bad_request, not_found,
  unavailable, leased, failed, reply_of, guard, ◌>>=◌, ◌>>◌,
}

abbrev pub stat_command : Text → Text
stat_command path = codes "stat -L -c %F " ++ quote path

unfoldable pub file_type : Text → Op (Option Text)
file_type path = do
  r ← reply_of (shells (stat_command path))
  returns (if failed r then none else some (strip r.text))

abbrev pub is_directory : Option Text → Bool
is_directory none = false
is_directory (some t) = text_eq t (codes "directory")

-- The file that a pull leaves to the caller goes where the pull failed.
abbrev pub pulled : Reply → Op (Unit {0})
pulled r = if failed r then calls unlinks (λ _. raises unavailable) else returns tt

unfoldable pub pull : Text → Op (Unit {0})
pull path = do
  guard (check_path path) bad_request
  r ← leased true (do
    kind ← file_type path
    guard (is_some kind) not_found
    guard (not (is_directory kind)) bad_request
    reply_of (pulls path))
  pulled r

abbrev pub ends_slash : Text → Bool
ends_slash [] = false
ends_slash (c ∷ []) = c == b'/'
ends_slash (c ∷ d ∷ s) = ends_slash (d ∷ s)

abbrev pub unless_slash : ℕ → Text → Text
unless_slash c [] = if c == b'/' then [] else c ∷ []
unless_slash c (d ∷ s) = c ∷ d ∷ s

-- rstrip("/")
abbrev pub without_slashes : Text → Text
without_slashes [] = []
without_slashes (c ∷ s) = unless_slash c (without_slashes s)

abbrev pub is_file_name : Text → Bool
is_file_name name =
    not (is_empty_text name)
    && not (contains b'/' name)
    && not (text_eq name (codes "."))
    && not (text_eq name (codes ".."))
    && not (contains 0 name)

abbrev pub name_ok : Option Text → Bool
name_ok none = true
name_ok (some name) = is_file_name name

abbrev pub inside : Text → Text → Text
inside path name = without_slashes path ++ b'/' ∷ name

-- Where the file goes, by the kind of the device path.
abbrev pub target : Bool → Text → Option Text → Op Text
target true path none = raises bad_request
target true path (some name) = returns (inside path name)
target false path name = if ends_slash path then raises bad_request else returns path

-- The size that a push returns is that of the local file.
unfoldable pub push : Text → Option Text → Op (Unit {0})
push path name = do
  guard (check_path path) bad_request
  guard (name_ok name) bad_request
  guard (is_some name || not (ends_slash path)) bad_request
  r ← leased true (do
    kind ← file_type path
    remote ← target (is_directory kind) path name
    reply_of (pushes remote))
  guard (not (failed r)) bad_request

-- line.split("|", 3)
abbrev pub onto_part : ℕ → List Text → List Text
onto_part c [] = (c ∷ []) ∷ []
onto_part c (p ∷ ps) = (c ∷ p) ∷ ps

abbrev pub split_bars : ℕ → Text → List Text
split_bars left [] = [] ∷ []
split_bars left (c ∷ s) =
    let next = split_bars (left - 1) s in
    let same = split_bars left s in
    if c == b'|' && not (left == 0) then [] ∷ next else onto_part c same

pub data FileType : Type 0 where
  dir file link other : FileType

abbrev pub type_of : Text → FileType
type_of t =
    if text_eq t (codes "directory")
    then dir
    else if text_eq t (codes "regular file") || text_eq t (codes "regular empty file")
    then file
    else if text_eq t (codes "symbolic link")
    then link
    else other

pub record Entry : Type 0 where
  pub name : Text
  pub kind : FileType
  pub size : ℕ
  pub mtime : ℕ

-- What follows the last slash.
abbrev pub after_slash : Text → Text
after_slash [] = []
after_slash (c ∷ s) = let rest = after_slash s in if contains b'/' (c ∷ s) then rest else c ∷ s

-- Python's str.isdigit and int are parameters.
module _ (is_digits : Text → Bool) (int : Text → ℕ) where
  abbrev pub entry_of : List Text → Option Entry
  entry_of (kind ∷ size ∷ mtime ∷ path ∷ []) =
      if is_digits size && is_digits mtime
      then some (record {
        name = after_slash (without_slashes path);
        kind = type_of kind;
        size = int size;
        mtime = int mtime;
      })
      else none
  entry_of _ = none

  abbrev pub insert_entry : Entry → List Entry → List Entry
  insert_entry e [] = e ∷ []
  insert_entry e (f ∷ fs) =
      let rest = insert_entry e fs in if text_ltb f.name e.name then f ∷ rest else e ∷ f ∷ fs

  abbrev pub with_entry : Option Entry → List Entry → List Entry
  with_entry none es = es
  with_entry (some e) es = insert_entry e es

  abbrev pub entries_of : List Text → List Entry
  entries_of [] = []
  entries_of (l ∷ ls) = with_entry (entry_of (split_bars 3 l)) (entries_of ls)

  abbrev pub stat_format : Text
  stat_format = codes "'%F|%s|%Y|%n'"

  abbrev pub list_command : Text → Text
  list_command path =
      codes "if [ -d "
      ++ (quote path
          ++ (codes " ]; then find "
              ++ (quote (without_slashes path ++ codes "/")
                  ++ (codes " -mindepth 1 -maxdepth 1 -exec stat -c "
                      ++ (stat_format
                          ++ (codes " {} +; else stat -c "
                              ++ (stat_format ++ (codes " " ++ (quote path ++ codes "; fi")))))))))

  -- `_use` is left before the entries are read.
  unfoldable pub list_files : Text → Op (List Entry)
  list_files path = do
    guard (check_path path) bad_request
    r ← leased true (reply_of (shells (list_command path)))
    guard
        (not
          (failed r && is_empty_text (strip r.text) && has_infix (codes "No such file") r.output))
        not_found
    guard (not (failed r && is_empty_text (strip r.text))) bad_request
    returns (entries_of (split_lines r.text))
