-- ===== src/Backend/Apps.antt =====
-- The operations on text, keys, apps and the screen (backend.py).
use android_appliance.Base.{
  ℕ, suc, zero, Option, none, some, Bool, true, false, not, ◌||◌, List, [], ◌∷◌, ◌++◌, drop,
  if◌then◌else◌, get_last?,
}
use android_appliance.Base.Text.{
  Text, codes, text_eq, text_ltb, starts_with, strip, split_lines, is_empty_text, has_infix,
}
use android_appliance.Input.Keys.{
  Resolved, event, argument, refused, resolve_key, Typed, typed, ascii_keys,
}
use android_appliance.Backend.Shell.{is_package, is_component}
use android_appliance.Backend.Calls.{
  Op, returns, raises, calls, Call, shells, execs_out, installs, pastes, types, sends_key, Reply,
  bad_request, not_found, unavailable, leased, does, failed, reply_of, guard, ◌>>=◌, ◌>>◌,
}

abbrev pub done_op : Op (Unit {0})
done_op = returns tt

-- Sorting, as `sorted` on texts.
abbrev pub insert_text : Text → List Text → List Text
insert_text t [] = t ∷ []
insert_text t (u ∷ us) =
    let rest = insert_text t us in if text_ltb u t then u ∷ rest else t ∷ u ∷ us

abbrev pub sort_texts : List Text → List Text
sort_texts [] = []
sort_texts (t ∷ ts) = insert_text t (sort_texts ts)

abbrev pub package_lines : List Text → List Text
package_lines [] = []
package_lines (l ∷ ls) =
    let rest = package_lines ls in
    if starts_with (codes "package:") l then strip (drop 8 l) ∷ rest else rest

unfoldable pub apps : Bool → Op (List Text)
apps every = do
  r ←
      leased true
        (reply_of (shells (codes (if every then "pm list packages" else "pm list packages -3"))))
  guard (not (failed r)) unavailable
  returns (sort_texts (package_lines (split_lines r.text)))

abbrev pub flag : Bool → Text → List Text → List Text
flag on name rest = if on then name ∷ rest else rest

unfoldable pub install : Bool → Bool → Bool → Bool → Op Text
install replace grant downgrade test = do
  r ← leased true (
      reply_of (
        installs (
          flag replace (codes "-r")
            (flag grant (codes "-g") (flag downgrade (codes "-d") (flag test (codes "-t") []))))))
  guard (not (failed r || has_infix (codes "Failure") r.output)) bad_request
  returns r.output

unfoldable pub require_package : Text → Op (Unit {0})
require_package name = do
  guard (is_package name) bad_request
  r ← reply_of (shells (codes "pm path " ++ name))
  guard (not (is_empty_text (strip r.text))) not_found

abbrev pub component_lines : List Text → List Text
component_lines [] = []
component_lines (l ∷ ls) =
    let rest = component_lines ls in if is_component (strip l) then strip l ∷ rest else rest

abbrev pub resolve_command : Text → Text
resolve_command name =
    codes
      "cmd package resolve-activity --brief -a android.intent.action.MAIN -c android.intent.category.LAUNCHER "
    ++ name

abbrev pub start_command : Text → Text
start_command component = codes "am start -n " ++ component

-- The last component of the answer is started.
abbrev pub start_last : Option Text → Op Reply
start_last none = raises not_found
start_last (some component) = reply_of (shells (start_command component))

unfoldable pub launch : Text → Op (Unit {0})
launch name = do
  r ← leased true (do
    require_package name
    found ← reply_of (shells (resolve_command name))
    start_last (get_last? (component_lines (split_lines found.text))))
  guard (not (failed r || has_infix (codes "Error") r.output)) unavailable

unfoldable pub force_stop : Text → Op (Unit {0})
force_stop name =
    leased true
      (do require_package name; r ← reply_of (shells (codes "am force-stop " ++ name)); done_op)

unfoldable pub uninstall : Text → Bool → Op Text
uninstall name keep_data = do
  r ← leased true (do
    require_package name
    reply_of (shells (codes "pm uninstall " ++ ((if keep_data then codes "-k " else []) ++ name))))
  guard (not (failed r || not (has_infix (codes "Success") r.output))) bad_request
  returns r.output

unfoldable pub shell : Text → Op Reply
shell command = do
  guard (not (is_empty_text (strip command))) bad_request
  leased true (reply_of (shells command))

abbrev pub key_op : Resolved → Op (Unit {0})
key_op (refused e) = raises bad_request
key_op (event e) = leased true (does (sends_key e) done_op)
key_op (argument a) =
    leased true
      (do r ← reply_of (shells (codes "input keyevent " ++ a)); guard (not (failed r)) unavailable)

unfoldable pub key : Text → Op (Unit {0})
unfolding resolve_key
key name = key_op (resolve_key name)

abbrev pub are_typed : Typed → Bool
are_typed (typed ks) = true
are_typed _ = false

-- The check of the keys comes before the lease.
unfoldable pub text : Text → Text → Op (Unit {0})
unfolding ascii_keys
text t method = do
  guard (text_eq method (codes "paste") || text_eq method (codes "keys")) bad_request
  guard (not (is_empty_text t)) bad_request
  guard (text_eq method (codes "paste") || are_typed (ascii_keys t)) bad_request
  leased true
      (if text_eq method (codes "paste") then does (pastes t) done_op else does (types t) done_op)

-- A command whose failure is ignored, at the end of an operation.
abbrev pub at_end : {A : Type 0} → Call → Op A → Op A
at_end c (returns a) = calls c (λ _. returns a)
at_end c (raises e) = calls c (λ _. raises e)
at_end c (calls d k) = calls d (λ a. at_end c (k a))

-- The rounds of `ui` that are left.
abbrev pub dump_rounds : ℕ → Text → Op Text
dump_rounds zero dump = raises unavailable
dump_rounds (suc n) dump =
    let next = dump_rounds n dump in
    reply_of (shells (codes "rm -f " ++ dump)) >>= λ cleared.
    reply_of (shells (codes "uiautomator dump " ++ dump)) >>= λ r.
    if failed r
    then next
    else (reply_of (execs_out (codes "cat " ++ dump)) >>= λ xml.
        if has_infix (codes "<hierarchy") xml.text then returns xml.text else next)

-- `token` is the random part of the file's name.
abbrev pub dump_file : Text → Text
dump_file token = codes "/data/local/tmp/window_dump." ++ (token ++ codes ".xml")

unfoldable pub ui : Text → Op Text
ui token =
    leased true
      (at_end (shells (codes "rm -f " ++ dump_file token)) (dump_rounds 10 (dump_file token)))
