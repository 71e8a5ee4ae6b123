-- ===== src/Backend/Leases.antt =====
-- Every operation uses the device under a lease, and gives it back.
use android_appliance.Base.{
  ℕ, zero, suc, ◌≡◌, refl, Option, none, some, Bool, true, false, not, ◌||◌, [], ◌++◌,
  if◌then◌else◌, Bool-cases, inl, inr, is_some, get_last?,
}
use android_appliance.Base.Text.{Text, codes, split_lines, has_infix}
use android_appliance.Input.Keys.{Resolved, event, argument, refused, resolve_key}
use android_appliance.Backend.Shell.{is_package, check_path}
use android_appliance.Backend.Calls.{
  Op, returns, raises, calls, Call, shells, execs_out, installs, pulls, pushes, pastes, types,
  sends_key, Answer, replied, timed_out, broken, Reply, Code, bad_request, leased, guard, ◌>>=◌,
  failed, does, when_done, not_found, unavailable,
}
use android_appliance.Backend.Apps.{
  apps, install, require_package, launch, start_last, component_lines, force_stop, uninstall, shell,
  key, key_op, text, ui, dump_rounds, at_end, done_op, resolve_command, start_command, flag,
  dump_file,
}
use android_appliance.Backend.Files.{
  file_type, is_directory, pull, pulled, push, target, name_ok, ends_slash, list_files,
  stat_command, list_command,
}
use android_appliance.Backend.Traces.{
  AllCalls, AllCalls-bind, AllCalls-reply_of, AllCalls-guard, AllCalls-returns, AllCalls-raises,
  AllCalls-asks, AllCalls-check, is_device, IsBody, Balanced, leased-Balanced, bind-Balanced,
  guard-Balanced,
}

abbrev Device : Call → Type 0
Device c = is_device c ≡ true

require-IsBody : (name : Text) → IsBody (require_package name)
unfolding require_package
require-IsBody name = AllCalls-check Device (is_package name) bad_request _ λ _.
    AllCalls-asks Device (shells (codes "pm path " ++ name)) _ refl λ r. AllCalls-guard Device _ _

file_type-IsBody : (path : Text) → IsBody (file_type path)
unfolding file_type
file_type-IsBody path =
    AllCalls-asks Device (shells (stat_command path)) _ refl λ r. AllCalls-returns Device _

start_last-IsBody : (o : Option Text) → IsBody (start_last o)
start_last-IsBody none = AllCalls-raises Device _ not_found
start_last-IsBody (some c) = AllCalls-reply_of Device (shells (start_command c)) refl

-- An operation that checks before it takes the lease.
checked :
    {A : Type 0} (b : Bool) (c : Code) (m : Op A)
    → Balanced false m
    → Balanced false (guard b c >>= λ (u : Unit {0}). m)
checked b c m h = bind-Balanced false (guard b c) (λ u. m) (guard-Balanced b c) λ u. h

-- A body and the check of its reply.
asked :
    {A B : Type 0} (wake : Bool) (m : Op A) (f : A → Op B)
    → IsBody m
    → ((a : A) → Balanced false (f a))
    → Balanced false (leased wake m >>= f)
asked wake m f h g = bind-Balanced false (leased wake m) f (leased-Balanced wake m h) g

at_end-IsBody :
    {A : Type 0} (c : Call) (m : Op A) → is_device c ≡ true → IsBody m → IsBody (at_end c m)
unfolding AllCalls
at_end-IsBody c (returns a) d h = (d, λ _. tt)
at_end-IsBody c (raises e) d h = (d, λ _. tt)
at_end-IsBody c (calls e k) d h = (h.0, λ a. at_end-IsBody c (k a) d (h.1 a))

if-IsBody : {A : Type 0} (b : Bool) (m n : Op A) → IsBody m → IsBody n → IsBody (if b then m else n)
if-IsBody true m n h k = h
if-IsBody false m n h k = k

dump_rounds-IsBody : (n : ℕ) (dump : Text) → IsBody (dump_rounds n dump)
dump_rounds-IsBody zero dump = AllCalls-raises Device _ unavailable
dump_rounds-IsBody (suc n) dump =
    let next = dump_rounds-IsBody n dump in
    AllCalls-asks Device (shells (codes "rm -f " ++ dump)) _ refl λ _.
      AllCalls-asks Device (shells (codes "uiautomator dump " ++ dump)) _ refl λ r.
        if-IsBody (failed r) (dump_rounds n dump) _ next (
          AllCalls-asks Device (execs_out (codes "cat " ++ dump)) _ refl λ xml.
            if-IsBody (has_infix (codes "<hierarchy") xml.text) (returns xml.text)
              (dump_rounds n dump) (AllCalls-returns Device xml.text) next)

target-IsBody : (b : Bool) (path : Text) (name : Option Text) → IsBody (target b path name)
target-IsBody true path none = AllCalls-raises Device _ bad_request
target-IsBody true path (some n) = AllCalls-returns Device _
target-IsBody false path name =
    if-IsBody (ends_slash path) (raises bad_request) (returns path)
      (AllCalls-raises Device _ bad_request) (AllCalls-returns Device path)

returns-Balanced : {A : Type 0} (a : A) → Balanced false (returns a)
unfolding Balanced
returns-Balanced a = refl

raises-Balanced : (A : Type 0) (c : Code) → (let m : Op A = raises c in Balanced false m)
unfolding Balanced
raises-Balanced A c = refl

pulled-Balanced : (r : Reply) → Balanced false (pulled r)
unfolding Balanced
pulled-Balanced r = elim (Bool-cases (failed r)) [
  | inl e ↦ rw e (refl, λ _. refl)
  | inr e ↦ rw e refl
]

does-IsBody : (c : Call) → is_device c ≡ true → IsBody (does c done_op)
unfolding AllCalls
does-IsBody c h = (h, λ a. answers a)
  where
    answers : (a : Answer) → IsBody (when_done done_op a)
    answers timed_out = tt
    answers broken = tt
    answers (replied r) = tt
    answers _ = tt

key_op-Balanced : (r : Resolved) → Balanced false (key_op r)
key_op-Balanced (refused e) = raises-Balanced _ bad_request
key_op-Balanced (event e) = leased-Balanced true _ (does-IsBody (sends_key e) refl)
key_op-Balanced (argument a) = leased-Balanced true _ (
    AllCalls-asks Device (shells (codes "input keyevent " ++ a)) _ refl
      λ r. AllCalls-guard Device _ _)

-- Each operation on files takes no lease twice, uses the device only while it holds one, and ends
-- without it, whatever the device answers and whether it succeeds.
pub files_Balanced :
    (path : Text) (name : Option Text) (is_digits : Text → Bool) (int : Text → ℕ)
    → Balanced false (pull path)
      × Balanced false (push path name)
      × Balanced false (list_files is_digits int path)
unfolding pull push list_files
files_Balanced path name is_digits int = (
  checked (check_path path) bad_request _ (
      asked true _ _
        (AllCalls-bind Device (file_type path) _ (file_type-IsBody path) λ kind.
          AllCalls-check Device (is_some kind) not_found _ λ _.
            AllCalls-check Device (not (is_directory kind)) bad_request _
              λ _. AllCalls-reply_of Device (pulls path) refl)
        λ r. pulled-Balanced r),
  checked (check_path path) bad_request _ (
      checked (name_ok name) bad_request _ (
        checked (is_some name || not (ends_slash path)) bad_request _ (
          asked true _ _
            (AllCalls-bind Device (file_type path) _ (file_type-IsBody path) λ kind.
              AllCalls-bind Device (target (is_directory kind) path name) _
                (target-IsBody (is_directory kind) path name)
                λ remote. AllCalls-reply_of Device (pushes remote) refl)
            λ r. guard-Balanced _ _))),
  checked (check_path path) bad_request _ (
      asked true _ _ (AllCalls-reply_of Device (shells (list_command is_digits int path)) refl)
        λ r. checked _ _ _ (checked _ _ _ (returns-Balanced _))),
)

-- The same holds of each operation on apps, keys, texts and the screen.
apps_Balanced :
    (name t method token : Text) (every keep a b c d : Bool)
    → Balanced false (apps every)
      × Balanced false (install a b c d)
      × Balanced false (launch name)
      × Balanced false (force_stop name)
      × Balanced false (uninstall name keep)
      × Balanced false (shell t)
      × Balanced false (key name)
      × Balanced false (text t method)
      × Balanced false (ui token)
unfolding apps install launch force_stop uninstall shell key text ui
apps_Balanced name t method token every keep a b c d = (
  asked true _ _
      (AllCalls-reply_of Device
        (shells (codes (if every then "pm list packages" else "pm list packages -3"))) refl)
      λ r. checked _ _ _ (returns-Balanced _),
  asked true _ _
      (AllCalls-reply_of Device
        (installs (
          flag a (codes "-r") (flag b (codes "-g") (flag c (codes "-d") (flag d (codes "-t") [])))))
        refl)
      λ r. checked _ _ _ (returns-Balanced _),
  asked true _ _
      (AllCalls-bind Device (require_package name) _ (require-IsBody name) λ _.
        AllCalls-asks Device (shells (resolve_command name)) _ refl
          λ found. start_last-IsBody (get_last? (component_lines (split_lines found.text))))
      λ r. guard-Balanced _ _,
  leased-Balanced true _ (
      AllCalls-bind Device (require_package name) _ (require-IsBody name) λ _.
        AllCalls-asks Device (shells (codes "am force-stop " ++ name)) _ refl
          λ r. AllCalls-returns Device _),
  asked true _ _
      (AllCalls-bind Device (require_package name) _ (require-IsBody name) λ _.
        AllCalls-reply_of Device
          (shells (codes "pm uninstall " ++ ((if keep then codes "-k " else []) ++ name))) refl)
      λ r. checked _ _ _ (returns-Balanced _),
  checked _ _ _ (leased-Balanced true _ (AllCalls-reply_of Device (shells t) refl)),
  key_op-Balanced (resolve_key name),
  checked _ _ _ (
      checked _ _ _ (
        checked _ _ _ (
          leased-Balanced true _ (
            if-IsBody _ (does (pastes t) done_op) _ (does-IsBody (pastes t) refl)
              (does-IsBody (types t) refl))))),
  leased-Balanced true _ (
      at_end-IsBody (shells (codes "rm -f " ++ dump_file token)) _ refl
        (dump_rounds-IsBody 10 (dump_file token))),
)
