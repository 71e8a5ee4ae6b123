-- ===== src/Backend/Packages.antt =====
-- What the commands about packages say.
use android_appliance.Base.{
  ◌≡◌, refl, ◌⊎◌, inl, inr, ap, ◌∙◌, Option, none, some, Bool, true, false, ◌&&◌, List, [], ◌∷◌,
  ◌++◌, if◌then◌else◌, arith, all, Bool-cases, All, &&-true, get_last?,
}
use android_appliance.Base.Text.{Text, codes, contains, split_lines}
use android_appliance.Backend.Shell.{is_literal, is_package, is_component, words, end_word}
use android_appliance.Backend.Words.{words-space, words-package, words-component}
use android_appliance.Backend.Calls.{
  Op, Call, enters, leaves, shells, bad_request, not_found, leased, guard, ◌>>=◌,
}
use android_appliance.Backend.Apps.{
  require_package, launch, start_last, component_lines, force_stop, uninstall, resolve_command,
  start_command,
}
use android_appliance.Backend.Traces.{
  AllCalls, AllCalls-bind, AllCalls-reply_of, AllCalls-guard, AllCalls-returns, AllCalls-raises,
  AllCalls-asks, AllCalls-check, AllCalls-leased,
}

-- The commands of an app operation: simple commands whose last word is the package's name, and the
-- start of a component that the device named.
abbrev pub Names : Text → Text → Type 0
Names name s = (ws : List Text) × (words s ≡ some ws) × (get_last? ws ≡ some name)

abbrev pub Starts : Text → Type 0
Starts s = (c : Text) × (is_component c ≡ true) × (s ≡ start_command c)

abbrev pub PackageCall : Text → Call → Type 0
PackageCall name (enters wake) = Unit {0}
PackageCall name (leaves b) = Unit {0}
PackageCall name (shells s) = (is_package name ≡ true) × (Names name s ⊎ Starts s)
PackageCall name _ = ⊥

-- Words with spaces between them, and the name.
abbrev line : List Text → Text → Text
line [] name = name
line (w ∷ ws) name = w ++ b' ' ∷ line ws name

abbrev are_words : List Text → Bool
are_words [] = true
are_words ([] ∷ ws) = false
are_words ((c ∷ w) ∷ ws) = all is_literal (c ∷ w) && are_words ws

line-Names :
    (name : Text) (ws : List Text)
    → is_package name ≡ true
    → are_words ws ≡ true
    → Names name (line ws name)
line-Names name [] ok h = (name ∷ [], words-package name ok, refl)
line-Names name ([] ∷ ws) ok h = cc
line-Names name ((c ∷ w) ∷ ws) ok h =
    let good = &&-true (all is_literal (c ∷ w)) (are_words ws) h in
    onto (line-Names name ws ok good.1) good.0
  where
    onto :
        Names name (line ws name)
        → all is_literal (c ∷ w) ≡ true
        → Names name ((c ∷ w) ++ b' ' ∷ line ws name)
    onto ([], r, e) l = cc
    onto (x ∷ xs, r, e) l =
        ((c ∷ w) ∷ x ∷ xs, words-space c w (line ws name) l ∙ ap (end_word (some (c ∷ w))) r, e)

module _ (name : Text) (ok : is_package name ≡ true) where
  pm_path-Names : Names name (codes "pm path " ++ name)
  pm_path-Names = line-Names name (codes "pm" ∷ codes "path" ∷ []) ok refl

  force_stop-Names : Names name (codes "am force-stop " ++ name)
  force_stop-Names = line-Names name (codes "am" ∷ codes "force-stop" ∷ []) ok refl

  uninstall-Names :
      (keep : Bool)
      → Names name (codes "pm uninstall " ++ ((if keep then codes "-k " else []) ++ name))
  uninstall-Names true = line-Names name (codes "pm" ∷ codes "uninstall" ∷ codes "-k" ∷ []) ok refl
  uninstall-Names false = line-Names name (codes "pm" ∷ codes "uninstall" ∷ []) ok refl

  resolve-Names : Names name (resolve_command name)
  resolve-Names =
      line-Names name
        (codes "cmd"
          ∷ codes "package"
          ∷ codes "resolve-activity"
          ∷ codes "--brief"
          ∷ codes "-a"
          ∷ codes "android.intent.action.MAIN"
          ∷ codes "-c"
          ∷ codes "android.intent.category.LAUNCHER"
          ∷ [])
        ok refl

refused_package :
    {B : Type 0} (name : Text) (f : Unit {0} → Op B)
    → is_package name ≡ false
    → AllCalls (PackageCall name) (require_package name >>= f)
unfolding require_package guard AllCalls
refused_package name f bad = rw bad tt

-- The package is required, and what follows is under that condition.
require-calls :
    {B : Type 0} (name : Text) (f : Unit {0} → Op B)
    → (is_package name ≡ true → AllCalls (PackageCall name) (f tt))
    → AllCalls (PackageCall name) (require_package name >>= f)
unfolding require_package
require-calls name f h =
    let P = PackageCall name in
    elim (Bool-cases (is_package name)) [
      | inl ok ↦
          AllCalls-bind P (require_package name) f
            (AllCalls-check P (is_package name) bad_request _ λ _.
              AllCalls-asks P (shells (codes "pm path " ++ name)) _
                (ok, inl (pm_path-Names name ok)) λ r. AllCalls-guard P _ _)
            λ u. h ok
      | inr bad ↦ refused_package name f bad
    ]

component_lines-All : (ls : List Text) → All (λ c. is_component c ≡ true) (component_lines ls)
component_lines-All [] = tt
component_lines-All (l ∷ ls) = ground (arith, component_lines-All ls)

last-All :
    (cs : List Text)
    → All (λ c. is_component c ≡ true) cs
    → (c : Text) → get_last? cs ≡ some c
    → is_component c ≡ true
last-All [] h c e = cc
last-All (d ∷ []) h c e = ground (arith, h.0)
last-All (d ∷ x ∷ cs) h c e = last-All (x ∷ cs) h.1 c e

start-calls :
    (name : Text) (ok : is_package name ≡ true) (o : Option Text)
    → ((c : Text) → o ≡ some c → is_component c ≡ true)
    → AllCalls (PackageCall name) (start_last o)
start-calls name ok none h = AllCalls-raises (PackageCall name) _ not_found
start-calls name ok (some c) h =
    AllCalls-reply_of (PackageCall name) (shells (start_command c)) (ok, inr (c, h c refl, refl))

-- Whatever the name is, the operations on a package send the shell only commands that it reads as
-- simple commands with the name as their last word, and only if it is the name of a package, and the
-- start of a component that the device named.
package_calls :
    (name : Text) (keep : Bool)
    → AllCalls (PackageCall name) (launch name)
      × AllCalls (PackageCall name) (force_stop name)
      × AllCalls (PackageCall name) (uninstall name keep)
unfolding launch force_stop uninstall
package_calls name keep =
    let P = PackageCall name in
    (
      AllCalls-bind P (leased true _) _
          (AllCalls-leased P true _ tt tt tt (
            require-calls name _ λ ok.
              AllCalls-asks P (shells (resolve_command name)) _ (ok, inl (resolve-Names name ok))
                λ found.
                  let cs = component_lines (split_lines found.text) in
                  start-calls name ok (get_last? cs)
                    (last-All cs (component_lines-All (split_lines found.text)))))
          λ r. AllCalls-guard P _ _,
      AllCalls-leased P true _ tt tt tt (
          require-calls name _ λ ok.
            AllCalls-asks P (shells (codes "am force-stop " ++ name)) _
              (ok, inl (force_stop-Names name ok)) λ r. AllCalls-returns P tt),
      AllCalls-bind P (leased true _) _
          (AllCalls-leased P true _ tt tt tt (
            require-calls name _ λ ok.
              AllCalls-reply_of P
                (shells (codes "pm uninstall " ++ ((if keep then codes "-k " else []) ++ name)))
                (ok, inl (uninstall-Names name ok keep))))
          λ r. AllCalls-check P _ _ _ λ _. AllCalls-returns P _,
    )

-- The device shell reads the start of a component with its name as the last word unless the name has
-- a dollar sign, as the classes inside others have: such a command it does not read as it stands.
start_command-words :
    (c : Text)
    → is_component c ≡ true
    → words (start_command c)
      ≡ (if contains b'$' c then none else some (codes "am" ∷ codes "start" ∷ codes "-n" ∷ c ∷ []))
start_command-words c h =
    words-space b'a' (codes "m") (codes "start -n " ++ c) refl
    ∙ ap (end_word (some (codes "am"))) (
        words-space b's' (codes "tart") (codes "-n " ++ c) refl
        ∙ ap (end_word (some (codes "start"))) (
            words-space b'-' (codes "n") c refl
            ∙ ap (end_word (some (codes "-n"))) (words-component c h)))
    ∙ elim (Bool-cases (contains b'$' c)) [ inl e ↦ rw e refl | inr e ↦ rw e refl ]
