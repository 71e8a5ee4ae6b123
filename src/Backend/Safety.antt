-- ===== src/Backend/Safety.antt =====
-- What the commands that reach the device shell say, and where files go.
use android_appliance.Base.{
  ◌≡◌, refl, ◌⊎◌, inl, inr, ap, ◌∙◌, Option, none, some, Bool, true, false, not, ◌||◌, [], ◌∷◌,
  ◌++◌, Bool-cases, is_some,
}
use android_appliance.Base.Text.{Text, codes, strip}
use android_appliance.Backend.Shell.{check_path, quote, words, end_word}
use android_appliance.Backend.Words.{words-space, words-quote}
use android_appliance.Backend.Calls.{
  raises, Call, enters, leaves, shells, pulls, pushes, unlinks, replied, done, timed_out, timeout,
  leaving, Reply, bad_request, not_found, leased, reply_of, guard, ◌>>=◌, failed,
}
use android_appliance.Backend.Files.{
  file_type, stat_command, is_directory, pull, pulled, push, target, name_ok, is_file_name,
  ends_slash, inside,
}
use android_appliance.Backend.Traces.{
  AllCalls, AllCalls-bind, AllCalls-reply_of, AllCalls-guard, AllCalls-returns, AllCalls-asks,
  AllCalls-check, AllCalls-leased, run,
}

words-stat :
    (path : Text)
    → words (stat_command path)
      ≡ some (codes "stat" ∷ codes "-L" ∷ codes "-c" ∷ codes "%F" ∷ path ∷ [])
words-stat path =
    words-space b's' (codes "tat") (codes "-L -c %F " ++ quote path) refl
    ∙ ap (end_word (some (codes "stat"))) (
        words-space b'-' (codes "L") (codes "-c %F " ++ quote path) refl
        ∙ ap (end_word (some (codes "-L"))) (
            words-space b'-' (codes "c") (codes "%F " ++ quote path) refl
            ∙ ap (end_word (some (codes "-c"))) (
                words-space b'%' (codes "F") (quote path) refl
                ∙ ap (end_word (some (codes "%F"))) (words-quote path))))

-- Where a file may land: at the path itself, or in it under a name that is one file name.
abbrev pub Lands : Text → Option Text → Text → Type 0
Lands path none t = t ≡ path
Lands path (some name) t = (t ≡ path) ⊎ ((t ≡ inside path name) × (is_file_name name ≡ true))

-- The calls of a transfer: a lease, the question for the kind of the path as one simple command of
-- five words, and the transfer.
abbrev pub TransferCall : Text → Option Text → Call → Type 0
TransferCall path name (enters wake) = Unit {0}
TransferCall path name (leaves b) = Unit {0}
TransferCall path name unlinks = Unit {0}
TransferCall path name (shells s) =
    words s ≡ some (codes "stat" ∷ codes "-L" ∷ codes "-c" ∷ codes "%F" ∷ path ∷ [])
TransferCall path name (pulls t) = t ≡ path
TransferCall path name (pushes t) = Lands path name t
TransferCall path name _ = ⊥

file_type-calls :
    (path : Text) (name : Option Text) → AllCalls (TransferCall path name) (file_type path)
unfolding file_type
file_type-calls path name =
    AllCalls-asks (TransferCall path name) (shells (stat_command path)) _ (words-stat path)
      λ r. AllCalls-returns (TransferCall path name) _

pulled-calls : (path : Text) (r : Reply) → AllCalls (TransferCall path none) (pulled r)
unfolding AllCalls
pulled-calls path r = elim (Bool-cases (failed r)) [ inl e ↦ rw e (tt, λ _. tt) | inr e ↦ rw e tt ]

-- The rest of a push, at a target that is allowed.
push_to :
    (path : Text) (name : Option Text) (b : Bool)
    → name_ok name ≡ true
    → AllCalls (TransferCall path name) (target b path name >>= λ remote. reply_of (pushes remote))
unfolding AllCalls
push_to path none true h = tt
push_to path (some n) true h =
    AllCalls-reply_of (TransferCall path (some n)) (pushes (inside path n)) (inr (refl, h))
push_to path none false h = elim (Bool-cases (ends_slash path)) [
  | inl e ↦ rw e tt
  | inr e ↦ rw e (AllCalls-reply_of (TransferCall path none) (pushes path) refl)
]
push_to path (some n) false h = elim (Bool-cases (ends_slash path)) [
  | inl e ↦ rw e tt
  | inr e ↦ rw e (AllCalls-reply_of (TransferCall path (some n)) (pushes path) (inl refl))
]

-- Whatever the path and the name are, a pull or a push sends the shell only the question for the
-- kind of that path, as one simple command of five words, and moves a file only from the path, and
-- only to it or into it under a name that is one file name.
pub transfer_calls :
    (path : Text) (name : Option Text)
    → AllCalls (TransferCall path none) (pull path)
      × AllCalls (TransferCall path name) (push path name)
unfolding pull push
transfer_calls path name =
    let P = TransferCall path none in
    let Q = TransferCall path name in
    (
      AllCalls-check P (check_path path) bad_request _ λ _.
          AllCalls-bind P (leased true _) _
            (AllCalls-leased P true _ tt tt tt (
              AllCalls-bind P (file_type path) _ (file_type-calls path none) λ kind.
                AllCalls-check P (is_some kind) not_found _ λ _.
                  AllCalls-check P (not (is_directory kind)) bad_request _
                    λ _. AllCalls-reply_of P (pulls path) refl))
            (pulled-calls path),
      AllCalls-check Q (check_path path) bad_request _ λ _.
          AllCalls-check Q (name_ok name) bad_request _ λ ok.
            AllCalls-check Q (is_some name || not (ends_slash path)) bad_request _ λ _.
              AllCalls-bind Q (leased true _) _
                (AllCalls-leased Q true _ tt tt tt (
                  AllCalls-bind Q (file_type path) _ (file_type-calls path name)
                    λ kind. push_to path name (is_directory kind) ok))
                λ r. AllCalls-guard Q _ _,
    )

-- A pull that the device does not finish in time leaves its temporary file: it makes no call that
-- removes it, and fails with a timeout.
pull_leaves_file :
    (path : Text) (r : Reply)
    → check_path path ≡ true
    → failed r ≡ false
    → is_directory (some (strip r.text)) ≡ false
    → run (done ∷ replied r ∷ timed_out ∷ done ∷ []) (pull path)
      ≡ (enters true ∷ shells (stat_command path) ∷ pulls path ∷ leaves false ∷ [], raises timeout)
unfolding run pull file_type leased leaving guard reply_of
pull_leaves_file path r c f d = rw (c, f, d) refl
