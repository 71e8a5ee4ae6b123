-- ===== src/Examples/Auth.antt =====
-- Login codes, failed logins and sessions at concrete inputs.
use android_appliance.Base.{◌+◌, ◌≤◌, ◌≡◌, refl, ◌↔◌, [], ◌∷◌, ◌++◌, ℕ, true, false, arith}
use android_appliance.Base.Text.{Text, codes, text_eq}
use android_appliance.Auth.State.{Auth, use_login_code, rotate, blocked, new_session, check_session}
use android_appliance.Base.{none, some}
use android_appliance.Auth.Secrets.{Directory, file_steps, write_secret, secret, take_first}
use android_appliance.Auth.Keeping.{OldOrNew, Keeps, secret-Keeps}
use android_appliance.Auth.Laws.{
  call_all, links, uses, fails, code_works_once, fail_five, five_failures_block, session_accepted,
}

abbrev fresh : Auth
fresh = record { token = codes "t"; session_key = codes "k"; links = []; failures = [] }

code_works_once_example :
    let b = call_all (links 5 (codes "a") ∷ []) fresh in
    let ds = fails 6 (codes "c") ∷ links 7 (codes "b") ∷ uses 8 (codes "b") ∷ [] in
    ((use_login_code 9 (codes "a") (call_all ds (use_login_code 6 (codes "a") b).0)).1 ≡ false)
    × ((use_login_code 9 (codes "a") (call_all ds (rotate (codes "u") (codes "l") b))).1 ≡ false)
code_works_once_example =
    code_works_once (codes "a") (links 5 (codes "a") ∷ [])
      (fails 6 (codes "c") ∷ links 7 (codes "b") ∷ uses 8 (codes "b") ∷ []) fresh 6 9 (codes "u")
      (codes "l") tt (refl, tt)

five_failures_block_example :
    ((blocked 60000001 (codes "c") (fail_five (codes "c") 1 2 3 4 5 fresh)).1 ≡ true)
    ↔ (60000001 ≤ 1 + 60000000)
five_failures_block_example =
    five_failures_block (codes "c") 1 2 3 4 5 60000001 fresh (omega arith) (omega arith)
      (omega arith) (omega arith) (omega arith) refl

-- A code that names its key, and one instant in decimal.
abbrev keyed : Text → Text → Text
keyed key payload = key ++ payload

abbrev decimal : ℕ → Text
decimal n = codes "604805"

abbrev parsed : Text → ℕ
parsed t = 604805

session_accepted_example :
    let payload = codes "604805.n" in
    (check_session keyed decimal parsed 9
        (new_session keyed decimal parsed 5 (codes "n") fresh)
        fresh
      ≡ true)
    ↔ ((9 ≤ 5 + 604800) × (text_eq (codes "k" ++ payload) (codes "k" ++ payload) ≡ true))
session_accepted_example =
    session_accepted keyed decimal parsed 5 9 (codes "n") fresh fresh refl refl refl (omega arith)
      refl refl refl

-- No file yet, and a temporary one that an interrupted write left.
abbrev interrupted : Directory
interrupted = record { file = none; temporary = some (codes "se") }

secret-Keeps_example :
    (let r = secret (codes "s3cret") (codes "s3c" ∷ codes "ret" ∷ (10 ∷ []) ∷ []) interrupted in
      Keeps r.0 r.1)
    × OldOrNew none (codes "s3cret" ++ 10 ∷ []) (
        file_steps
          (take_first 3 (write_secret (codes "s3c" ∷ codes "ret" ∷ (10 ∷ []) ∷ [])))
          interrupted)
secret-Keeps_example =
    secret-Keeps (codes "s3cret") (codes "s3c" ∷ codes "ret" ∷ (10 ∷ []) ∷ []) interrupted 3 refl
      (refl, refl)
