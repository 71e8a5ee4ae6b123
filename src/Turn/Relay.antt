-- ===== src/Turn/Relay.antt =====
-- turn.py: the credentials' user names, the log window and the delay between two runs of turnserver. Times of the log and of a run are in ticks of a millionth of a
-- second, those of a user name in whole seconds, as time.time() rounded down.
use android_appliance.Base.{
  ℕ, suc, ◌+◌, ◌-◌, ◌*◌, Option, none, some, Bool, true, false, not, ◌&&◌, List, [], ◌∷◌, ◌++◌, ltb,
  min, keep_if, length, ◌==◌, if◌then◌else◌,
}
use android_appliance.Base.Text.{Text}

abbrev pub credential_ttl : ℕ
credential_ttl = 86400

abbrev pub renew_before : ℕ
renew_before = 3600

-- s.partition(":")[0]
abbrev pub before_colon : Text → Text
before_colon [] = []
before_colon (c ∷ s) = let rest = before_colon s in if c == b':' then [] else c ∷ rest

abbrev pub is_empty : Text → Bool
is_empty [] = true
is_empty (c ∷ s) = false

-- `str` and `int` are Python's, of a number and of a text of digits, and `is_digits` is str.isdigit.
-- `token` is the random part of a new name.
module _ (str : ℕ → Text) (int : Text → ℕ) (is_digits : Text → Bool) where
  unfoldable pub new_user : Text → ℕ → Text
  new_user token now = str (now + credential_ttl) ++ b':' ∷ token

  abbrev pub is_valid_after : ℕ → Text → Bool
  is_valid_after now user =
      let expiry = before_colon user in
      not (is_empty user) && is_digits expiry && ltb renew_before (int expiry - now)

  abbrev renew_some : Text → ℕ → Option Text → Text
  renew_some token now none = new_user token now
  renew_some token now (some user) = if is_valid_after now user then user else new_user token now

  unfoldable pub renew_user : Text → ℕ → Option Text → Text
  unfolding new_user
  renew_user token now user = renew_some token now user

-- The `_lines` and `_suppressed` of Turn.
pub record TurnLog : Type 0 where
  pub lines : List ℕ
  pub suppressed : ℕ

pub data Logged : Type 0 where
  line : Text → Logged
  more_suppressed : ℕ → Logged

abbrev pub log_lines : ℕ
log_lines = 100

abbrev pub log_window : ℕ
log_window = 60000000

abbrev pub is_recent : ℕ → ℕ → Bool
is_recent now t = ltb (now - t) log_window

unfoldable pub log_line : ℕ → Text → TurnLog → TurnLog × List Logged
log_line now text s =
    let recent = keep_if (is_recent now) s.lines in
    if ltb (length recent) log_lines
    then (
      record { lines = recent ++ now ∷ []; suppressed = 0 },
      if s.suppressed == 0 then line text ∷ [] else more_suppressed s.suppressed ∷ line text ∷ [],
    )
    else (record { lines = recent; suppressed = suc s.suppressed }, [])

abbrev pub first_delay : ℕ
first_delay = 1000000

abbrev pub max_delay : ℕ
max_delay = 30000000

abbrev pub stable : ℕ
stable = 30000000

-- The delay of _supervise after a run of the given length (0 where turnserver could not start).
unfoldable pub next_delay : ℕ → ℕ → ℕ
next_delay run_time delay = if ltb stable run_time then first_delay else min (delay * 2) max_delay

unfoldable pub delays : ℕ → List ℕ → List ℕ
unfolding next_delay
delays delay [] = []
delays delay (r ∷ rs) = let d = next_delay r delay in d ∷ delays d rs
