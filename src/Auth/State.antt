-- ===== src/Auth/State.antt =====
-- The state of Auth and its operations. Times are in ticks of the clock that a call reads. What
-- `secrets` and `hmac` return comes as an argument; compare_digest is equality of texts.
use android_appliance.Base.{
  ℕ, ◌+◌, ◌-◌, Option, none, some, Bool, true, false, not, ◌&&◌, ◌||◌, List, [], ◌∷◌, ◌++◌, leb,
  ltb, ◌==◌, if◌then◌else◌, length, drop, all,
}
use android_appliance.Base.Text.{Text, text_eq, is_digit}

-- Ticks of a second.
abbrev pub second : ℕ
second = 1000000

abbrev pub link_ttl : ℕ
link_ttl = 120000000

-- SESSION_TTL, in seconds
abbrev pub session_ttl : ℕ
session_ttl = 604800

abbrev pub max_failures : ℕ
max_failures = 5

abbrev pub failure_window : ℕ
failure_window = 60000000

abbrev pub Links : Type 0
Links = List (Text × ℕ)

-- The times of the failed logins of each client, oldest first.
abbrev pub Failures : Type 0
Failures = List (Text × List ℕ)

pub record Auth : Type 0 where
  pub token : Text
  pub session_key : Text
  pub links : Links
  pub failures : Failures

unfoldable pub check_token : Text → Auth → Bool
check_token value a = text_eq value a.token

-- The new token and session key are random texts.
unfoldable pub rotate : Text → Text → Auth → Auth
rotate token key a = record a { token = token; session_key = key; links = [] }

abbrev pub live_links : ℕ → Links → Links
live_links now [] = []
live_links now ((c, end) ∷ ls) =
    let rest = live_links now ls in if ltb now end then (c, end) ∷ rest else rest

-- self._links[code] = end
abbrev pub put_link : Text → ℕ → Links → Links
put_link c t [] = (c, t) ∷ []
put_link c t ((d, u) ∷ ls) =
    let rest = put_link c t ls in if text_eq d c then (d, t) ∷ ls else (d, u) ∷ rest

abbrev pub find_link : Text → Links → Option ℕ
find_link c [] = none
find_link c ((d, u) ∷ ls) = let rest = find_link c ls in if text_eq d c then some u else rest

-- del self._links[code]
abbrev pub pop_link : Text → Links → Links
pop_link c [] = []
pop_link c ((d, u) ∷ ls) = let rest = pop_link c ls in if text_eq d c then ls else (d, u) ∷ rest

-- The link names the code; its host and port are those of the configuration.
unfoldable pub login_link : ℕ → Text → Auth → Auth
login_link now code a = record a { links = put_link code (now + link_ttl) (live_links now a.links) }

abbrev is_later : ℕ → Option ℕ → Bool
is_later now none = false
is_later now (some end) = ltb now end

unfoldable pub use_login_code : ℕ → Text → Auth → Auth × Bool
use_login_code now code a =
    (record a { links = pop_link code a.links }, is_later now (find_link code a.links))

abbrev pub failures_of : Text → Failures → List ℕ
failures_of c [] = []
failures_of c ((d, ts) ∷ fs) = let rest = failures_of c fs in if text_eq d c then ts else rest

abbrev pub put_failures : Text → List ℕ → Failures → Failures
put_failures c v [] = (c, v) ∷ []
put_failures c v ((d, ts) ∷ fs) =
    let rest = put_failures c v fs in if text_eq d c then (d, v) ∷ fs else (d, ts) ∷ rest

-- while failures and failures[0] < now - FAILURE_WINDOW: failures.popleft()
abbrev pub drop_old : ℕ → List ℕ → List ℕ
drop_old now [] = []
drop_old now (t ∷ ts) =
    let rest = drop_old now ts in if ltb (t + failure_window) now then rest else t ∷ ts

-- A client without an entry stays without one.
abbrev has_failures : List ℕ → Bool
has_failures [] = false
has_failures (t ∷ ts) = true

unfoldable pub blocked : ℕ → Text → Auth → Auth × Bool
blocked now client a =
    let old = failures_of client a.failures in
    let recent = drop_old now old in
    if has_failures old
    then (
      record a { failures = put_failures client recent a.failures },
      leb max_failures (length recent),
    )
    else (a, false)

-- deque(maxlen=MAX_FAILURES).append
abbrev pub append_failure : ℕ → List ℕ → List ℕ
append_failure t ts = let longer = ts ++ t ∷ [] in drop (length longer - max_failures) longer

unfoldable pub failed : ℕ → Text → Auth → Auth
failed now client a =
    let fs : Failures = if ltb 10000 (length a.failures) then [] else a.failures in
    record a { failures = put_failures client (append_failure now (failures_of client fs)) fs }

-- s.partition("."): what stands before the first dot and after it.
abbrev pub before_dot : Text → Text
before_dot [] = []
before_dot (c ∷ s) = let rest = before_dot s in if c == b'.' then [] else c ∷ rest

abbrev pub after_dot : Text → Text
after_dot [] = []
after_dot (c ∷ s) = let rest = after_dot s in if c == b'.' then s else rest

abbrev pub is_empty : Text → Bool
is_empty [] = true
is_empty (c ∷ s) = false

-- `mac` is the HMAC of a payload under a key, in hexadecimal; `str` and `int` are Python's, of a
-- number and of a text of digits.
module _ (mac : Text → Text → Text) (str : ℕ → Text) (int : Text → ℕ) where
  -- `now` is in whole seconds.
  unfoldable pub new_session : ℕ → Text → Auth → Text
  new_session now nonce a =
      let payload = str (now + session_ttl) ++ b'.' ∷ nonce in
      payload ++ b'.' ∷ mac a.session_key payload

  -- An expiry of at most 12 ASCII digits that is not over, a nonce, and the right code.
  unfoldable pub check_session : ℕ → Text → Auth → Bool
  check_session now value a =
      let expiry = before_dot value in
      let rest = after_dot value in
      let nonce = before_dot rest in
      if not (all is_digit expiry && not (is_empty expiry) && leb (length expiry) 12)
        || is_empty nonce
        || ltb (int expiry) now
      then false
      else text_eq (after_dot rest) (mac a.session_key (expiry ++ b'.' ∷ nonce))
