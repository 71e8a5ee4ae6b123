-- ===== src/Backend/Calls.antt =====
-- An operation of the backend as the calls that it makes: each waits for an answer of the device,
-- and what follows depends on it. `_use` (backend.py) holds a lease of the supervisor around them.
use android_appliance.Base.{ℕ, Bool, true, false, List, not}
use android_appliance.Base.Int.{ℤ, is_zero_ℤ}
use android_appliance.Base.Text.{Text}
use android_appliance.Input.Keys.{KeyEvent}

pub data Call : Type 0 where
  -- lease.__aenter__ with `wake`, and the end of the lease, with whether the body succeeded.
  enters : Bool → Call
  leaves : Bool → Call
  -- adb.shell and adb.exec_out
  shells execs_out : Text → Call
  installs : List Text → Call
  -- adb pull and adb push of a device path.
  pulls pushes : Text → Call
  -- The temporary file of a pull is removed.
  unlinks : Call
  takes_screenshot : Call
  pastes types : Text → Call
  sends_key : KeyEvent → Call

-- A finished adb command (adb.py: Result): the exit code, the text of stdout, and `output`.
pub record Reply : Type 0 where
  pub exit_code : ℤ
  pub text : Text
  pub output : Text

pub data Answer : Type 0 where
  replied : Reply → Answer
  -- A picture with its width and height.
  pictured : Text → ℕ → ℕ → Answer
  -- The lease was given, or a call with no result is done.
  done : Answer
  -- AdbTimeout; AdbError, ConnectionError and gRPC errors; a LifecycleError of the lease.
  timed_out broken refused : Answer

-- The code of an OperationError; a LifecycleError keeps its own.
pub data Code : Type 0 where
  bad_request not_found unavailable timeout lifecycle : Code

pub data Op (A : Type 0) : Type 0 where
  returns : A → Op A
  raises : Code → Op A
  calls : Call → (Answer → Op A) → Op A

module _ {A : Type 0} where
  -- The lease ends on every way out of the body.
  unfoldable pub leaving : Op A → Op A
  leaving (returns a) = calls (leaves true) (λ _. returns a)
  leaving (raises c) = calls (leaves false) (λ _. raises c)
  leaving (calls c k) = calls c (λ a. leaving (k a))

  abbrev pub entered : Op A → Answer → Op A
  entered body refused = raises lifecycle
  entered body timed_out = raises lifecycle
  entered body broken = raises lifecycle
  entered body (replied r) = leaving body
  entered body (pictured p w h) = leaving body
  entered body done = leaving body

  -- _use
  unfoldable pub leased : Bool → Op A → Op A
  unfolding leaving
  leased wake body = calls (enters wake) (entered body)

  -- A call that returns a reply, with the errors of `_use`.
  abbrev pub with_reply : (Reply → Op A) → Answer → Op A
  with_reply k (replied r) = k r
  with_reply k timed_out = raises timeout
  with_reply k _ = raises unavailable

  abbrev pub asks : Call → (Reply → Op A) → Op A
  asks c k = calls c (with_reply k)

  -- A call with no result, with the errors of `_use`.
  abbrev pub when_done : Op A → Answer → Op A
  when_done k timed_out = raises timeout
  when_done k broken = raises unavailable
  when_done k _ = k

  abbrev pub does : Call → Op A → Op A
  does c k = calls c (when_done k)

abbrev pub failed : Reply → Bool
failed r = not (is_zero_ℤ r.exit_code)

-- What follows an operation; an error ends it.
infixl 5 ◌>>=◌ ◌>>◌
abbrev pub ◌>>=◌ : {A B : Type 0} → Op A → (A → Op B) → Op B
◌>>=◌ (returns a) f = f a
◌>>=◌ (raises c) f = raises c
◌>>=◌ (calls c k) f = calls c (λ a. k a >>= f)

abbrev pub ◌>>◌ : {B : Type 0} → Op (Unit {0}) → Op B → Op B
m >> k = m >>= λ _. k

unfoldable pub guard : Bool → Code → Op (Unit {0})
guard true c = returns tt
guard false c = raises c

-- The reply to a call.
unfoldable pub reply_of : Call → Op Reply
reply_of c = asks c returns
