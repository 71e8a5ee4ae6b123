-- ===== src/Supervisor/Device.antt =====
-- The wait for the device (supervisor.py: _wait_device) and the file of the state (StateStore). Times are
-- in ticks of a microsecond.
use android_appliance.Base.{
  ℕ, ◌+◌, ◌*◌, Option, none, some, Bool, true, false, List, [], ◌∷◌, ltb, if◌then◌else◌,
}

-- What adb.state gives.
pub data AdbState : Type 0 where
  device unauthorized other_state : AdbState

pub data Waited : Type 0 where
  -- The answers given end before the loop.
  waits_on : Waited
  connected : Waited
  -- _Failure("unauthorized")
  not_authorized : Waited

-- Timing.unauthorized
abbrev pub unauthorized_limit : ℕ
unauthorized_limit = 30 * 1000000

abbrev pub since_first : Option ℕ → ℕ → ℕ
since_first none now = now
since_first (some s) now = s

abbrev pub is_over : Option ℕ → ℕ → Bool
is_over none now = false
is_over (some s) now = ltb (s + unauthorized_limit) now

-- The loop of _wait_device, over the answers of adb with their times; `since` is that of the first
-- "unauthorized" in a row.
unfoldable pub wait_device : Option ℕ → List (ℕ × AdbState) → Waited
wait_device since [] = waits_on
wait_device since ((now, device) ∷ answers) = connected
wait_device since ((now, other_state) ∷ answers) = wait_device none answers
wait_device since ((now, unauthorized) ∷ answers) =
    let rest = wait_device (some (since_first since now)) answers in
    if is_over since now then not_authorized else rest

-- The state in memory and in its file, and whether the last write failed.
pub record Store (D : Type 0) : Type 0 where
  pub memory : D
  pub disk : Option D
  pub unwritable : Bool

-- StateStore.save, when the disk takes the write and when it fails: the file is replaced as a whole.
unfoldable pub save_store : {D : Type 0} → Bool → Store D → Store D
save_store works s =
    if works
    then record s { disk = some s.memory; unwritable = false }
    else record s { unwritable = true }
