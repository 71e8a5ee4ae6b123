-- ===== src/Supervisor/Types.antt =====
-- The state of appliance/supervisor.py: lifecycle states, failures, the tasks and the store.
-- A message text is left out of a failure; its kind, exit status and API code are kept.
use android_appliance.Base.{ℕ, Option, List, Bool}
use android_appliance.Base.Int.{ℤ}

pub data State : Type 0 where
  stopped starting running stopping : State

-- The API code of a LifecycleError.
pub data Code : Type 0 where
  boot_failed timeout conflict unavailable : Code

-- The `kind` of a _Failure.
pub data Kind : Type 0 where
  launch_kind timeout_kind adb_kind unauthorized_kind avd_kind : Kind
  internal_kind renderer_kind crash_kind gpu_kind locks_kind : Kind

pub record Failure : Type 0 where
  pub kind : Kind
  pub exit_status : Option ℤ
  pub code : Code

-- One entry of `crashes` in the store, which is also `last_error`; `time` is the clock's.
pub record Crash : Type 0 where
  pub failure : Failure
  pub time : ℕ
  pub was_retried : Bool

pub data Phase : Type 0 where
  preparing gpu_setup launching connecting waiting_for_adb booting setting_up restarting : Phase

-- A future that waiters of a start hold: `unmade` is the value at an identifier that is not used.
pub data Fut : Type 0 where
  unmade pending resolved : Fut
  failed : Code → Fut

-- The task `_boot`: clearing is the wait for a crashed boot and the teardown of its leftovers,
-- unwinding is a cancelled boot that has not ended.
pub data Boot : Type 0 where
  no_boot clearing active unwinding ended : Boot

-- The task `_stop`, with the arguments that it captured.
pub record Stopping : Type 0 where
  pub done : Option ℕ
  pub error : Code

pub record Emu : Type 0 where
  pub pid : ℕ
  pub returncode : Option ℤ
  -- A line after which qemu hangs was seen, and qemu was killed for it.
  pub hang : Bool
  -- The log has a fatal line.
  pub fatal : Bool

-- state.json: the crash history and the saved activity time.
pub record Store : Type 0 where
  pub crashes : List Crash
  pub activity : Option ℕ

pub record Config : Type 0 where
  pub idle_stop_seconds : ℕ
  pub settle : ℕ

pub record Sup : Type 0 where
  pub cfg : Config
  pub state : State
  pub phase : Option Phase
  pub last_error : Option Crash
  pub grpc : Bool
  pub emu : Option Emu
  pub xvnc : Bool
  pub boot_task : Boot
  pub boot_done : Option ℕ
  pub stop_task : Option Stopping
  -- The emulator that the watcher task waits for.
  pub watcher : Option ℕ
  -- Periodic jobs: how many are registered, and how many run.
  pub jobs : ℕ
  pub job_tasks : ℕ
  -- `_start` calls in background tasks.
  pub background : ℕ
  pub leases : ℕ
  pub launched_at : Option ℕ
  pub running_since : Option ℕ
  pub retried : Bool
  pub closing : Bool
  pub activity : Option ℕ
  pub activity_saved : ℕ
  pub store : Store
  pub futures : ℕ → Fut
  pub next_future : ℕ
  pub next_pid : ℕ

-- How a teardown ends: at which call it raises, if any.
pub data Fault : Type 0 where
  no_fault at_emu_stop at_grpc_close at_xvnc_stop : Fault
