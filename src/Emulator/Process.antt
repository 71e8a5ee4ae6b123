-- ===== src/Emulator/Process.antt =====
-- The start and the stop of the emulator's processes (emulator.py: render_node, _terminate, setup_gpu,
-- avd_lock_holder, remove_stale_locks, discovery, emulator_argv, Emulator.stop). What the processes
-- and the file system do comes as arguments.
use android_appliance.Base.{
  ℕ, Option, none, some, Bool, true, false, not, ◌&&◌, ◌||◌, List, [], ◌∷◌, ◌==◌, if◌then◌else◌,
}
use android_appliance.Base.Text.{Text, codes, text_eq, is_empty_text}

-- GPU_MODES
pub data Gpu : Type 0 where
  auto host lavapipe : Gpu

-- A candidate node, with whether it is a character device that can be read and written.
abbrev pub first_usable : List (Text × Bool) → Option Text
first_usable [] = none
first_usable ((node, usable) ∷ ns) =
    let rest = first_usable ns in if usable then some node else rest

-- The nodes of /dev/dri, in order, unless the configuration names one. Whether the one that it names
-- is usable comes as the second argument.
unfoldable pub render_node : Option Text → Bool → List (Text × Bool) → Option Text
render_node none usable found = first_usable found
render_node (some node) usable found = first_usable ((node, usable) ∷ [])

-- glxinfo ends with a renderer, which may be empty, or the call is interrupted.
pub data Glx : Type 0 where
  renderer : Text → Glx
  interrupted : Glx

pub data GpuResult : Type 0 where
  -- The mode, and whether an Xvnc is handed over with it.
  resolved : Gpu → Bool → GpuResult
  launch_error : GpuResult
  raised : GpuResult

-- The result, and whether an Xvnc runs after the call.
abbrev pub Setup : Type 0
Setup = GpuResult × Bool

abbrev pub is_host : Gpu → Bool
is_host host = true
is_host _ = false

abbrev pub fall_back : Gpu → Setup
fall_back g = if is_host g then (launch_error, false) else (resolved lavapipe false, false)

-- `is_software` is the search of SOFTWARE_GL.
abbrev pub with_renderer : (Text → Bool) → Gpu → Glx → Setup
with_renderer is_software g interrupted = (raised, false)
with_renderer is_software g (renderer r) =
    if not (is_empty_text r) && not (is_software r) then (resolved host true, true) else fall_back g

abbrev pub with_node : (Text → Bool) → Gpu → Option Text → Bool → Glx → Setup
with_node is_software g none starts glx = fall_back g
with_node is_software g (some node) starts glx =
    if starts then with_renderer is_software g glx else fall_back g

-- `starts` says that Xvnc comes up; one that does not is stopped by its start.
unfoldable pub setup_gpu : (Text → Bool) → Gpu → Option Text → Bool → Glx → Setup
setup_gpu is_software lavapipe _ starts glx = (resolved lavapipe false, false)
setup_gpu is_software host node starts glx = with_node is_software host node starts glx
setup_gpu is_software auto node starts glx = with_node is_software auto node starts glx

-- A file of the AVD: its name, whether it is a regular file whose name ends in .img or .qcow2, and
-- whether its OFD lock is held.
pub record AvdFile : Type 0 where
  pub name : Text
  pub is_disk : Bool
  pub is_locked : Bool

abbrev pub locked_disk : List AvdFile → Option Text
locked_disk [] = none
locked_disk (f ∷ fs) =
    let rest = locked_disk fs in if f.is_disk && f.is_locked then some f.name else rest

-- The files of the AVD come sorted.
unfoldable pub avd_lock_holder : Bool → List AvdFile → Option Text
avd_lock_holder is_held files =
    if is_held then some (codes "multiinstance.lock") else locked_disk files

-- The stale files: hardware-qemu.ini.lock, and the pid_*.ini of the running emulators.
pub record Stale : Type 0 where
  pub qemu_lock : Bool
  pub running : List Text

abbrev pub unless_held : Option Text → Stale → Stale × Bool
unless_held (some holder) s = (s, false)
unless_held none s = (record { qemu_lock = false; running = [] }, true)

-- The files after the call, and whether it succeeded.
unfoldable pub remove_stale_locks : Bool → List AvdFile → Stale → Stale × Bool
unfolding avd_lock_holder
remove_stale_locks is_held files s = unless_held (avd_lock_holder is_held files) s

-- line.split("=", 1), where the line has an equals sign.
abbrev pub split_equals : Text → Option (Text × Text)
split_equals [] = none
split_equals (c ∷ s) = if c == b'=' then some ([], s) else onto_key c (split_equals s)
  where
    onto_key : ℕ → Option (Text × Text) → Option (Text × Text)
    onto_key c none = none
    onto_key c (some (k, v)) = some (c ∷ k, v)

abbrev pub of_key : Text → Option (Text × Text) → Option Text
of_key key none = none
of_key key (some (k, v)) = if text_eq k key then some v else none

-- The last line of a key counts.
abbrev pub value_of : Text → List Text → Option Text
value_of key [] = none
value_of key (l ∷ ls) = later (value_of key ls) (of_key key (split_equals l))
  where
    later : Option Text → Option Text → Option Text
    later none here = here
    later (some v) here = some v

abbrev pub usable_pair : Option Text → Option Text → Option (Text × Text)
usable_pair none t = none
usable_pair (some p) none = none
usable_pair (some p) (some t) = if is_empty_text p || is_empty_text t then none else some (p, t)

-- Emulator.discovery: the gRPC port and token of the lines of the file, if there is one.
unfoldable pub discovery : Option (List Text) → Option (Text × Text)
discovery none = none
discovery (some ls) =
    usable_pair (value_of (codes "grpc.port") ls) (value_of (codes "grpc.token") ls)

unfoldable pub emulator_argv : Text → Text → Gpu → List Text
emulator_argv binary name gpu =
    binary
    ∷ codes "-avd"
    ∷ name
    ∷ codes "-port"
    ∷ codes "5554"
    ∷ codes "-no-window"
    ∷ codes "-no-audio"
    ∷ codes "-no-boot-anim"
    ∷ codes "-no-metrics"
    ∷ codes "-crash-report-mode"
    ∷ codes "disabled"
    ∷ codes "-gpu"
    ∷ codes (if is_host gpu then "host" else "lavapipe")
    ∷ codes "-feature"
    ∷ codes (if is_host gpu then "-QuickbootFileBacked,-Vulkan" else "-QuickbootFileBacked")
    ∷ codes "-no-snapshot"
    ∷ codes "-grpc"
    ∷ codes "8554"
    ∷ codes "-grpc-use-token"
    ∷ []

-- What Emulator.stop does to qemu, in order, and how long it waits, in seconds: for its exit, or for
-- a command of adb.
pub data Action : Type 0 where
  syncs emu_kills terms kills : Action
  waits : ℕ → Action
  -- An exception ends the stop.
  aborts : Action

-- How a command of adb ends: with the status 0 or another one, after its timeout, with another
-- AdbError, or with an exception of the start of its process.
pub data Command : Type 0 where
  accepts declines expires adb_error os_error : Command

-- Whether qemu has exited at each look at it: before the sync, before `emu kill`, after the wait for
-- it, before SIGTERM, and after the wait for that.
pub record Looks : Type 0 where
  pub at_start : Bool
  pub after_sync : Bool
  pub after_emu_kill : Bool
  pub before_term : Bool
  pub after_term : Bool

-- SIGTERM, SIGKILL and the last wait.
abbrev pub signals : Looks → List Action
signals l =
    if l.before_term
    then waits 10 ∷ []
    else terms ∷ waits 10 ∷ (if l.after_term then [] else kills ∷ waits 10 ∷ [])

-- Adb.emu_kill: a timeout counts as a refusal, any other exception goes on to the caller.
abbrev pub emu_kill : Command → Looks → List Action
emu_kill accepts l = waits 60 ∷ (if l.after_emu_kill then [] else signals l)
emu_kill declines l = signals l
emu_kill expires l = signals l
emu_kill adb_error l = aborts ∷ []
emu_kill os_error l = aborts ∷ []

abbrev pub after_flush : Command → Looks → List Action
after_flush kill l = if l.after_sync then signals l else emu_kills ∷ waits 10 ∷ emu_kill kill l

-- with suppress(AdbError): what follows the sync.
abbrev pub flush : Command → List Action → List Action
flush os_error rest = aborts ∷ []
flush _ rest = rest

-- Emulator.stop, with how the sync and `emu kill` end. A command is waited for as long as its timeout.
unfoldable pub stop_actions : Command → Command → Looks → List Action
stop_actions sync kill l =
    if l.at_start then after_flush kill l else syncs ∷ waits 15 ∷ flush sync (after_flush kill l)

-- _terminate: `gone` says that the process has exited at the start, and after the grace.
unfoldable pub terminate : Bool → Bool → List Action
terminate gone gone_after = if gone then [] else terms ∷ (if gone_after then [] else kills ∷ [])
