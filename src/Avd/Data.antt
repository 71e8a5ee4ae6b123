-- ===== src/Avd/Data.antt =====
-- The AVD's directory and its record: avd.py (exists, create, first_boot_marker, first_boot_done,
-- delete) and supervisor.py (_prepare, _booted). Of a directory the model has whether config.ini and
-- other files are there, and the first-boot marker. `keeps` is no file: it says that the directory
-- holds data of a user or of a completed boot.
use android_appliance.Base.{
  Option, none, some, Bool, true, false, not, ◌&&◌, ◌||◌, List, [], ◌∷◌, if◌then◌else◌, is_some,
}
use android_appliance.Base.Text.{Text, text_eq}

pub record Dir : Type 0 where
  pub config : Bool
  pub marker : Option Text
  pub other : Bool
  pub keeps : Bool

abbrev pub no_dir : Dir
no_dir = record { config = false; marker = none; other = false; keeps = false }

abbrev pub exists : Dir → Bool
exists d = d.config

abbrev pub is_fresh : Dir → Bool
is_fresh d = not (d.config || is_some d.marker || d.other)

-- `token` is the random text of a new marker.
unfoldable pub create_avd : Text → Dir → Dir × Option Text
create_avd token d =
    if is_fresh d
    then (record d { config = true; marker = some token }, some token)
    else (record d { config = true }, none)

abbrev pub first_boot_marker : Dir → Option Text
first_boot_marker d = d.marker

abbrev pub first_boot_done : Dir → Dir
first_boot_done d = record d { marker = none }

-- `not marker`
abbrev pub is_blank : Text → Bool
is_blank [] = true
is_blank (c ∷ s) = false

abbrev pub marks : Text → Option Text → Bool
marks m none = false
marks m (some t) = text_eq t m

-- none is the AvdError.
unfoldable pub delete : Text → Dir → Option Dir
delete m d = if is_blank m || not (marks m (first_boot_marker d)) then none else some no_dir

-- The "avd" entry of the state file.
pub record AvdRecord : Type 0 where
  pub name : Text
  pub created : Bool
  pub booted : Bool
  pub marker : Option Text

-- All AVDs of the state directory, the record in the state file and the one in memory, and the name of
-- the AVD of the daemon's configuration.
pub record StateDir : Type 0 where
  pub dirs : Text → Dir
  pub disk : Option AvdRecord
  pub memory : Option AvdRecord
  pub name : Text

-- StateStore.save: a file that cannot be written stays as it is.
abbrev pub write_state : Bool → Option AvdRecord → Option AvdRecord → Option AvdRecord
write_state is_written memory disk = if is_written then memory else disk

abbrev pub put_dir : Text → Dir → (Text → Dir) → Text → Dir
put_dir n d dirs k = if text_eq n k then d else dirs k

abbrev pub record_of : Text → Option AvdRecord → Option AvdRecord
record_of n none = none
record_of n (some r) = if text_eq r.name n then some r else none

-- record and record.get("created") and not record.get("booted")
abbrev pub is_unbooted : Option AvdRecord → Bool
is_unbooted none = false
is_unbooted (some r) = r.created && not r.booted

abbrev pub marker_of : Option AvdRecord → Option Text
marker_of none = none
marker_of (some r) = r.marker

-- The directory and the record after an unbooted AVD with the record's marker was deleted.
abbrev pub recreate : Option Text → Dir → Option AvdRecord → Dir × Option AvdRecord
recreate none d r = (d, none)
recreate (some m) d r =
    if not (is_blank m) && marks m (first_boot_marker d)
    then (deleted (delete m d), r)
    else (d, none)
  where
    deleted : Option Dir → Dir
    deleted none = d
    deleted (some e) = e

abbrev pub new_record : Text → Option Text → AvdRecord
new_record n m = record { name = n; created = is_some m; booted = false; marker = m }

abbrev pub adopted : Text → Option AvdRecord → Option AvdRecord
adopted n none = some (record { name = n; created = false; booted = true; marker = none })
adopted n (some r) = some r

-- _prepare on the AVD `n`, up to `configure`: the directory and the record that it saves.
unfoldable pub prepare : Text → Text → Dir → Option AvdRecord → Dir × Option AvdRecord
unfolding create_avd delete
prepare n token d saved =
    let r = record_of n saved in
    let (e, q) = if exists d && is_unbooted r then recreate (marker_of r) d r else (d, r) in
    let (f, m) = create_avd token e in
    if not (exists e) then (f, some (new_record n m)) else (e, adopted n q)

abbrev pub mark_booted : AvdRecord → AvdRecord
mark_booted r = record r { booted = true; marker = none }

-- Path.unlink of the marker may fail.
abbrev pub unmark : Bool → Dir → Dir
unmark removed d = if removed then first_boot_done d else d

-- _booted: the directory, the record in memory and that in the file.
unfoldable pub booted_record :
    Bool
    → Bool
    → Dir
    → Option AvdRecord
    → Option AvdRecord
    → Dir × Option AvdRecord × Option AvdRecord
booted_record is_written removed d none disk =
    (unmark removed d, none, write_state is_written none disk)
booted_record is_written removed d (some r) disk = if r.booted then (d, some r, disk) else (
  unmark removed d,
  some (mark_booted r),
  write_state is_written (some (mark_booted r)) disk,
)

-- What happens to the state directory.
pub data Happening : Type 0 where
  -- A daemon starts, with this AVD in its configuration, and reads the state file.
  restarts : Text → Happening
  -- _prepare, with the text of a new marker and whether the state file is written.
  prepares : Text → Bool → Happening
  -- qemu writes userdata into the AVD.
  writes : Happening
  -- Android reports that it booted, so its userdata is to be kept: whether the state file is written
  -- and the marker removed.
  boots : Bool → Bool → Happening
  -- Another save of the state file succeeds.
  saves : Happening
  -- A user puts an AVD or files in the place of a directory, without a marker.
  brings : Text → Bool → Happening

unfoldable pub happen : Happening → StateDir → StateDir
unfolding prepare booted_record
happen (restarts n) s = record s { memory = s.disk; name = n }
happen (prepares token is_written) s =
    let (d, r) = prepare s.name token (s.dirs s.name) s.memory in
    record {
      dirs = put_dir s.name d s.dirs;
      disk = write_state is_written r s.disk;
      memory = r;
      name = s.name;
    }
happen writes s = record s {
  dirs = put_dir s.name (record (s.dirs s.name) { other = true }) s.dirs;
}
happen (boots is_written removed) s =
    let (d, m, o) = booted_record is_written removed (s.dirs s.name) s.memory s.disk in
    record {
      dirs = put_dir s.name (record d { other = true; keeps = true }) s.dirs;
      disk = o;
      memory = m;
      name = s.name;
    }
happen saves s = record s { disk = s.memory }
happen (brings n has_config) s = record s {
  dirs =
      put_dir n (record { config = has_config; marker = none; other = true; keeps = true }) s.dirs;
}

unfoldable pub happen_all : StateDir → List Happening → StateDir
happen_all s [] = s
happen_all s (h ∷ hs) = happen_all (happen h s) hs

abbrev pub no_avds : StateDir
no_avds = record { dirs = λ k. no_dir; disk = none; memory = none; name = [] }
