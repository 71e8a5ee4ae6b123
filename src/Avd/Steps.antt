-- ===== src/Avd/Steps.antt =====
-- What each operation does to one directory of an AVD (avd.py; supervisor.py: _prepare, _booted,
-- StateStore.save).
use android_appliance.Base.{
  ◌≡◌, refl, Option, none, some, Bool, true, false, not, ◌&&◌, ◌||◌, [], ◌∷◌, arith,
}
use android_appliance.Base.Text.{Text, text_eq, text_eq_refl, text_eq_congr}
use android_appliance.Avd.Data.{
  Dir, create_avd, is_blank, marks, delete, AvdRecord, write_state, prepare, booted_record,
}

abbrev pub can_mark : Option Text → Dir → Bool
can_mark none d = false
can_mark (some m) d = not (is_blank m) && marks m d.marker

-- The record lets `_prepare` delete the directory.
abbrev pub is_doomed : Text → Dir → Option AvdRecord → Bool
is_doomed n d none = false
is_doomed n d (some r) = text_eq r.name n && r.created && not r.booted && can_mark r.marker d

-- Data that is kept is a file, and its directory is not one that may be deleted.
abbrev pub is_safe : Text → Dir → Option AvdRecord → Bool
is_safe n d r = not d.keeps || d.other && not (is_doomed n d r)

-- The record in memory waits for the first boot of the directory.
abbrev pub is_awaiting : Text → Dir → Option AvdRecord → Bool
is_awaiting n d none = false
is_awaiting n d (some r) =
    text_eq r.name n && not r.booted && (not r.created || can_mark r.marker d)

-- While the state file lets the directory be deleted, the record in memory awaits its first boot.
abbrev pub is_linked : Text → Dir → Option AvdRecord → Option AvdRecord → Bool
is_linked n d memory disk = not (is_doomed n d disk) || is_awaiting n d memory

abbrev pub is_fine : Text → Dir → Option AvdRecord → Option AvdRecord → Bool
is_fine n d memory disk = is_safe n d memory && is_safe n d disk && is_linked n d memory disk

is_blank-eq : (t m : Text) → text_eq t m ≡ true → is_blank m ≡ false → is_blank t ≡ false
is_blank-eq [] [] e h = h
is_blank-eq [] (c ∷ m) e h = cc
is_blank-eq (c ∷ t) m e h = refl

pub prepare-is_fine :
    (n token : Text) (is_written : Bool) (d : Dir) (memory disk : Option AvdRecord)
    → is_fine n d memory disk ≡ true
    → let (e, r) = prepare n token d memory in
      (is_fine n e r (write_state is_written r disk) ≡ true) × (d.keeps ≡ true → e.keeps ≡ true)
unfolding prepare create_avd delete
prepare-is_fine n token is_written d none none h = ground (arith, text_eq_refl n)
prepare-is_fine n token is_written d none (some r) h =
    ground (arith, text_eq_refl n, text_eq_refl token, is_blank-eq token)
prepare-is_fine n token is_written d (some r) none h = ground (arith, text_eq_refl n)
prepare-is_fine n token is_written d (some r) (some q) h =
    ground (arith, text_eq_refl n, text_eq_refl token, is_blank-eq token)

pub prepare_other :
    (n token k : Text) (d x : Dir) (r : Option AvdRecord)
    → text_eq n k ≡ false
    → is_doomed k x (prepare n token d r).1 ≡ false
unfolding prepare create_avd delete
prepare_other n token k d x none h = ground arith
prepare_other n token k d x (some r) h = ground (arith, text_eq_congr r.name n k)

-- A directory of another name, with another record in memory, which may be saved.
pub other-is_safe :
    (k : Text) (d : Dir) (is_written : Bool) (memory disk r : Option AvdRecord)
    → is_doomed k d r ≡ false
    → (is_safe k d memory && is_safe k d disk) ≡ true
    → (is_safe k d r && is_safe k d (write_state is_written r disk)) ≡ true
other-is_safe k d true memory disk r n h = rw n (ground (arith, h))
other-is_safe k d false memory disk r n h = rw n (ground (arith, h))

pub boot-is_fine :
    (n : Text) (is_written removed : Bool) (d : Dir) (memory disk : Option AvdRecord)
    → (is_written || removed) ≡ true
    → is_linked n d memory disk ≡ true
    → let (e, m, o) = booted_record is_written removed d memory disk in
      is_fine n (record e { other = true; keeps = true }) m o ≡ true
unfolding booted_record
boot-is_fine n is_written removed d none none w h = ground arith
boot-is_fine n is_written removed d none (some q) w h = ground arith
boot-is_fine n is_written removed d (some r) none w h = ground arith
boot-is_fine n is_written removed d (some r) (some q) w h = ground arith

-- At another name.
pub boot_other :
    (k : Text) (is_written removed : Bool) (d x : Dir) (memory disk : Option AvdRecord)
    → (is_safe k x memory && is_safe k x disk) ≡ true
    → let (e, m, o) = booted_record is_written removed d memory disk in
      (is_safe k x m && is_safe k x o) ≡ true
unfolding booted_record
boot_other k is_written removed d x none disk h = ground arith
boot_other k is_written removed d x (some r) disk h = ground arith

-- qemu's files, and a user's, in a directory.
pub write-is_fine :
    (n : Text) (d : Dir) (memory disk : Option AvdRecord)
    → is_fine n d memory disk ≡ true
    → is_fine n (record d { other = true }) memory disk ≡ true
write-is_fine n d none none h = ground arith
write-is_fine n d none (some q) h = ground arith
write-is_fine n d (some r) none h = ground arith
write-is_fine n d (some r) (some q) h = ground arith

pub bring-is_fine :
    (n : Text) (has_config : Bool) (memory disk : Option AvdRecord)
    → let d : Dir = record { config = has_config; marker = none; other = true; keeps = true } in
      is_fine n d memory disk ≡ true
bring-is_fine n has_config none none = ground arith
bring-is_fine n has_config none (some q) = ground arith
bring-is_fine n has_config (some r) none = ground arith
bring-is_fine n has_config (some r) (some q) = ground arith

-- One record in both places.
pub same-is_linked : (n : Text) (d : Dir) (r : Option AvdRecord) → is_linked n d r r ≡ true
same-is_linked n d none = refl
same-is_linked n d (some r) = ground arith
