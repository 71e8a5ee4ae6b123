-- ===== src/Avd/Safety.antt =====
-- No data is lost by the recreation of an AVD whose first boot was killed (supervisor.py: _prepare,
-- _booted, StateStore.save).
use android_appliance.Base.{
  ◌≡◌, refl, inl, inr, Option, none, some, Bool, true, false, ◌&&◌, ◌||◌, List, [], ◌∷◌, arith,
  Bool-cases, subst, All,
}
use android_appliance.Base.Text.{Text, text_eq, text_eq_refl, text_eq_sound}
use android_appliance.Avd.Data.{
  Dir, no_dir, create_avd, is_blank, delete, AvdRecord, StateDir, write_state, new_record, prepare,
  booted_record, put_dir, Happening, restarts, prepares, writes, boots, saves, brings, happen,
  happen_all, no_avds,
}
use android_appliance.Avd.Steps.{
  is_safe, is_linked, is_fine, prepare-is_fine, prepare_other, other-is_safe, boot-is_fine,
  boot_other, write-is_fine, bring-is_fine, same-is_linked,
}

-- A statement on every name, from the one that is written and the others.
on_name {ℓ} : (P : Text → Type ℓ) (n k : Text) → P n → (text_eq n k ≡ false → P k) → P k
on_name P n k a b = elim (Bool-cases (text_eq n k)) [
  | inl e ↦ subst P (text_eq_sound n k e) a
  | inr e ↦ b e
]

-- The directory may be deleted by neither record, if it keeps data.
abbrev is_held : Text → Dir → Option AvdRecord → Option AvdRecord → Bool
is_held k d memory disk = is_safe k d memory && is_safe k d disk

-- Every directory is safe, and the two records agree on what may be deleted.
abbrev IsSound : StateDir → Type 0
IsSound s =
    ((k : Text) → is_held k (s.dirs k) s.memory s.disk ≡ true)
    × (is_linked s.name (s.dirs s.name) s.memory s.disk ≡ true)

-- The store stays sound, and the data stays.
abbrev Becomes : StateDir → StateDir → Type 0
Becomes s t = IsSound t × ((k : Text) → (s.dirs k).keeps ≡ true → (t.dirs k).keeps ≡ true)

fine_held :
    (n : Text) (d : Dir) (m o : Option AvdRecord)
    → is_fine n d m o ≡ true
    → (is_held n d m o ≡ true) × (is_linked n d m o ≡ true)
fine_held n d m o h = ground (arith, h)

held_fine :
    (n : Text) (d : Dir) (m o : Option AvdRecord)
    → is_held n d m o ≡ true
    → is_linked n d m o ≡ true
    → is_fine n d m o ≡ true
held_fine n d m o h l = ground (arith, h, l)

sound_fine : (s : StateDir) → IsSound s → is_fine s.name (s.dirs s.name) s.memory s.disk ≡ true
sound_fine s h = held_fine s.name (s.dirs s.name) s.memory s.disk (h.0 s.name) h.1

-- A change of the daemon's directory and of the records.
change-Becomes :
    (s : StateDir) (d : Dir) (m o : Option AvdRecord)
    → is_fine s.name d m o ≡ true
    → ((s.dirs s.name).keeps ≡ true → d.keeps ≡ true)
    → ((k : Text) → text_eq s.name k ≡ false → is_held k (s.dirs k) m o ≡ true)
    → Becomes s (record { dirs = put_dir s.name d s.dirs; disk = o; memory = m; name = s.name })
change-Becomes s d m o f z others =
    let h = fine_held s.name d m o f in
    (
      (
        λ k.
            on_name (λ j. is_held j (put_dir s.name d s.dirs j) m o ≡ true) s.name k
              (rw (text_eq_refl s.name) h.0) (λ e. rw e (others k e)),
        rw (text_eq_refl s.name) h.1,
      ),
      λ k.
          on_name (λ j. (s.dirs j).keeps ≡ true → (put_dir s.name d s.dirs j).keeps ≡ true) s.name k
            (rw (text_eq_refl s.name) z) (λ e. rw e (λ y. y)),
    )

bring-Becomes :
    (n : Text) (has_config : Bool) (s : StateDir)
    → IsSound s
    → Becomes s (happen (brings n has_config) s)
unfolding happen
bring-Becomes n has_config s h =
    let d : Dir = record { config = has_config; marker = none; other = true; keeps = true } in
    let f =
      λ (k : Text). fine_held k d s.memory s.disk (bring-is_fine k has_config s.memory s.disk) in
    (
      (
        λ k.
            on_name (λ j. is_held j (put_dir n d s.dirs j) s.memory s.disk ≡ true) n k
              (rw (text_eq_refl n) (f n).0) (λ e. rw e (h.0 k)),
        elim (Bool-cases (text_eq n s.name)) [ inl e ↦ rw e (f s.name).1 | inr e ↦ rw e (h.1) ],
      ),
      λ k.
          on_name (λ j. (s.dirs j).keeps ≡ true → (put_dir n d s.dirs j).keeps ≡ true) n k
            (rw (text_eq_refl n) (λ y. refl)) (λ e. rw e (λ y. y)),
    )

-- At the first boot of an AVD the state file is written or the marker is removed.
abbrev pub IsRecorded : Happening → Type 0
IsRecorded (boots is_written removed) = (is_written || removed) ≡ true
IsRecorded _ = Unit

prepares-Becomes :
    (token : Text) (is_written : Bool) (s : StateDir)
    → IsSound s
    → Becomes s (happen (prepares token is_written) s)
unfolding happen
prepares-Becomes token w s h =
    let d = s.dirs s.name in
    let p = prepare s.name token d s.memory in
    let f = prepare-is_fine s.name token w d s.memory s.disk (sound_fine s h) in
    change-Becomes s p.0 p.1 (write_state w p.1 s.disk) f.0 f.1 (λ k e.
      other-is_safe k (s.dirs k) w s.memory s.disk p.1
        (prepare_other s.name token k d (s.dirs k) s.memory e) (h.0 k))

boots-Becomes :
    (is_written removed : Bool) (s : StateDir)
    → (is_written || removed) ≡ true
    → IsSound s
    → Becomes s (happen (boots is_written removed) s)
unfolding happen
boots-Becomes w removed s r h =
    let d = s.dirs s.name in
    let b = booted_record w removed d s.memory s.disk in
    change-Becomes s (record b.0 { other = true; keeps = true }) b.1 b.2
      (boot-is_fine s.name w removed d s.memory s.disk r h.1) (λ y. refl)
      (λ k e. boot_other k w removed d (s.dirs k) s.memory s.disk (h.0 k))

writes-Becomes : (s : StateDir) → IsSound s → Becomes s (happen writes s)
unfolding happen
writes-Becomes s h =
    change-Becomes s (record (s.dirs s.name) { other = true }) s.memory s.disk
      (write-is_fine s.name (s.dirs s.name) s.memory s.disk (sound_fine s h)) (λ y. y)
      (λ k e. h.0 k)

-- One of the two records in both places.
both-IsSound :
    (n : Text) (s : StateDir) (r : Option AvdRecord)
    → ((k : Text) → is_safe k (s.dirs k) r ≡ true)
    → Becomes s (record { dirs = s.dirs; disk = r; memory = r; name = n })
both-IsSound n s r h = ((λ k. ground (arith, h k), same-is_linked n (s.dirs n) r), λ k y. y)

happen-Becomes : (c : Happening) (s : StateDir) → IsRecorded c → IsSound s → Becomes s (happen c s)
unfolding happen
happen-Becomes (restarts n) s r h = both-IsSound n s s.disk (λ k. ground (arith, h.0 k))
happen-Becomes (prepares token w) s r h = prepares-Becomes token w s h
happen-Becomes writes s r h = writes-Becomes s h
happen-Becomes (boots w removed) s r h = boots-Becomes w removed s r h
happen-Becomes saves s r h = both-IsSound s.name s s.memory (λ k. ground (arith, h.0 k))
happen-Becomes (brings n has_config) s r h = bring-Becomes n has_config s h

happen_all-Becomes :
    (cs : List Happening) (s : StateDir)
    → All IsRecorded cs
    → IsSound s
    → Becomes s (happen_all s cs)
unfolding happen_all
happen_all-Becomes [] s r h = (h, λ k y. y)
happen_all-Becomes (c ∷ cs) s r h =
    let a = happen-Becomes c s r.0 h in
    let b = happen_all-Becomes cs (happen c s) r.1 a.0 in (b.0, λ k y. b.1 k (a.1 k y))

-- Data that a completed boot wrote or that a user brought is never deleted: after any history of
-- starts of the daemon, with any names of AVDs, of preparations, boots and writes of qemu, and of
-- directories that users put in place, a directory that keeps data keeps it through any further
-- history. The state file may stay unwritten at any preparation; at a completed boot the state file is
-- written or the marker is removed, at least one of the two.
pub data_kept :
    (cs ds : List Happening) (n : Text)
    → All IsRecorded cs
    → All IsRecorded ds
    → let s = happen_all no_avds cs in
      (s.dirs n).keeps ≡ true → ((happen_all s ds).dirs n).keeps ≡ true
data_kept cs ds n r q =
    let first = happen_all-Becomes cs no_avds r (λ k. refl, refl) in
    (happen_all-Becomes ds (happen_all no_avds cs) q first.0).1 n

-- The second preparation of an AVD whose first boot was killed starts over: from an empty
-- directory, with a token that is not empty, once the record was saved and qemu wrote userdata, a
-- daemon that starts again leaves no file of the killed boot and has the new marker in the directory
-- and the record.
killed_boot_restarts :
    (token next : Text) (s : StateDir)
    → s.dirs s.name ≡ no_dir
    → is_blank token ≡ false
    → let killed = happen writes (happen (prepares token true) s) in
      let t = happen (prepares next true) (happen (restarts s.name) killed) in
      (t.dirs s.name ≡ record { config = true; marker = some next; other = false; keeps = false })
      × (t.disk ≡ some (new_record s.name (some next)))
unfolding happen prepare create_avd delete
killed_boot_restarts token next s e b =
    rw (e, text_eq_refl s.name, text_eq_refl token, b) (refl, refl)
