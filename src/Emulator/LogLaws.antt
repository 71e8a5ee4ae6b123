-- ===== src/Emulator/LogLaws.antt =====
-- The watcher finds what the whole log has, and the logs are numbered upwards.
use android_appliance.Base.{
  ℕ, ◌+◌, ◌-◌, ◌≤◌, ◌<◌, ◌≡◌, refl, sym, ap, ◌∙◌, inl, inr, none, some, Bool, false, List, [], ◌∷◌,
  ◌++◌, ◌==◌, ltb, arith, length, drop, ◌⊎◌, ◌||◌, true, if◌then◌else◌, get_last?, get_last?-append,
  length-append, length-drop, append_assoc, All, Bool-cases, Option-cases,
}
use android_appliance.Base.Text.{Text, contains}
use android_appliance.Emulator.Log.{
  newline, cut_lines, first_hang, no_watch, watch_found, watch_round, watch_log, insert_number,
  sort_numbers, next_number, new_log, Look,
}

-- What is read of the log before qemu exits and before its stop begins.
abbrev pub heard : List Look → Text
heard [] = []
heard (l ∷ ls) = let rest = heard ls in if l.exited || l.stopping then [] else l.chunk ++ rest

-- A stop that has begun goes on.
abbrev pub IsLasting : List Look → Type 0
IsLasting [] = Unit
IsLasting (l ∷ ls) = ((l.stopping ≡ false) ⊎ All (λ m. m.stopping ≡ true) ls) × IsLasting ls

append_nil : (w : Text) → w ++ [] ≡ w
append_nil [] = refl
append_nil (c ∷ w) = ap (λ l. c ∷ l) (append_nil w)

cut_lines-append :
    (b s t : Text)
    → cut_lines b (s ++ t)
      ≡ ((cut_lines b s).0 ++ (cut_lines (cut_lines b s).1 t).0, (cut_lines (cut_lines b s).1 t).1)
cut_lines-append b [] t = refl
cut_lines-append b (c ∷ s) t = elim (Bool-cases (c == newline)) [
  | inl e ↦ rw (e, cut_lines-append [] s t) refl
  | inr e ↦ rw (e, cut_lines-append (b ++ c ∷ []) s t) refl
]

cut_lines-begun :
    (b r t : Text) → contains newline r ≡ false → cut_lines b (r ++ t) ≡ cut_lines (b ++ r) t
cut_lines-begun b [] t h = rw (append_nil b) refl
cut_lines-begun b (c ∷ r) t h =
    ground (arith, cut_lines-begun (b ++ c ∷ []) r t, append_assoc b (c ∷ []) r)

contains-append :
    (s : Text) (c : ℕ)
    → contains newline s ≡ false
    → (c == newline) ≡ false
    → contains newline (s ++ c ∷ []) ≡ false
contains-append [] c h e = ground arith
contains-append (d ∷ s) c h e = ground (arith, contains-append s c)

-- What is pending has no line feed.
cut_lines-pending :
    (b s : Text) → contains newline b ≡ false → contains newline (cut_lines b s).1 ≡ false
cut_lines-pending b [] h = h
cut_lines-pending b (c ∷ s) h = elim (Bool-cases (c == newline)) [
  | inl e ↦ rw e (cut_lines-pending [] s refl)
  | inr e ↦ rw e (cut_lines-pending (b ++ c ∷ []) s (contains-append b c h e))
]

module _ (is_hang : Text → Bool) where
  first_hang-append_some :
      (xs ys : List Text) (l : Text)
      → first_hang is_hang xs ≡ some l
      → first_hang is_hang (xs ++ ys) ≡ some l
  first_hang-append_some [] ys l h = cc
  first_hang-append_some (x ∷ xs) ys l h = ground (arith, first_hang-append_some xs ys l)

  first_hang-append_none :
      (xs ys : List Text)
      → first_hang is_hang xs ≡ none
      → first_hang is_hang (xs ++ ys) ≡ first_hang is_hang ys
  first_hang-append_none [] ys h = refl
  first_hang-append_none (x ∷ xs) ys h = ground (arith, first_hang-append_none xs ys)

  watch_log_found :
      (ls : List Look) (p t : Text)
      → (watch_log is_hang ls (record { pending = p; hang_line = some t })).hang_line ≡ some t
  unfolding watch_log
  watch_log_found [] p t = refl
  watch_log_found (l ∷ ls) p t = ground arith

  -- While the emulator is being stopped no line counts.
  watch_log_stopping :
      (ls : List Look) (p : Text)
      → All (λ m. m.stopping ≡ true) ls
      → (watch_log is_hang ls (record { pending = p; hang_line = none })).hang_line ≡ none
  unfolding watch_log watch_round
  watch_log_stopping [] p h = refl
  watch_log_stopping (l ∷ ls) p h = elim (Bool-cases l.exited) [
    | inl e ↦ rw e refl
    | inr e ↦ rw (e, h.0) (watch_log_stopping ls (cut_lines [] (p ++ l.chunk)).1 h.1)
  ]

  watch_round_lem :
      (c p : Text)
      → contains newline p ≡ false
      → watch_round is_hang false c (record { pending = p; hang_line = none })
        ≡ watch_found (first_hang is_hang (cut_lines p c).0) (cut_lines p c).1
  unfolding watch_round
  watch_round_lem c p h = rw (cut_lines-begun [] p c h) refl

  watch_round_stopping :
      (c p : Text)
      → watch_round is_hang true c (record { pending = p; hang_line = none })
        ≡ watch_found none (cut_lines [] (p ++ c)).1
  unfolding watch_round
  watch_round_stopping c p = refl

  -- A round that reads: what it finds, or what the rest finds.
  watch_from_read :
      (p c t : Text) (ls : List Look)
      → ((q : Text)
          → contains newline q ≡ false
          → (watch_log is_hang ls (record { pending = q; hang_line = none })).hang_line
            ≡ first_hang is_hang (cut_lines q t).0)
      → contains newline p ≡ false
      → (watch_log is_hang ls
          (watch_round is_hang false c (record { pending = p; hang_line = none }))).hang_line
        ≡ first_hang is_hang (cut_lines p (c ++ t)).0
  watch_from_read p c t ls rest h =
      let cut = cut_lines p c in
      elim (Option-cases (first_hang is_hang cut.0)) [
        | inl e ↦
            rw (watch_round_lem c p h, e, cut_lines-append p c t)
              (rest cut.1 (cut_lines-pending p c h)
                ∙ sym (first_hang-append_none cut.0 (cut_lines cut.1 t).0 e))
        | inr (l, e) ↦
            rw (watch_round_lem c p h, e, cut_lines-append p c t)
              (watch_log_found ls cut.1 l
                ∙ sym (first_hang-append_some cut.0 (cut_lines cut.1 t).0 l e))
      ]

  watch_from :
      (ls : List Look) (p : Text)
      → IsLasting ls
      → contains newline p ≡ false
      → (watch_log is_hang ls (record { pending = p; hang_line = none })).hang_line
        ≡ first_hang is_hang (cut_lines p (heard ls)).0
  unfolding watch_log
  watch_from [] p k h = refl
  watch_from (l ∷ ls) p k h = elim (Bool-cases l.exited) [
    | inl e ↦ rw e refl
    | inr e ↦ elim (Bool-cases l.stopping) [
      | inl s ↦
          rw (e, s)
            (elim k.0 [
              | inl n ↦ absurd (cc)
              | inr all_stop ↦
                  rw (watch_round_stopping l.chunk p)
                    (watch_log_stopping ls (cut_lines [] (p ++ l.chunk)).1 all_stop)
            ])
      | inr s ↦ rw (e, s) (watch_from_read p l.chunk (heard ls) ls (λ q. watch_from ls q k.1) h)
    ]
  ]

  -- However the log grows, the watcher finds the first line that hangs qemu of what it reads before
  -- qemu exits and before the stop of the emulator begins, and none if there is none there: it sees
  -- the same lines as in that whole text. A stop that has begun goes on.
  pub watch_log_lem :
      (ls : List Look)
      → IsLasting ls
      → (watch_log is_hang ls no_watch).hang_line ≡ first_hang is_hang (cut_lines [] (heard ls)).0
  watch_log_lem ls k = watch_from ls [] k refl

-- Sorted upwards.
abbrev IsSorted : List ℕ → Type 0
IsSorted [] = Unit {0}
IsSorted (n ∷ ns) = All (λ m. n ≤ m) ns × IsSorted ns

All-insert : (P : ℕ → Type 0) (n : ℕ) (ns : List ℕ) → P n → All P ns → All P (insert_number n ns)
All-insert P n [] p h = (p, tt)
All-insert P n (m ∷ ns) p h = elim (Bool-cases (ltb m n)) [
  | inl e ↦ rw e (h.0, All-insert P n ns p h.1)
  | inr e ↦ rw e (p, h)
]

insert-All : (P : ℕ → Type 0) (n : ℕ) (ns : List ℕ) → All P (insert_number n ns) → P n × All P ns
insert-All P n [] h = h
insert-All P n (m ∷ ns) h = elim (Bool-cases (ltb m n)) [
  | inl e ↦
      let g : All P (m ∷ insert_number n ns) = rw e at h in
      let r = insert-All P n ns g.1 in (r.0, (g.0, r.1))
  | inr e ↦ let g : All P (n ∷ m ∷ ns) = rw e at h in (g.0, g.1)
]

All-le : (a b : ℕ) (ns : List ℕ) → a ≤ b → All (λ m. b ≤ m) ns → All (λ m. a ≤ m) ns
All-le a b [] h k = tt
All-le a b (n ∷ ns) h k = (omega (arith, k.0), All-le a b ns h k.1)

insert-IsSorted : (n : ℕ) (ns : List ℕ) → IsSorted ns → IsSorted (insert_number n ns)
insert-IsSorted n [] h = (tt, tt)
insert-IsSorted n (m ∷ ns) h = elim (Bool-cases (ltb m n)) [
  | inl e ↦ rw e (All-insert (λ k. m ≤ k) n ns (ground arith) h.0, insert-IsSorted n ns h.1)
  | inr e ↦ let le : n ≤ m = ground arith in rw e ((le, All-le n m ns le h.0), h)
]

sort-IsSorted : (ns : List ℕ) → IsSorted (sort_numbers ns)
sort-IsSorted [] = tt
sort-IsSorted (n ∷ ns) = insert-IsSorted n (sort_numbers ns) (sort-IsSorted ns)

sort-All : (P : ℕ → Type 0) (ns : List ℕ) → All P (sort_numbers ns) → All P ns
sort-All P [] h = tt
sort-All P (n ∷ ns) h = let r = insert-All P n (sort_numbers ns) h in (r.0, sort-All P ns r.1)

-- All are below the number after the last.
below_next : (ns : List ℕ) → IsSorted ns → All (λ m. m < next_number (get_last? ns)) ns
below_next [] h = tt
below_next (n ∷ []) h = (omega arith, tt)
below_next (n ∷ m ∷ ns) h =
    let rest = below_next (m ∷ ns) h.1 in (omega (arith, h.0.0, rest.0), rest)

-- The log of the next boot has a number above that of every log there is, so it overwrites none, at
-- most five logs stay, and the new one is the latest.
new_log-fresh :
    (found : List ℕ)
    → let (kept, fresh) = new_log found in
      All (λ m. m < fresh) found × (length kept ≤ 5) × (get_last? kept ≡ some fresh)
unfolding new_log
new_log-fresh found =
    let ns = sort_numbers found in
    let fresh = next_number (get_last? ns) in
    let cut = length ns + 1 - 5 in
    (
      sort-All (λ m. m < fresh) found (below_next ns (sort-IsSorted found)),
      omega (arith, length-append (drop cut ns) (fresh ∷ []), length-drop cut ns),
      get_last?-append (drop cut ns) fresh,
    )
