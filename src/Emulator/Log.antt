-- ===== src/Emulator/Log.antt =====
-- The logs of the emulator (emulator.py: _watch_log, fatal_line, tail, new_log, latest_log). A file is
-- its bytes; `is_hang` is the search of HANG_LINE in a line, decoded from its bytes.
use android_appliance.Base.{
  ℕ, suc, ◌+◌, ◌-◌, ◌*◌, Option, none, some, Bool, List, [], ◌∷◌, ◌++◌, ◌==◌, ltb, if◌then◌else◌,
  length, drop, get_last?,
}
use android_appliance.Base.Text.{Text, strip, split_lines}

abbrev pub newline : ℕ
newline = 10

-- data.split(b"\n"): the full lines, and what follows the last line feed. The first argument is the
-- line that has begun.
abbrev pub cut_lines : Text → Text → List Text × Text
cut_lines begun [] = ([], begun)
cut_lines begun (c ∷ s) =
    let fresh = cut_lines [] s in
    let same = cut_lines (begun ++ c ∷ []) s in
    if c == newline then (begun ∷ fresh.0, fresh.1) else same

abbrev pub first_hang : (Text → Bool) → List Text → Option Text
first_hang is_hang [] = none
first_hang is_hang (l ∷ ls) = let rest = first_hang is_hang ls in if is_hang l then some l else rest

-- What the watcher keeps between two looks at the file, and the line that it found.
pub record Watch : Type 0 where
  pub pending : Text
  pub hang_line : Option Text

abbrev pub no_watch : Watch
no_watch = record { pending = []; hang_line = none }

-- One round of the loop on the bytes that were added to the file. It stops at a line that hangs qemu;
-- while the emulator is being stopped such lines are passed over.
abbrev pub watch_found : Option Text → Text → Watch
watch_found none rest = record { pending = rest; hang_line = none }
watch_found (some l) rest = record { pending = rest; hang_line = some l }

unfoldable pub watch_round : (Text → Bool) → Bool → Text → Watch → Watch
watch_round is_hang stopping chunk w =
    let cut = cut_lines [] (w.pending ++ chunk) in
    watch_found (if stopping then none else first_hang is_hang cut.0) cut.1

abbrev pub unless_found : Watch → Option Text → Watch → Watch
unless_found w none next = next
unless_found w (some l) next = w

-- A round of the loop: what the file has grown by, whether Emulator.stop has begun, and whether qemu
-- has exited when the round would begin.
pub record Look : Type 0 where
  pub chunk : Text
  pub stopping : Bool
  pub exited : Bool

-- while self.proc.returncode is None: the rounds until qemu exits or a line is found.
unfoldable pub watch_log : (Text → Bool) → List Look → Watch → Watch
watch_log is_hang [] w = w
watch_log is_hang (l ∷ ls) w =
    let rest = watch_log is_hang ls (watch_round is_hang l.stopping l.chunk w) in
    if l.exited then w else unless_found w w.hang_line rest

abbrev pub keep_logs : ℕ
keep_logs = 5

-- The logs are known by their numbers. `sorted` on numbers.
abbrev pub insert_number : ℕ → List ℕ → List ℕ
insert_number n [] = n ∷ []
insert_number n (m ∷ ms) = let rest = insert_number n ms in if ltb m n then m ∷ rest else n ∷ m ∷ ms

abbrev pub sort_numbers : List ℕ → List ℕ
sort_numbers [] = []
sort_numbers (n ∷ ns) = insert_number n (sort_numbers ns)

abbrev pub next_number : Option ℕ → ℕ
next_number none = 1
next_number (some n) = suc n

-- The numbers of the logs after the call, in order, and that of the new log.
unfoldable pub new_log : List ℕ → List ℕ × ℕ
new_log found =
    let numbered = sort_numbers found in
    let fresh = next_number (get_last? numbered) in
    (drop (length numbered + 1 - keep_logs) numbered ++ fresh ∷ [], fresh)

unfoldable pub latest_log : List ℕ → Option ℕ
latest_log found = get_last? (sort_numbers found)

-- The last entries of a list, as ls[-n:] at n > 0.
abbrev pub last_entries : ℕ → List Text → List Text
last_entries n ls = drop (length ls - n) ls

-- The lines of `tail`: of the last 256 bytes for each line that is asked for. `decode` is bytes.decode.
unfoldable pub tail_lines : (Text → Text) → Text → ℕ → List Text
tail_lines decode file n =
    if n == 0 then [] else last_entries n (split_lines (decode (drop (length file - 256 * n) file)))

abbrev pub last_hang : (Text → Bool) → List Text → Option Text
last_hang is_hang [] = none
last_hang is_hang (l ∷ ls) =
    or_later (last_hang is_hang ls) (if is_hang l then some (strip l) else none)
  where
    or_later : Option Text → Option Text → Option Text
    or_later none here = here
    or_later (some later) here = some later

-- Emulator.fatal_line: the last line that hangs qemu, of the last 200.
unfoldable pub fatal_line : (Text → Text) → (Text → Bool) → Text → Option Text
unfolding tail_lines
fatal_line decode is_hang file = last_hang is_hang (tail_lines decode file 200)
