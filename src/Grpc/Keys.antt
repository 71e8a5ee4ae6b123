-- ===== src/Grpc/Keys.antt =====
-- The pacing of key events (grpc_client.py: EmulatorGrpc.send_key, KEY_GAP) and the identifiers of touches
-- (InputStream.new_identifier). Times are in ticks of a microsecond; the lock lets one sender in at a
-- time.
use android_appliance.Base.{ℕ, suc, ◌+◌, ◌≤◌, List, [], ◌∷◌, leb, if◌then◌else◌, arith}

abbrev pub key_gap : ℕ
key_gap = 5000

-- A sender: when it has the lock, how much longer than asked its sleep takes, and how long its call.
pub record Sender : Type 0 where
  pub enters : ℕ
  pub oversleeps : ℕ
  pub takes : ℕ

-- send_key up to the call: the time at which it is made, for the time `last` of the key before.
unfoldable pub key_time : ℕ → Sender → ℕ
key_time last s = if leb (last + key_gap) s.enters then s.enters else last + key_gap + s.oversleeps

-- The begin and the end of each call, whether it fails or not.
unfoldable pub send_keys : ℕ → List Sender → List (ℕ × ℕ)
unfolding key_time
send_keys last [] = []
send_keys last (s ∷ ss) =
    let begins = key_time last s in (begins, begins + s.takes) ∷ send_keys (begins + s.takes) ss

-- new_identifier: the identifier, and the next one.
unfoldable pub new_identifier : ℕ → ℕ × ℕ
new_identifier next = (next, suc next)

abbrev ArePaced : ℕ → List (ℕ × ℕ) → Type 0
ArePaced last [] = Unit
ArePaced last ((begins, ends) ∷ rest) =
    (last + key_gap ≤ begins) × (begins ≤ ends) × ArePaced ends rest

key_time_le : (last : ℕ) (s : Sender) → last + key_gap ≤ key_time last s
unfolding key_time
key_time_le last s = ground arith

-- No key event begins within 5 ms of the end of the one before, whoever sends them.
send_keys-ArePaced : (last : ℕ) (ss : List Sender) → ArePaced last (send_keys last ss)
unfolding send_keys
send_keys-ArePaced last [] = tt
send_keys-ArePaced last (s ∷ ss) =
    (key_time_le last s, omega arith, send_keys-ArePaced (key_time last s + s.takes) ss)
