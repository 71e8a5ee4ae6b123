-- ===== src/Examples/Daemon.antt =====
-- The watchdog at concrete inputs.
use android_appliance.Base.{ℕ, ◌+◌, ◌≤◌, ◌≡◌, ◌↔◌, refl, true, false, [], ◌∷◌, arith}
use android_appliance.Daemon.Watchdog.{
  Connection, request_timeout, History, watch_round, watched, closed,
}
use android_appliance.Daemon.Silence.{member, WaitsSince, closed_iff}

abbrev silent : Connection
silent = record { number = 4; has_cycle = true; is_between = true; has_keep_alive = false }

-- Two rounds, 16 seconds apart.
abbrev earlier : History
earlier = (1000000, silent ∷ []) ∷ []

silent_closed : closed ((17000000, silent ∷ []) ∷ earlier) ≡ 4 ∷ []
unfolding closed watched watch_round
silent_closed = refl

closed_iff_example : (member 4 (closed ((17000000, silent ∷ []) ∷ earlier)) ≡ true) ↔ (
    (s : ℕ) × WaitsSince 4 s ((17000000, silent ∷ []) ∷ earlier) × (s + request_timeout ≤ 17000000))
closed_iff_example = closed_iff 4 17000000 (silent ∷ []) earlier (omega arith, tt)
