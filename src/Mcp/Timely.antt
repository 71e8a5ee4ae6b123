-- ===== src/Mcp/Timely.antt =====
-- The wait for a boot keeps to its time (mcp_server.py: Tools._wait_boot).
use android_appliance.Base.{ℕ, ◌≤◌, List, [], ◌∷◌}
use android_appliance.Mcp.Boot.{Ending, still, unfinished, Round}

-- No round takes more than `slack` beyond its waiting.
abbrev pub IsQuick : ℕ → List Round → Type 0
IsQuick slack [] = Unit
IsQuick slack ((a, over) ∷ rounds) = (over ≤ slack) × IsQuick slack rounds

-- The loop has ended by the limit, and with the note that the boot takes longer only after the
-- timeout.
abbrev pub IsTimely : ℕ → ℕ → Ending × ℕ → Type 0
IsTimely timeout limit (unfinished, t) = ⊥
IsTimely timeout limit (still, t) = (timeout ≤ t) × (t ≤ limit)
IsTimely timeout limit (_, t) = t ≤ limit
