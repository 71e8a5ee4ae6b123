-- ===== src/Examples/Turn.antt =====
-- The TURN relay at concrete inputs.
use android_appliance.Base.{◌≡◌, refl, List, [], ◌∷◌}
use android_appliance.Base.Text.{Text, codes}
use android_appliance.Turn.Relay.{TurnLog, delays}
use android_appliance.Turn.Config.{config_text, config_lines, relay_address}
use android_appliance.Turn.Peers.{lines_of, values, allow_key, deny_key, all_ranges, relay_peers}

abbrev addresses : List Text
addresses = codes "::1" ∷ codes "10.0.0.2" ∷ []

relay_peers_example :
    let ls = lines_of [] (config_text (codes "k") addresses (codes "/u") (codes "/p")) in
    (values allow_key ls ≡ addresses) × (values deny_key ls ≡ all_ranges)
relay_peers_example =
    relay_peers (codes "k") (codes "/u") (codes "/p") addresses refl refl refl (refl, (refl, tt))

-- A key with a line break would add a peer.
broken_key :
    values allow_key (lines_of [] (config_text (codes "k\nallowed-peer-ip=::") [] [] []))
    ≡ codes "::" ∷ []
unfolding config_text config_lines relay_address
broken_key = refl

abbrev quiet_log : TurnLog
quiet_log = record { lines = 3 ∷ []; suppressed = 2 }

-- The delays of a turnserver that never runs for long.
growing_delays :
    delays 500000 (0 ∷ 0 ∷ 0 ∷ 0 ∷ 0 ∷ 0 ∷ 40000000 ∷ [])
    ≡ 1000000 ∷ 2000000 ∷ 4000000 ∷ 8000000 ∷ 16000000 ∷ 30000000 ∷ 1000000 ∷ []
unfolding delays
growing_delays = refl
