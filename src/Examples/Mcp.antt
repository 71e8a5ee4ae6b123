-- ===== src/Examples/Mcp.antt =====
-- The tools at concrete inputs.
use android_appliance.Base.{◌≡◌, refl, Option, none, some, false, List, [], ◌∷◌}
use android_appliance.Base.Text.{Text, codes}
use android_appliance.Mcp.Boot.{timed_out, up, Round, status, still, wait_boot, step_of}
use android_appliance.Mcp.Spool.{
  Bytes, answers, Download, streams, no_spool, spool, read_bytes, client_pull,
}
use android_appliance.Mcp.Tools.{pull, pull_as, read_copy, text_content}

-- The daemon is up in the second round, within its two seconds.
abbrev later : List Round
later = (up 500000, 3000) ∷ (timed_out, 0) ∷ []

boot_seen : wait_boot 3000000 0 ((timed_out, 2000) ∷ later) ≡ (status, 2505000)
unfolding wait_boot step_of
boot_seen = refl

-- The last question is for the second that is left.
boot_missed :
    wait_boot 3000000 0 ((timed_out, 2000) ∷ (timed_out, 3000) ∷ (timed_out, 0) ∷ [])
    ≡ (still, 3003000)
unfolding wait_boot step_of
boot_missed = refl

abbrev plain_text : Bytes → Option Text
plain_text bytes = some bytes

abbrev no_base64 : Text → Option Bytes
no_base64 t = none

abbrev body : Download
body = streams ((1 ∷ []) ∷ (2 ∷ []) ∷ []) false

pulled_whole :
    pull no_base64 plain_text (codes "text") body no_spool
    ≡ (answers (text_content (1 ∷ 2 ∷ [])), no_spool)
unfolding pull pull_as read_copy spool read_bytes client_pull
pulled_whole = refl
