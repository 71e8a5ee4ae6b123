-- ===== src/Examples/Bridge.antt =====
-- The streams at concrete inputs.
use android_appliance.Base.{◌≤◌, ◌≡◌, refl, List, [], ◌∷◌, ◌++◌, true, length, All}
use android_appliance.Bridge.Streams.{
  Event, creates, moves, opens, answers, resumes, closes, lets_go, ends, count_live, run,
  no_streams, new_stream, turn, step, Stream,
}
use android_appliance.Base.{ℕ, ◌+◌, some}
use android_appliance.Base.Text.{Text, codes}
use android_appliance.Session.Messages.{Json, object, string_value, field, no_fields, loaded}
use android_appliance.Bridge.Answer.{Secrets, split_sections, throwaway_answer}
use android_appliance.Bridge.Accepts.{Given, LetsGo, throwaway_answer-LetsGo}
use android_appliance.Bridge.Relay.{Happening, says, leaves, receive, handle_told, told, new_relay}
use android_appliance.Bridge.Relayed.{
  heard, before_leaving, first_offer, first_host, shown, receive_lem,
}
use android_appliance.Bridge.Limits.{is_kept, streams_bounded}

-- Two viewers; the first one's stream is answered and it leaves.
abbrev two_viewers : List Event
two_viewers =
    creates ∷ creates ∷ moves opens 0 ∷ moves answers 0 ∷ moves resumes 0 ∷ moves closes 0 ∷ []

two_viewers_streams :
    (count_live (run no_streams two_viewers).streams ≡ 1)
    × (length (run no_streams two_viewers).streams ≡ 2)
    × (length (run no_streams (two_viewers ++ moves lets_go 0 ∷ [])).streams ≡ 1)
unfolding run step turn
two_viewers_streams = (refl, refl, refl)

streams_bounded_example :
    let b = run no_streams two_viewers in
    (count_live b.streams ≤ 4) × (length b.streams ≤ 11) × All (λ s. is_kept s ≡ true) b.streams
streams_bounded_example = streams_bounded two_viewers

-- A stream that the emulator answered.
abbrev answered_stream : Stream
answered_stream = (turn resumes (turn answers (turn opens (new_stream 3)).stream).stream).stream

answered_tells : (turn ends answered_stream).tells ≡ true
unfolding turn new_stream
answered_tells = refl

-- An offer of one video and one data section.
abbrev small_offer : List Text
small_offer =
    codes "v=0"
    ∷ codes "m=video 9 UDP/TLS/RTP/SAVPF 96 97"
    ∷ codes "a=mid:v"
    ∷ codes "a=rtpmap:96 VP8/90000"
    ∷ codes "m=application 9 UDP/DTLS/SCTP webrtc-datachannel"
    ∷ codes "a=sctp-port:5000"
    ∷ []

abbrev no_secrets : Secrets
no_secrets = record {
  ufrag = codes "u";
  pwd = codes "p";
  fingerprint = codes "AB";
  session = codes "1";
}

abbrev digit_of : ℕ → Text
digit_of n = (48 + n) ∷ []

throwaway_answer-LetsGo_example :
    Given
      (LetsGo digit_of small_offer)
      (throwaway_answer digit_of no_secrets small_offer (codes "172.17.0.2"))
throwaway_answer-LetsGo_example =
    throwaway_answer-LetsGo digit_of no_secrets small_offer (codes "172.17.0.2")
      (unfold split_sections in (tt, (tt, (tt, tt))))

-- An offer, a candidate of TCP and one of UDP, the viewer leaves, another candidate, and a bye.
abbrev told_offer_json : Json Unit
told_offer_json = object (
    field (codes "type") (string_value (codes "offer"))
      (field (codes "sdp") (string_value (codes "v=0")) no_fields))

abbrev candidate_json : Text → Json Unit
candidate_json t = object (field (codes "candidate") (string_value t) no_fields)

abbrev from_emulator : List (Happening Unit)
from_emulator =
    says (loaded told_offer_json)
    ∷ says (loaded (candidate_json (codes "candidate:1 1 tcp 5 10.0.0.1 9 typ host")))
    ∷ says (loaded (candidate_json (codes "candidate:1 1 udp 5 10.0.0.2 9 typ host")))
    ∷ leaves
    ∷ says (loaded (candidate_json (codes "candidate:1 1 udp 5 10.0.0.3 9 typ host")))
    ∷ says (loaded (object (field (codes "bye") (string_value (codes "x")) no_fields)))
    ∷ []

from_emulator_address : (receive new_relay from_emulator).0.address ≡ some (codes "10.0.0.2")
unfolding receive handle_told told
from_emulator_address = refl

receive_lem_example :
    let r = (receive new_relay from_emulator).0 in
    (r.offer ≡ first_offer (heard from_emulator))
    × (r.address ≡ first_host (heard from_emulator))
    × (r.forwarded ≡ shown (heard (before_leaving from_emulator)))
receive_lem_example = receive_lem from_emulator
