-- ===== src/Bridge/Relay.antt =====
-- What a stream does with the messages of the emulator (webrtc.py: Stream._handle, _note_address,
-- _forward, _fail_ice, _answer_nobody and the loop of _receive). json.loads and str on a value are
-- parameters.
use android_appliance.Base.{
  ℕ, Option, none, some, Bool, true, false, not, ◌&&◌, List, [], ◌∷◌, ◌++◌, or_else, if◌then◌else◌,
}
use android_appliance.Base.Text.{
  Text, codes, text_eq, lower, is_space, is_empty_text, onto_first, split_lines,
}
use android_appliance.Session.Messages.{
  Json, null, object, Fields, Loaded, unreadable, too_deep, loaded, get, text_value,
}
use android_appliance.Bridge.Answer.{
  Secrets, Candidate, Throwaway, first_with, mid_prefix, mid_or, dead_candidate, throwaway_answer,
}

abbrev pub or_default : Text → Option Text → Text
or_default t none = t
or_default t (some u) = u

abbrev pub continues : Text → Bool
continues [] = false
continues (d ∷ s) = not (is_space d)

-- s.split()
abbrev pub split_fields : Text → List Text
split_fields [] = []
split_fields (c ∷ s) =
    let rest = split_fields s in
    if is_space c then rest else if continues s then onto_first c rest else (c ∷ []) ∷ rest

-- The address of a UDP host candidate, from its fields.
abbrev pub host_of : List Text → Option Text
host_of (f ∷ n ∷ protocol ∷ priority ∷ address ∷ port ∷ typ ∷ host ∷ more) =
    if text_eq (lower protocol) (codes "udp")
      && text_eq typ (codes "typ")
      && text_eq host (codes "host")
    then some address
    else none
host_of _ = none

-- A message of the emulator by what is done with it.
pub data Told (F : Type 0) : Type 0 where
  nothing : Told F
  bye : Json F → Told F
  offer : Text → Told F
  -- The candidate, sdpMid and sdpMLineIndex.
  candidate : Text → Json F → Json F → Told F

-- What a viewer gets.
pub data Forwarded (F : Type 0) : Type 0 where
  offers : Text → Forwarded F
  candidates : Text → Json F → Json F → Forwarded F

abbrev pub fallback_address : Text
fallback_address = codes "192.0.2.1"

abbrev pub is_offer : Option Text → Bool
is_offer none = false
is_offer (some t) = text_eq t (codes "offer")

-- What happens to a stream: a message of the emulator, or its viewer leaves (close).
pub data Happening (F : Type 0) : Type 0 where
  says : Loaded F → Happening F
  leaves : Happening F

pub record Relay (F : Type 0) : Type 0 where
  pub offer : Option Text
  -- The address of the emulator, when it is known.
  pub address : Option Text
  pub live : Bool
  -- What the viewer got, oldest first.
  pub forwarded : List (Forwarded F)

-- How the loop over the messages stops: the emulator ended the stream, with or without a bye, or the
-- stream failed with an internal error.
pub data End (F : Type 0) : Type 0 where
  over internal_error : End F
  over_with : Json F → End F

module _ {F : Type 0} where
  abbrev pub or_null : Option (Json F) → Json F
  or_null none = null
  or_null (some j) = j

  abbrev pub told_candidate : Fields F → Option Text → Told F
  told_candidate entries none = nothing
  told_candidate entries (some c) =
      if is_empty_text c
      then nothing
      else candidate c (or_null (get (codes "sdpMid") entries))
          (or_null (get (codes "sdpMLineIndex") entries))

  abbrev pub told_offer : Fields F → Bool → Option Text → Told F
  told_offer entries true (some sdp) = offer sdp
  told_offer entries _ _ = told_candidate entries (text_value (get (codes "candidate") entries))

  abbrev pub told_unless_bye : Fields F → Option (Json F) → Told F
  told_unless_bye entries (some j) = bye j
  told_unless_bye entries none =
      told_offer entries (is_offer (text_value (get (codes "type") entries)))
        (text_value (get (codes "sdp") entries))

  -- The branches of _handle.
  unfoldable pub told : Json F → Told F
  told (object entries) = told_unless_bye entries (get (codes "bye") entries)
  told j = nothing

  -- _forward
  abbrev pub forward : Forwarded F → Relay F → Relay F
  forward m r = if r.live then record r { forwarded = r.forwarded ++ m ∷ [] } else r

  -- _note_address
  abbrev pub note_address : Text → Relay F → Relay F
  note_address c r = record r { address = or_else r.address (host_of (split_fields c)) }

  abbrev pub note_offer : Text → Relay F → Relay F
  note_offer sdp r = record r { offer = or_else r.offer (some sdp) }

  -- _handle, with the bye that ends the loop.
  unfoldable pub handle_told : Told F → Relay F → Relay F × Option (Json F)
  handle_told nothing r = (r, none)
  handle_told (bye j) r = (r, some j)
  handle_told (offer sdp) r = (forward (offers sdp) (note_offer sdp r), none)
  handle_told (candidate c mid index) r =
      (forward (candidates c mid index) (note_address c r), none)

  abbrev pub unless_bye : Relay F → Option (Json F) → Relay F × End F → Relay F × End F
  unless_bye r (some j) rest = (r, over_with j)
  unless_bye r none rest = rest

  -- The loop of _receive, with what happens until the emulator ends the stream.
  unfoldable pub receive : Relay F → List (Happening F) → Relay F × End F
  unfolding handle_told told
  receive r [] = (r, over)
  receive r (leaves ∷ hs) = receive (record r { live = false }) hs
  receive r (says unreadable ∷ hs) = receive r hs
  receive r (says too_deep ∷ hs) = (r, internal_error)
  receive r (says (loaded j) ∷ hs) =
      let h = handle_told (told j) r in unless_bye h.0 h.1 (receive h.0 hs)

  abbrev pub new_relay : Relay F
  new_relay = record { offer = none; address = none; live = true; forwarded = [] }

-- _fail_ice: what the emulator gets.
unfoldable pub fail_ice : {F : Type 0} → (ℕ → Text) → Relay F → Candidate
fail_ice str r =
    dead_candidate str (or_default fallback_address r.address)
      (mid_or (codes "0") (first_with mid_prefix (split_lines (or_default [] r.offer))))

abbrev pub answer_for :
    {F : Type 0} → (ℕ → Text) → Secrets → Relay F → Option Text → Option Throwaway
answer_for str v r none = none
answer_for str v r (some sdp) =
    throwaway_answer str v (split_lines sdp) (or_default fallback_address r.address)

-- _answer_nobody, after its waits: nothing without an offer.
unfoldable pub answer_nobody : {F : Type 0} → (ℕ → Text) → Secrets → Relay F → Option Throwaway
answer_nobody str v r = answer_for str v r r.offer
