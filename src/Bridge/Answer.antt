-- ===== src/Bridge/Answer.antt =====
-- The answer of a stream that nobody watches (webrtc.py: throwaway_answer, dead_candidate). A session
-- description is the list of its lines; the made-up values and the digits of a number are parameters.
use android_appliance.Base.{
  ℕ, suc, Option, none, some, Bool, ◌||◌, List, [], ◌∷◌, ◌++◌, ◌==◌, if◌then◌else◌, keep_if, drop,
}
use android_appliance.Base.Text.{Text, codes, text_eq, starts_with, onto_first}

abbrev pub is_media : Text → Bool
is_media l = starts_with (codes "m=") l

-- The lines before the first media section, and the sections.
abbrev pub add_line : Text → List Text × List (List Text) → List Text × List (List Text)
add_line l (before, ss) = if is_media l then ([], (l ∷ before) ∷ ss) else (l ∷ before, ss)

unfoldable pub split_sections : List Text → List Text × List (List Text)
split_sections [] = ([], [])
split_sections (l ∷ ls) = add_line l (split_sections ls)

abbrev pub sections : List Text → List (List Text)
sections ls = (split_sections ls).1

-- The first line with a prefix.
abbrev pub first_with : Text → List Text → Option Text
first_with p [] = none
first_with p (l ∷ ls) = let rest = first_with p ls in if starts_with p l then some l else rest

abbrev pub mid_prefix : Text
mid_prefix = codes "a=mid:"

-- s.partition(" ")
abbrev pub before_space : Text → Text
before_space [] = []
before_space (c ∷ s) = let rest = before_space s in if c == b' ' then [] else c ∷ rest

abbrev pub after_space : Text → Text
after_space [] = []
after_space (c ∷ s) = let rest = after_space s in if c == b' ' then s else rest

-- s.split(" ")
abbrev pub split_spaces : Text → List Text
split_spaces [] = [] ∷ []
split_spaces (c ∷ s) =
    let rest = split_spaces s in if c == b' ' then [] ∷ rest else onto_first c rest

-- " ".join(ts)
abbrev pub join_spaces : List Text → Text
join_spaces [] = []
join_spaces (t ∷ []) = t
join_spaces (t ∷ u ∷ ts) = t ++ (b' ' ∷ join_spaces (u ∷ ts))

abbrev pub application : Text
application = codes "application"

-- The values that the source makes up.
pub record Secrets : Type 0 where
  pub ufrag : Text
  pub pwd : Text
  pub fingerprint : Text
  pub session : Text

pub record Candidate : Type 0 where
  pub candidate : Text
  pub mid : Text

pub record Throwaway : Type 0 where
  pub lines : List Text
  pub dead : Candidate

abbrev pub mid_or : Text → Option Text → Text
mid_or t none = t
mid_or t (some l) = drop 6 l

abbrev pub media_line : Text → Text → List Text → Text
media_line media protocol formats =
    codes "m=" ++ (media ++ (codes " 9 " ++ (protocol ++ (b' ' ∷ join_spaces formats))))

abbrev pub transport_lines : Secrets → Text → List Text
transport_lines v mid =
    codes "c=IN IP4 0.0.0.0"
    ∷ (codes "a=ice-ufrag:" ++ v.ufrag)
    ∷ (codes "a=ice-pwd:" ++ v.pwd)
    ∷ (codes "a=fingerprint:sha-256 " ++ v.fingerprint)
    ∷ codes "a=setup:active"
    ∷ (mid_prefix ++ mid)
    ∷ []

abbrev pub is_channel_line : Text → Bool
is_channel_line l =
    starts_with (codes "a=sctp-port:") l || starts_with (codes "a=max-message-size:") l

abbrev pub codec_prefix : Text → Text
codec_prefix f = codes "a=rtpmap:" ++ (f ++ codes " ")

abbrev pub option_list : Option Text → List Text
option_list none = []
option_list (some t) = t ∷ []

abbrev pub codec_lines : Text → List Text → List Text
codec_lines f section =
    codes "a=recvonly" ∷ codes "a=rtcp-mux" ∷ option_list (first_with (codec_prefix f) section)

-- The section of the answer, from the media, the protocol and the formats of the offer's; a section
-- of media without a format is an IndexError.
abbrev pub media_section : Secrets → Text → Text → Text → List Text → List Text → Option (List Text)
media_section v mid media protocol [] section = none
media_section v mid media protocol (f ∷ fs) section =
    some (media_line media protocol (f ∷ []) ∷ (transport_lines v mid ++ codec_lines f section))

abbrev pub section_for : Secrets → Text → Text → Text → List Text → List Text → Option (List Text)
section_for v mid media protocol formats section =
    if text_eq media application
    then some (
        media_line media protocol formats
        ∷ (transport_lines v mid ++ keep_if is_channel_line section))
    else media_section v mid media protocol formats section

-- rest.split(" "): the port, the protocol and the formats.
abbrev pub with_words : Secrets → Text → Text → List Text → List Text → Option (List Text)
with_words v mid media (port ∷ protocol ∷ formats) section =
    section_for v mid media protocol formats section
with_words v mid media _ section = none

-- section[0][2:]
abbrev pub first_line : List Text → Text
first_line [] = []
first_line (l ∷ ls) = drop 2 l

unfoldable pub answer_section : Secrets → Text → List Text → Option (List Text)
answer_section v mid section =
    with_words v mid (before_space (first_line section))
      (split_spaces (after_space (first_line section))) section

abbrev pub join_sections : Option (List Text) → Option (List Text) → Option (List Text)
join_sections (some a) (some b) = some (a ++ b)
join_sections _ _ = none

module _ (str : ℕ → Text) where
  abbrev pub mid_of : ℕ → List Text → Text
  mid_of i section = mid_or (str i) (first_with mid_prefix section)

  abbrev pub mids : ℕ → List (List Text) → List Text
  mids i [] = []
  mids i (s ∷ ss) = mid_of i s ∷ mids (suc i) ss

  unfoldable pub answer_sections : Secrets → ℕ → List (List Text) → Option (List Text)
  unfolding answer_section
  answer_sections v i [] = some []
  answer_sections v i (s ∷ ss) =
      join_sections (answer_section v (mid_of i s) s) (answer_sections v (suc i) ss)

  abbrev pub heading : Secrets → List Text → List Text
  heading v ms =
      codes "v=0"
      ∷ (codes "o=- " ++ (v.session ++ codes " 2 IN IP4 127.0.0.1"))
      ∷ codes "s=-"
      ∷ codes "t=0 0"
      ∷ (codes "a=group:BUNDLE " ++ join_spaces ms)
      ∷ codes "a=msid-semantic: WMS"
      ∷ []

  -- The line of the JSON object that is no text, sdpMLineIndex, is 0.
  abbrev pub dead_candidate : Text → Text → Candidate
  dead_candidate address m = record {
    candidate =
        codes "candidate:1 1 udp 2113937151 " ++ (address ++ codes " 40000 typ host generation 0");
    mid = m;
  }

  abbrev pub with_sections : Secrets → Text → List Text → Option (List Text) → Option Throwaway
  with_sections v address (m ∷ ms) (some ls) =
      some (record { lines = heading v (m ∷ ms) ++ ls; dead = dead_candidate address m })
  with_sections v address _ _ = none

  -- throwaway_answer, on the lines of the offer: none is an IndexError, also for an offer without
  -- media.
  unfoldable pub throwaway_answer : Secrets → List Text → Text → Option Throwaway
  unfolding answer_sections
  throwaway_answer v offer address =
      with_sections v address (mids 0 (sections offer)) (answer_sections v 0 (sections offer))
