-- ===== src/Bridge/Relayed.antt =====
-- What a stream keeps and forwards of the messages of the emulator (webrtc.py: Stream._receive and
-- _handle).
use android_appliance.Base.{
  or_else-none, or_else_assoc, ◌≡◌, refl, sym, ◌∙◌, Option, none, some, Bool, true, false, List, [],
  ◌∷◌, ◌++◌, or_else, append_assoc, append_nil, if◌then◌else◌,
}
use android_appliance.Base.Text.{Text}
use android_appliance.Session.Messages.{unreadable, too_deep, loaded}
use android_appliance.Bridge.Relay.{
  split_fields, host_of, Told, nothing, bye, offer, candidate, Forwarded, offers, candidates, Relay,
  Happening, says, leaves, told, handle_told, unless_bye, receive, new_relay,
}

module _ {F : Type 0} where
  -- The messages up to the end, by what they say.
  abbrev until_bye : Told F → List (Told F) → List (Told F)
  until_bye (bye j) ts = []
  until_bye nothing ts = ts
  until_bye (offer sdp) ts = offer sdp ∷ ts
  until_bye (candidate c mid index) ts = candidate c mid index ∷ ts

  abbrev pub heard : List (Happening F) → List (Told F)
  heard [] = []
  heard (leaves ∷ hs) = heard hs
  heard (says unreadable ∷ hs) = heard hs
  heard (says too_deep ∷ hs) = []
  heard (says (loaded j) ∷ hs) = until_bye (told j) (heard hs)

  -- What happens before the viewer leaves.
  abbrev pub before_leaving : List (Happening F) → List (Happening F)
  before_leaving [] = []
  before_leaving (leaves ∷ hs) = []
  before_leaving (says m ∷ hs) = says m ∷ before_leaving hs

  abbrev pub first_offer : List (Told F) → Option Text
  first_offer [] = none
  first_offer (offer sdp ∷ ts) = some sdp
  first_offer (_ ∷ ts) = first_offer ts

  abbrev pub first_host : List (Told F) → Option Text
  first_host [] = none
  first_host (candidate c mid index ∷ ts) = or_else (host_of (split_fields c)) (first_host ts)
  first_host (_ ∷ ts) = first_host ts

  abbrev pub shown : List (Told F) → List (Forwarded F)
  shown [] = []
  shown (offer sdp ∷ ts) = offers sdp ∷ shown ts
  shown (candidate c mid index ∷ ts) = candidates c mid index ∷ shown ts
  shown (_ ∷ ts) = shown ts

  -- What a relay is after messages, in terms of what it was before.
  abbrev Becomes : Relay F → List (Told F) → List (Told F) → Relay F → Type 0
  Becomes r ts before s =
      (s.offer ≡ or_else r.offer (first_offer ts))
      × (s.address ≡ or_else r.address (first_host ts))
      × (s.forwarded ≡ (if r.live then r.forwarded ++ shown before else r.forwarded))

  abbrev relay : Option Text → Option Text → Bool → List (Forwarded F) → Relay F
  relay o a b fs = record { offer = o; address = a; live = b; forwarded = fs }

  told-Becomes :
      (t : Told F) (o a : Option Text) (b : Bool) (fs : List (Forwarded F))
      (hs : List (Happening F))
      → ((q : Relay F) → Becomes q (heard hs) (heard (before_leaving hs)) (receive q hs).0)
      → let h = handle_told t (relay o a b fs) in
        Becomes
          (relay o a b fs)
          (until_bye t (heard hs))
          (until_bye t (heard (before_leaving hs)))
          (unless_bye h.0 h.1 (receive h.0 hs)).0
  unfolding handle_told
  told-Becomes nothing o a b fs hs k = k (relay o a b fs)
  told-Becomes (bye j) o a true fs hs k =
      (sym (or_else-none o), sym (or_else-none a), sym (append_nil fs))
  told-Becomes (bye j) o a false fs hs k = (sym (or_else-none o), sym (or_else-none a), refl)
  told-Becomes (offer sdp) o a true fs hs k =
      let q = k (relay (or_else o (some sdp)) a true (fs ++ offers sdp ∷ [])) in
      (
        q.0 ∙ or_else_assoc o (some sdp) (first_offer (heard hs)),
        q.1,
        q.2 ∙ append_assoc fs (offers sdp ∷ []) (shown (heard (before_leaving hs))),
      )
  told-Becomes (offer sdp) o a false fs hs k =
      let q = k (relay (or_else o (some sdp)) a false fs) in
      (q.0 ∙ or_else_assoc o (some sdp) (first_offer (heard hs)), q.1, q.2)
  told-Becomes (candidate c mid index) o a true fs hs k =
      let h = host_of (split_fields c) in
      let q = k (relay o (or_else a h) true (fs ++ candidates c mid index ∷ [])) in
      (
        q.0,
        q.1 ∙ or_else_assoc a h (first_host (heard hs)),
        q.2 ∙ append_assoc fs (candidates c mid index ∷ []) (shown (heard (before_leaving hs))),
      )
  told-Becomes (candidate c mid index) o a false fs hs k =
      let h = host_of (split_fields c) in
      let q = k (relay o (or_else a h) false fs) in
      (q.0, q.1 ∙ or_else_assoc a h (first_host (heard hs)), q.2)

  nothing_more :
      (o a : Option Text) (b : Bool) (fs : List (Forwarded F))
      → Becomes (relay o a b fs) [] [] (relay o a b fs)
  nothing_more o a true fs = (sym (or_else-none o), sym (or_else-none a), sym (append_nil fs))
  nothing_more o a false fs = (sym (or_else-none o), sym (or_else-none a), refl)

  -- After its viewer left, a stream forwards nothing.
  left :
      (o a : Option Text) (b : Bool) (fs : List (Forwarded F)) (ts before : List (Told F))
      (s : Relay F)
      → Becomes (relay o a false fs) ts before s
      → Becomes (relay o a b fs) ts [] s
  left o a true fs ts before s h = (h.0, h.1, h.2 ∙ sym (append_nil fs))
  left o a false fs ts before s h = h

  receive-Becomes :
      (hs : List (Happening F)) (r : Relay F)
      → Becomes r (heard hs) (heard (before_leaving hs)) (receive r hs).0
  unfolding receive
  receive-Becomes [] r = nothing_more r.offer r.address r.live r.forwarded
  receive-Becomes (leaves ∷ hs) r =
      left r.offer r.address r.live r.forwarded (heard hs) (heard (before_leaving hs))
        (receive (record r { live = false }) hs).0 (receive-Becomes hs (record r { live = false }))
  receive-Becomes (says unreadable ∷ hs) r = receive-Becomes hs r
  receive-Becomes (says too_deep ∷ hs) r = nothing_more r.offer r.address r.live r.forwarded
  receive-Becomes (says (loaded j) ∷ hs) r =
      told-Becomes (told j) r.offer r.address r.live r.forwarded hs (receive-Becomes hs)

  -- Whatever the emulator sends and whenever the viewer leaves, a stream keeps the first offer and the
  -- address of the first UDP host candidate, also of those after the viewer left; the viewer gets the
  -- offers and the candidates, each once and in order, up to the moment it leaves. Nothing counts after
  -- a bye or after a message that nests too deeply.
  pub receive_lem :
      (hs : List (Happening F))
      → let r = (receive new_relay hs).0 in
        (r.offer ≡ first_offer (heard hs))
        × (r.address ≡ first_host (heard hs))
        × (r.forwarded ≡ shown (heard (before_leaving hs)))
  receive_lem hs = receive-Becomes hs new_relay
