-- ===== src/Bridge/Accepts.antt =====
-- What the emulator reads in the answer that lets a stream go (webrtc.py: throwaway_answer): the sections
-- of the answer beside those of the offer.
use android_appliance.Base.{
  ℕ, suc, ◌≡◌, refl, sym, Option, none, some, true, false, List, [], ◌∷◌, ◌++◌, Bool-cases, inl,
  inr, subst, append_nil, is_some, keep_if, All, OnSome,
}
use android_appliance.Base.Text.{Text, codes, text_eq}
use android_appliance.Bridge.Answer.{
  is_media, split_sections, sections, before_space, after_space, split_spaces, join_spaces,
  application, Secrets, Throwaway, media_line, transport_lines, is_channel_line, codec_lines,
  media_section, section_for, with_words, first_line, answer_section, join_sections, mid_of, mids,
  answer_sections, heading, with_sections, throwaway_answer,
}
use android_appliance.Bridge.Lines.{
  split_sections-append, before_space-append, after_space-append, channels_not_media,
  codecs_not_media,
}

-- The words of a media line after the media.
abbrev words_of : List Text → List Text
words_of s = split_spaces (after_space (first_line s))

abbrev HasPort : Text → List Text → Type 0
HasPort p [] = ⊥
HasPort p (w ∷ ws) = w ≡ p

-- The port, the protocol and a format.
abbrev HasFormats : List Text → Type 0
HasFormats (port ∷ protocol ∷ f ∷ fs) = Unit
HasFormats _ = ⊥

abbrev HasMedia : List (List Text) → Type 0
HasMedia [] = ⊥
HasMedia (s ∷ ss) = Unit

abbrev pub IsOffer : List (List Text) → Type 0
IsOffer ss = HasMedia ss × All (λ s. HasFormats (words_of s)) ss

-- A section that is the media line and lines that are none.
abbrev IsSection : List Text → Type 0
IsSection [] = ⊥
IsSection (l ∷ ls) = (is_media l ≡ true) × All (λ k. is_media k ≡ false) ls

-- An answer, and what holds of it.
abbrev pub Given : {A : Type 0} → (A → Type 0) → Option A → Type 0
Given P none = ⊥
Given P (some a) = P a

given : {A : Type 0} (P : A → Type 0) (o : Option A) → is_some o ≡ true → OnSome P o → Given P o
given P none h k = cc
given P (some a) h k = k

module _ (str : ℕ → Text) where
  -- The section of the answer accepts the one of the offer: the same media, under the same name, with
  -- a port that does not reject it.
  abbrev Accepts : ℕ → List Text → List Text → Type 0
  Accepts i s a =
      IsSection a
      × (before_space (first_line a) ≡ before_space (first_line s))
      × HasPort (codes "9") (words_of a)
      × (mid_of str i a ≡ mid_of str i s)

  abbrev AllAccepted : ℕ → List (List Text) → List (List Text) → Type 0
  AllAccepted i [] [] = Unit
  AllAccepted i (s ∷ ss) (a ∷ rest) = Accepts i s a × AllAccepted (suc i) ss rest
  AllAccepted i _ _ = ⊥

  line-Accepts :
      (v : Secrets) (i : ℕ) (protocol : Text) (formats : List Text) (ls s : List Text)
      → All (λ k. is_media k ≡ false) ls
      → Accepts i s (
          media_line (before_space (first_line s)) protocol formats
          ∷ (transport_lines v (mid_of str i s) ++ ls))
  line-Accepts v i protocol formats ls s h =
      let t = first_line s in
      let z = codes "9 " ++ (protocol ++ (b' ' ∷ join_spaces formats)) in
      (
        (refl, (refl, (refl, (refl, (refl, (refl, (refl, h))))))),
        before_space-append t z,
        subst (λ u. HasPort (codes "9") (split_spaces u)) (sym (after_space-append t z)) refl,
        refl,
      )

  media_section-Accepts :
      (v : Secrets) (i : ℕ) (protocol : Text) (formats : List Text) (s : List Text)
      → OnSome
          (Accepts i s)
          (media_section v (mid_of str i s) (before_space (first_line s)) protocol formats s)
  media_section-Accepts v i protocol [] s = tt
  media_section-Accepts v i protocol (f ∷ fs) s =
      line-Accepts v i protocol (f ∷ []) (codec_lines f s) s (refl, (refl, codecs_not_media f s))

  section_for-Accepts :
      (v : Secrets) (i : ℕ) (protocol : Text) (formats : List Text) (s : List Text)
      → OnSome
          (Accepts i s)
          (section_for v (mid_of str i s) (before_space (first_line s)) protocol formats s)
  section_for-Accepts v i protocol formats s =
      elim (Bool-cases (text_eq (before_space (first_line s)) application)) [
        | inl h ↦
            rw h (
              line-Accepts v i protocol formats (keep_if is_channel_line s) s
                (channels_not_media s))
        | inr h ↦ rw h (media_section-Accepts v i protocol formats s)
      ]

  with_words-Accepts :
      (v : Secrets) (i : ℕ) (ws s : List Text)
      → OnSome (Accepts i s) (with_words v (mid_of str i s) (before_space (first_line s)) ws s)
  with_words-Accepts v i [] s = tt
  with_words-Accepts v i (port ∷ []) s = tt
  with_words-Accepts v i (port ∷ protocol ∷ formats) s = section_for-Accepts v i protocol formats s

  -- The lines of the answer's sections, read again.
  abbrev Reads : ℕ → List (List Text) → List Text → Type 0
  Reads i ss ls = ((split_sections ls).0 ≡ []) × AllAccepted i ss (split_sections ls).1

  join_sections-Reads :
      (i : ℕ) (s : List Text) (ss : List (List Text)) (a rest : Option (List Text))
      → OnSome (Accepts i s) a
      → OnSome (Reads (suc i) ss) rest
      → OnSome (Reads i (s ∷ ss)) (join_sections a rest)
  unfolding split_sections
  join_sections-Reads i s ss none none h k = tt
  join_sections-Reads i s ss none (some r) h k = tt
  join_sections-Reads i s ss (some a) none h k = tt
  join_sections-Reads i s ss (some []) (some r) h k = absurd h.0
  join_sections-Reads i s ss (some (l ∷ a)) (some r) h k =
      rw (split_sections-append a r h.0.1) (rw h.0.0 (rw k.0 (rw (append_nil a) (refl, (h, k.1)))))

  answer_sections-Reads :
      (v : Secrets) (i : ℕ) (ss : List (List Text))
      → OnSome (Reads i ss) (answer_sections str v i ss)
  unfolding answer_sections answer_section split_sections
  answer_sections-Reads v i [] = (refl, tt)
  answer_sections-Reads v i (s ∷ ss) =
      join_sections-Reads i s ss (answer_section v (mid_of str i s) s)
        (answer_sections str v (suc i) ss)
        (with_words-Accepts v i (split_spaces (after_space (first_line s))) s)
        (answer_sections-Reads v (suc i) ss)

  -- The first media section of the offer is the candidate's.
  abbrev IsFirst : ℕ → List (List Text) → Text → Type 0
  IsFirst i [] m = ⊥
  IsFirst i (s ∷ ss) m = m ≡ mid_of str i s

  abbrev pub LetsGo : List Text → Throwaway → Type 0
  LetsGo offer t =
      AllAccepted 0 (sections offer) (sections t.lines) × IsFirst 0 (sections offer) t.dead.mid

  with_sections-lets_go :
      (v : Secrets) (address : Text) (ss : List (List Text)) (ls : Option (List Text))
      → OnSome (Reads 0 ss) ls
      → OnSome
          (λ t. AllAccepted 0 ss (sections t.lines) × IsFirst 0 ss t.dead.mid)
          (with_sections str v address (mids str 0 ss) ls)
  with_sections-lets_go v address [] ls h = tt
  with_sections-lets_go v address (s ∷ ss) none h = tt
  with_sections-lets_go v address (s ∷ ss) (some ls) h =
      let whole =
        split_sections-append (heading str v (mids str 0 (s ∷ ss))) ls
          (refl, (refl, (refl, (refl, (refl, (refl, tt)))))) in
      (subst (λ q. AllAccepted 0 (s ∷ ss) q.1) (sym whole) h.1, refl)

  media_section-formats :
      (v : Secrets) (mid media protocol f : Text) (fs s : List Text)
      → is_some (section_for v mid media protocol (f ∷ fs) s) ≡ true
  media_section-formats v mid media protocol f fs s =
      elim (Bool-cases (text_eq media application)) [ inl h ↦ rw h refl | inr h ↦ rw h refl ]

  with_words-formats :
      (v : Secrets) (mid media : Text) (ws s : List Text)
      → HasFormats ws
      → is_some (with_words v mid media ws s) ≡ true
  with_words-formats v mid media [] s h = absurd h
  with_words-formats v mid media (p ∷ []) s h = absurd h
  with_words-formats v mid media (p ∷ q ∷ []) s h = absurd h
  with_words-formats v mid media (p ∷ q ∷ f ∷ fs) s h = media_section-formats v mid media q f fs s

  both_some :
      (a b : Option (List Text))
      → is_some a ≡ true
      → is_some b ≡ true
      → is_some (join_sections a b) ≡ true
  both_some none b h k = h
  both_some (some a) none h k = k
  both_some (some a) (some b) h k = refl

  answer_sections-formats :
      (v : Secrets) (i : ℕ) (ss : List (List Text))
      → All (λ s. HasFormats (words_of s)) ss
      → is_some (answer_sections str v i ss) ≡ true
  unfolding answer_sections answer_section
  answer_sections-formats v i [] h = refl
  answer_sections-formats v i (s ∷ ss) h =
      both_some (answer_section v (mid_of str i s) s) (answer_sections str v (suc i) ss)
        (with_words-formats v (mid_of str i s) (before_space (first_line s)) (words_of s) s h.0)
        (answer_sections-formats v (suc i) ss h.1)

  with_sections_some :
      (v : Secrets) (address : Text) (ss : List (List Text)) (ls : Option (List Text))
      → HasMedia ss
      → is_some ls ≡ true
      → is_some (with_sections str v address (mids str 0 ss) ls) ≡ true
  with_sections_some v address [] ls h k = absurd h
  with_sections_some v address (s ∷ ss) none h k = k
  with_sections_some v address (s ∷ ss) (some ls) h k = refl

  -- An offer with media, each with a format, gets an answer. The answer has a section for each of the
  -- offer's, in that order, with the same media under the same name and a port that does not reject
  -- it, and the candidate is of the first section.
  pub throwaway_answer-LetsGo :
      (v : Secrets) (offer : List Text) (address : Text)
      → IsOffer (sections offer)
      → Given (LetsGo offer) (throwaway_answer str v offer address)
  unfolding throwaway_answer
  throwaway_answer-LetsGo v offer address h =
      let ss = sections offer in
      let made = answer_sections str v 0 ss in
      given (LetsGo offer) (with_sections str v address (mids str 0 ss) made)
        (with_sections_some v address ss made h.0 (answer_sections-formats v 0 ss h.1))
        (with_sections-lets_go v address ss made (answer_sections-Reads v 0 ss))
