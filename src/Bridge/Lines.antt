-- ===== src/Bridge/Lines.antt =====
-- The lines and the words of a session description, read again (webrtc.py: throwaway_answer).
use android_appliance.Base.{
  ◌≡◌, refl, ap, true, false, List, [], ◌∷◌, ◌++◌, ◌==◌, Bool-cases, inl, inr, arith, keep_if, All,
}
use android_appliance.Base.Text.{Text, starts_with}
use android_appliance.Bridge.Answer.{
  is_media, split_sections, first_with, before_space, after_space, is_channel_line, codec_prefix,
  option_list,
}

pub split_sections-append :
    (ls rest : List Text)
    → All (λ k. is_media k ≡ false) ls
    → split_sections (ls ++ rest) ≡ (ls ++ (split_sections rest).0, (split_sections rest).1)
unfolding split_sections
split_sections-append [] rest h = refl
split_sections-append (l ∷ ls) rest h = rw h.0 (rw (split_sections-append ls rest h.1) refl)

pub before_space-append :
    (t z : Text) → before_space (before_space t ++ (b' ' ∷ z)) ≡ before_space t
before_space-append [] z = refl
before_space-append (c ∷ t) z = elim (Bool-cases (c == b' ')) [
  | inl h ↦ rw h refl
  | inr h ↦ rw h (rw h (ap (λ r. c ∷ r) (before_space-append t z)))
]

pub after_space-append : (t z : Text) → after_space (before_space t ++ (b' ' ∷ z)) ≡ z
after_space-append [] z = refl
after_space-append (c ∷ t) z = elim (Bool-cases (c == b' ')) [
  | inl h ↦ rw h refl
  | inr h ↦ rw h (rw h (after_space-append t z))
]

channel_not_media : (l : Text) → is_channel_line l ≡ true → is_media l ≡ false
channel_not_media [] h = refl
channel_not_media (c ∷ l) h = ground arith

pub channels_not_media :
    (ls : List Text) → All (λ k. is_media k ≡ false) (keep_if is_channel_line ls)
channels_not_media [] = tt
channels_not_media (l ∷ ls) = elim (Bool-cases (is_channel_line l)) [
  | inl h ↦ rw h (channel_not_media l h, channels_not_media ls)
  | inr h ↦ rw h (channels_not_media ls)
]

codec_not_media : (f l : Text) → starts_with (codec_prefix f) l ≡ true → is_media l ≡ false
codec_not_media f [] h = refl
codec_not_media f (c ∷ l) h = ground arith

pub codecs_not_media :
    (f : Text) (ls : List Text)
    → All (λ k. is_media k ≡ false) (option_list (first_with (codec_prefix f) ls))
codecs_not_media f [] = tt
codecs_not_media f (l ∷ ls) = elim (Bool-cases (starts_with (codec_prefix f) l)) [
  | inl h ↦ rw h (codec_not_media f l h, tt)
  | inr h ↦ rw h (codecs_not_media f ls)
]
