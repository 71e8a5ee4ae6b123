-- ===== src/Auth/Keeping.antt =====
-- A secret is never lost or half written (auth.py: _write_secret, secret).
use android_appliance.Base.{
  ℕ, zero, suc, ◌≡◌, refl, sym, ◌∙◌, ap, subst, ◌⊎◌, inl, inr, Option, some, false, List, [], ◌∷◌,
  ◌++◌, append_assoc, append_nil,
}
use android_appliance.Base.Text.{Text, strip, is_empty_text}
use android_appliance.Auth.State.{Auth}
use android_appliance.Auth.Secrets.{
  Vault, Fresh, load_auth, rotate_files, Directory, replaces, file_step, file_steps, all_writes,
  whole_text, write_secret, read_value, keep_or_write, secret, take_first,
}

-- The file is as it was, or holds the new text.
abbrev pub OldOrNew : Option Text → Text → Directory → Type 0
OldOrNew old new d = (d.file ≡ old) ⊎ (d.file ≡ some new)

writing :
    (n : ℕ) (parts : List Text) (old : Option Text) (done : Text)
    → OldOrNew old (done ++ whole_text parts) (
        file_steps
          (take_first n (all_writes parts ++ replaces ∷ []))
          (record { file = old; temporary = some done }))
unfolding file_steps file_step
writing zero parts old done = inl refl
writing (suc zero) [] old done = inr (ap some (sym (append_nil done)))
writing (suc (suc n)) [] old done = inr (ap some (sym (append_nil done)))
writing (suc n) (t ∷ parts) old done =
    subst
      (λ w. OldOrNew old w (
        file_steps (take_first n (all_writes parts ++ replaces ∷ []))
          (record { file = old; temporary = some (done ++ t) })))
      (append_assoc done t (whole_text parts)) (writing n parts old (done ++ t))

write_secret-OldOrNew :
    (n : ℕ) (parts : List Text) (d : Directory)
    → OldOrNew d.file (whole_text parts) (file_steps (take_first n (write_secret parts)) d)
unfolding file_steps file_step write_secret
write_secret-OldOrNew zero parts d = inl refl
write_secret-OldOrNew (suc zero) parts d = inl refl
write_secret-OldOrNew (suc (suc n)) parts d = writing n parts d.file []

written :
    (parts : List Text) (old : Option Text) (done : Text)
    → (file_steps
        (all_writes parts ++ replaces ∷ [])
        (record { file = old; temporary = some done })).file
      ≡ some (done ++ whole_text parts)
unfolding file_steps file_step
written [] old done = ap some (sym (append_nil done))
written (t ∷ parts) old done =
    written parts old (done ++ t) ∙ ap some (append_assoc done t (whole_text parts))

-- A new secret: some text without whitespace at its ends, as the URL-safe alphabet has none.
abbrev pub IsFresh : Text → Type 0
IsFresh value = (strip (value ++ 10 ∷ []) ≡ value) × (is_empty_text value ≡ false)

-- The directory gives the secret again, whatever would be made without it.
abbrev pub Keeps : Directory → Text → Type 0
Keeps d s =
    (is_empty_text s ≡ false)
    × (read_value d.file ≡ s)
    × ((value : Text) (parts : List Text) → secret value parts d ≡ (d, s))

Keeps-of : (d : Directory) (s : Text) → is_empty_text s ≡ false → read_value d.file ≡ s → Keeps d s
unfolding secret
Keeps-of d [] h e = absurd cc
Keeps-of d (c ∷ s) h e = (h, e, λ value parts. ap (keep_or_write value parts d) e)

keep_or_write-Keeps :
    (value : Text) (parts : List Text) (d : Directory) (t : Text)
    → whole_text parts ≡ value ++ 10 ∷ []
    → IsFresh value
    → read_value d.file ≡ t
    → let r = keep_or_write value parts d t in Keeps r.0 r.1
unfolding write_secret file_steps file_step
keep_or_write-Keeps value parts d (c ∷ s) w f e = Keeps-of d (c ∷ s) refl e
keep_or_write-Keeps value parts d [] w f e =
    let there : (file_steps (write_secret parts) d).file ≡ some (value ++ 10 ∷ []) =
      written parts d.file [] ∙ ap some w in
    Keeps-of (file_steps (write_secret parts) d) value f.1 (ap read_value there ∙ f.0)

-- The first use of a secret and every later one give the same text, which is not empty; and wherever
-- the write of a secret is interrupted, its file is still the old one or holds the whole new one. It
-- needs that a new secret is not empty and has no whitespace at its ends.
pub secret-Keeps :
    (value : Text) (parts : List Text) (d : Directory) (n : ℕ)
    → whole_text parts ≡ value ++ 10 ∷ []
    → IsFresh value
    → (let r = secret value parts d in Keeps r.0 r.1)
      × OldOrNew d.file (value ++ 10 ∷ []) (file_steps (take_first n (write_secret parts)) d)
unfolding secret
secret-Keeps value parts d n w f = (
  keep_or_write-Keeps value parts d (read_value d.file) w f refl,
  subst (λ t. OldOrNew d.file t (file_steps (take_first n (write_secret parts)) d)) w
      (write_secret-OldOrNew n parts d),
)

replaced-Keeps :
    (f : Fresh) (d : Directory)
    → whole_text f.parts ≡ f.value ++ 10 ∷ []
    → IsFresh f.value
    → Keeps (file_steps (write_secret f.parts) d) f.value
unfolding write_secret file_steps file_step
replaced-Keeps f d w h =
    Keeps-of (file_steps (write_secret f.parts) d) f.value h.1
      (ap read_value (written f.parts d.file [] ∙ ap some w) ∙ h.0)

-- After a rotation and a restart of the daemon the files are as the rotation left them, and its token
-- and key are in force.
rotate_files_survives :
    (f g f' g' : Fresh) (x : Vault × Auth)
    → whole_text f.parts ≡ f.value ++ 10 ∷ []
    → whole_text g.parts ≡ g.value ++ 10 ∷ []
    → IsFresh f.value
    → IsFresh g.value
    → let r = rotate_files f g x in
      load_auth f' g' r.0
      ≡ (r.0, record { token = f.value; session_key = g.value; links = []; failures = [] })
unfolding load_auth rotate_files
rotate_files_survives f g f' g' (v, a) w u h k =
    let t = (replaced-Keeps f v.token_file w h).2 f'.value f'.parts in
    let s = (replaced-Keeps g v.key_file u k).2 g'.value g'.parts in rw (t, s) refl
