-- ===== src/Avd/Configure.antt =====
-- What `configure` does to the files of the AVD.
use android_appliance.Base.{
  ◌≡◌, ◌↔◌, refl, none, some, Bool, true, false, not, ◌&&◌, List, [], ◌∷◌, arith, if◌then◌else◌,
  all,
}
use android_appliance.Base.Text.{Text, text_eq, is_digit}
use android_appliance.Avd.Ini.{
  read_key, starts_digit, set_key, Settings, set_keys, managed, image_of, Files, configure,
  is_no_save, no_save,
}
use android_appliance.Avd.Laws.{is_plain, is_value, has}

-- The key is none of the settings.
abbrev pub is_free : Text → Settings → Bool
is_free j [] = true
is_free j ((k, v) ∷ ss) = not (text_eq k j) && is_free j ss

abbrev pub are_good : Settings → Bool
are_good [] = true
are_good ((k, v) ∷ ss) = is_plain k && is_value v && is_free k ss && are_good ss

-- Every setting has its value.
unfoldable pub all_set : List Text → Settings → Bool
all_set ls [] = true
all_set ls ((k, v) ∷ ss) = has v (read_key ls k) && all_set ls ss

set_keys_unchanged :
    (ls : List Text) (ss : Settings) → (set_keys ls ss).1 ≡ false → (set_keys ls ss).0 ≡ ls
unfolding set_keys set_key
set_keys_unchanged ls [] h = refl
set_keys_unchanged ls ((k, v) ∷ ss) h = ground (arith, set_keys_unchanged (set_key ls k v).0 ss)

-- A number in decimal.
abbrev pub is_number : Text → Bool
is_number v = starts_digit v && all is_digit v

-- The files that `configure` leaves.
abbrev configured : Text → Text → Text → Files → Files
configured registry memory cores f = record {
  config = (set_keys f.config (managed memory cores)).0;
  quickboot = if is_no_save f.quickboot then f.quickboot else some no_save;
  registry = some registry;
}

configured_lines :
    (ls : List Text) (ss : Settings)
    → (if (set_keys ls ss).1 then (set_keys ls ss).0 else ls) ≡ (set_keys ls ss).0
configured_lines ls ss = ground (arith, set_keys_unchanged ls ss)

configure_lem :
    (image registry memory cores : Text) (f : Files)
    → configure image registry memory cores f ≡ (
        if text_eq (image_of f.config) image
        then some (configured registry memory cores f)
        else none)
unfolding configure
configure_lem image registry memory cores f =
    rw (configured_lines f.config (managed memory cores)) refl

-- configure refuses exactly an AVD of another system image.
configure_refuses :
    (image registry memory cores : Text) (f : Files)
    → (configure image registry memory cores f ≡ none) ↔ (text_eq (image_of f.config) image ≡ false)
configure_refuses image registry memory cores f =
    rw (configure_lem image registry memory cores f)
      (λ h. ground (arith, h), λ h. ground (arith, h))
