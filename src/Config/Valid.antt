-- ===== src/Config/Valid.antt =====
-- The invariant of a configuration: what load checks before the daemon starts.
use android_appliance.Base.{
  ℕ, ◌≤◌, Option, none, some, Bool, true, false, [], ◌∷◌, leb, is_some, all, ◌≡◌, refl, subst,
  arith,
}
use android_appliance.Base.Text.{Text, codes, contains, starts_with}
use android_appliance.Config.Fields.{
  Environ, environment, get, or_default, is_avd_name, is_name_char, is_disk_size, strip_brackets,
}
use android_appliance.Config.Load.{
  Config, Checked, config_error, accepts, ◌>>=◌, checked, integer, api_level_of, is_gpu_mode,
  is_flag, is_turn_host, load_env, load,
}
use android_appliance.Config.Laws.{Checks, bind-Checks, checked-Checks, integer-Checks}

abbrev pub IsLevel : Option ℕ → Type 0
IsLevel none = Unit
IsLevel (some n) = 1 ≤ n

abbrev pub IsValid : Config → Type 0
IsValid cfg =
    (is_avd_name cfg.avd_name ≡ true)
    × (is_gpu_mode cfg.gpu ≡ true)
    × (is_disk_size cfg.disk_size ≡ true)
    × (is_turn_host cfg.turn_host ≡ true)
    × IsLevel cfg.api_level
    × (512 ≤ cfg.memory_mib)
    × (1 ≤ cfg.cores)
    × (1 ≤ cfg.boot_timeout)
    × (1 ≤ cfg.max_upload_mib)
    × (1 ≤ cfg.port)
    × (1 ≤ cfg.turn_port)

api_level_of-Checks :
    (env : Environ) (api : Option Text)
    → get env (codes "APPLIANCE_API_LEVEL") ≡ api
    → Checks env IsLevel (api_level_of env api)
unfolding api_level_of Checks
api_level_of-Checks env none g = tt
api_level_of-Checks env (some api) g =
    bind-Checks env (λ n. 1 ≤ n) IsLevel (integer env (codes "APPLIANCE_API_LEVEL") 0 1)
      (λ n. accepts (some n))
      (integer-Checks env (codes "APPLIANCE_API_LEVEL") 0 1 (λ e. ground arith)) (λ n h. h)

then_field :
    {B : Type 0} (env : Environ) (Q : B → Type 0) (key default : Text) (test : Text → Bool)
    (change : Text → Text)
    → (f : Text → Checked B) → test (change default) ≡ true
    → ((v : Text) → test v ≡ true → Checks env Q (f v))
    → Checks env Q (checked key test (change (or_default (get env key) default)) >>= f)
then_field env Q key default test change f d k =
    bind-Checks env (λ v. test v ≡ true) Q
      (checked key test (change (or_default (get env key) default))) f
      (checked-Checks env key default test change (get env key) refl d) k

then_integer :
    {B : Type 0} (env : Environ) (Q : B → Type 0) (key : Text) (default minimum : ℕ)
    → (f : ℕ → Checked B) → leb minimum default ≡ true
    → ((n : ℕ) → minimum ≤ n → Checks env Q (f n))
    → Checks env Q (integer env key default minimum >>= f)
then_integer env Q key default minimum f d k =
    bind-Checks env (λ n. minimum ≤ n) Q (integer env key default minimum) f
      (integer-Checks env key default minimum (λ e. ground arith)) k

accepts-Checks :
    {B : Type 0} (env : Environ) (Q : B → Type 0) (b : B) → Q b → Checks env Q (accepts b)
unfolding Checks
accepts-Checks env Q b h = h

load_env-Checks : (web : Text) (env : Environ) → Checks env IsValid (load_env web env)
unfolding load_env
load_env-Checks web env =
    then_field env IsValid (codes "APPLIANCE_AVD_NAME") (codes "android") is_avd_name (λ v. v) _
      refl
      λ name h1.
        then_field env IsValid (codes "APPLIANCE_GPU") (codes "auto") is_gpu_mode (λ v. v) _ refl
          λ gpu h2.
            then_field env IsValid (codes "APPLIANCE_DISK_SIZE") (codes "32G") is_disk_size (λ v. v)
              _ refl
              λ disk h3.
                then_field env IsValid (codes "APPLIANCE_TRUST_PROXY") (codes "0") is_flag (λ v. v)
                  _ refl
                  λ trust h4.
                    then_field env IsValid (codes "APPLIANCE_TURN_HOST") [] is_turn_host
                      strip_brackets _ refl
                      λ host h5.
                        bind-Checks env IsLevel IsValid _ _
                          (api_level_of-Checks env (get env (codes "APPLIANCE_API_LEVEL")) refl)
                          λ api h6.
                            then_integer env IsValid (codes "APPLIANCE_IDLE_STOP_MINUTES") 60 0 _
                              refl
                              λ idle h7.
                                then_integer env IsValid (codes "APPLIANCE_MEMORY_MIB") 4096 512 _
                                  refl
                                  λ memory h8.
                                    then_integer env IsValid (codes "APPLIANCE_CORES") 4 1 _ refl
                                      λ cores h9.
                                        then_integer env IsValid (codes "APPLIANCE_BOOT_TIMEOUT")
                                          900 1 _ refl
                                          λ boot h10.
                                            then_integer env IsValid
                                              (codes "APPLIANCE_MAX_UPLOAD_MIB") 4096 1 _ refl
                                              λ upload h11.
                                                then_integer env IsValid (codes "APPLIANCE_PORT")
                                                  6090 1 _ refl
                                                  λ port h12.
                                                    then_integer env IsValid
                                                      (codes "APPLIANCE_TURN_PORT") 3478 1 _ refl
                                                      λ turn h13.
                                                        then_integer env IsValid
                                                          (codes "APPLIANCE_HTTP_PORT") 8080 0 _
                                                          refl
                                                          λ listen h14.
                                                            accepts-Checks env IsValid _ (
                                                            h1, h2, h3, h5, h6, h8, h9, h10, h11,
                                                            h12, h13,
                                                            )

accepted-Checks :
    (env : Environ) (P : Config → Type 0) (m : Checked Config) (cfg : Config)
    → m ≡ accepts cfg
    → Checks env P m
    → P cfg
unfolding Checks
accepted-Checks env P m cfg h c =
    let moved : Checks env P (accepts cfg) = subst (Checks env P) h c in moved

refused-Checks :
    (env : Environ) (P : Config → Type 0) (m : Checked Config) (key : Text)
    → m ≡ config_error key
    → Checks env P m
    → is_some (get env key) ≡ true
unfolding Checks
refused-Checks env P m key h c =
    let moved : Checks env P (config_error key) = subst (Checks env P) h c in moved

-- A configuration that load accepts keeps every limit: the AVD name, the GPU mode, the disk size and
-- the TURN host have their formats, the API level, the cores, the boot timeout, the upload size,
-- APPLIANCE_PORT and the TURN port are at least 1, and the memory is at least 512 MiB. Of
-- APPLIANCE_HTTP_PORT, which may be 0, it says nothing.
pub load-IsValid :
    (web : Text) (files : Text → Text) (environ : Environ) (cfg : Config)
    → load web files environ ≡ accepts cfg
    → IsValid cfg
unfolding load
load-IsValid web files environ cfg h =
    let env = environment files environ in
    accepted-Checks env IsValid (load_env web env) cfg h (load_env-Checks web env)

-- A configuration error names a key that has a value, so what is left out or empty never stops the
-- daemon.
load-config_error :
    (web : Text) (files : Text → Text) (environ : Environ) (key : Text)
    → load web files environ ≡ config_error key
    → is_some (get (environment files environ) key) ≡ true
unfolding load
load-config_error web files environ key h =
    let env = environment files environ in
    refused-Checks env IsValid (load_env web env) key h (load_env-Checks web env)

name-no_slash : (s : Text) → all is_name_char s ≡ true → contains b'/' s ≡ false
name-no_slash [] h = refl
name-no_slash (c ∷ s) h = ground (arith, name-no_slash s)

avd_name-safe :
    (name : Text)
    → is_avd_name name ≡ true
    → (contains b'/' name ≡ false) × (starts_with (codes ".") name ≡ false)
avd_name-safe [] h = (refl, refl)
avd_name-safe (c ∷ s) h = (ground (arith, name-no_slash s), ground arith)

-- The name of an AVD is one part of a path and no hidden name, so the directory of the AVD lies
-- directly in the AVD home.
load-avd_name :
    (web : Text) (files : Text → Text) (environ : Environ) (cfg : Config)
    → load web files environ ≡ accepts cfg
    → (contains b'/' cfg.avd_name ≡ false) × (starts_with (codes ".") cfg.avd_name ≡ false)
load-avd_name web files environ cfg h =
    avd_name-safe cfg.avd_name (load-IsValid web files environ cfg h).0
