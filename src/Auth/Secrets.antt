-- ===== src/Auth/Secrets.antt =====
-- The files of the secrets (auth.py: _write_secret, secret, and their use in Auth.__init__ and rotate). A
-- directory holds a file and its temporary one; what secrets.token_urlsafe gives is an argument.
use android_appliance.Base.{ℕ, zero, suc, Option, none, some, List, [], ◌∷◌, ◌++◌}
use android_appliance.Base.Text.{Text, strip}
use android_appliance.Auth.State.{Auth, rotate}

-- The contents of the secret's file and of the temporary one, where they are there.
pub record Directory : Type 0 where
  pub file : Option Text
  pub temporary : Option Text

-- What is done to the files; a write goes on in parts, and may end anywhere.
pub data FileStep : Type 0 where
  unlinks_temporary creates_temporary replaces : FileStep
  writes : Text → FileStep

abbrev pub appended : Option Text → Text → Option Text
appended none t = none
appended (some s) t = some (s ++ t)

abbrev pub moved : Option Text → Directory → Directory
moved none d = d
moved (some t) d = record { file = some t; temporary = none }

unfoldable pub file_step : FileStep → Directory → Directory
file_step unlinks_temporary d = record d { temporary = none }
file_step creates_temporary d = record d { temporary = some [] }
file_step (writes t) d = record d { temporary = appended d.temporary t }
file_step replaces d = moved d.temporary d

unfoldable pub file_steps : List FileStep → Directory → Directory
unfolding file_step
file_steps [] d = d
file_steps (s ∷ ss) d = file_steps ss (file_step s d)

-- The write of a text, in parts.
abbrev pub all_writes : List Text → List FileStep
all_writes [] = []
all_writes (t ∷ ts) = writes t ∷ all_writes ts

abbrev pub whole_text : List Text → Text
whole_text [] = []
whole_text (t ∷ ts) = t ++ whole_text ts

-- _write_secret, with the parts in which the value and its line break are written.
unfoldable pub write_secret : List Text → List FileStep
write_secret parts = unlinks_temporary ∷ creates_temporary ∷ (all_writes parts ++ replaces ∷ [])

abbrev pub read_value : Option Text → Text
read_value none = []
read_value (some t) = strip t

abbrev pub keep_or_write : Text → List Text → Directory → Text → Directory × Text
keep_or_write value parts d [] = (file_steps (write_secret parts) d, value)
keep_or_write value parts d (c ∷ s) = (d, c ∷ s)

-- secret: the file after it and the secret. `value` is the new one, if there is none yet.
unfoldable pub secret : Text → List Text → Directory → Directory × Text
unfolding write_secret file_steps
secret value parts d = keep_or_write value parts d (read_value d.file)

abbrev pub take_first : ℕ → List FileStep → List FileStep
take_first zero ss = []
take_first (suc n) [] = []
take_first (suc n) (s ∷ ss) = s ∷ take_first n ss

-- The directories of the two secrets.
pub record Vault : Type 0 where
  pub token_file : Directory
  pub key_file : Directory

-- A new value and the parts in which it is written with its line break.
pub record Fresh : Type 0 where
  pub value : Text
  pub parts : List Text

-- Auth.__init__
unfoldable pub load_auth : Fresh → Fresh → Vault → Vault × Auth
unfolding secret
load_auth f g v =
    let (t, token) = secret f.value f.parts v.token_file in
    let (k, session_key) = secret g.value g.parts v.key_file in
    (
      record { token_file = t; key_file = k },
      record { token = token; session_key = session_key; links = []; failures = [] },
    )

-- rotate: the files, and the state with the new token and key.
unfoldable pub rotate_files : Fresh → Fresh → Vault × Auth → Vault × Auth
unfolding write_secret file_steps rotate
rotate_files f g (v, a) = (
  record {
    token_file = file_steps (write_secret f.parts) v.token_file;
    key_file = file_steps (write_secret g.parts) v.key_file;
  },
  rotate f.value g.value a,
)
