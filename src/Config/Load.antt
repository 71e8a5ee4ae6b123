-- ===== src/Config/Load.antt =====
-- Config and load (config.py). A Path is the text that it is made of.
use android_appliance.Base.{ℕ, ◌*◌, Option, none, some, Bool, ◌||◌, [], ◌++◌, leb, if◌then◌else◌}
use android_appliance.Base.Text.{Text, codes, text_eq, is_empty_text, is_number, int_of}
use android_appliance.Config.Fields.{
  Environ, environment, get, or_default, is_avd_name, is_disk_size, is_host, strip_brackets,
}

pub record Config : Type 0 where
  pub avd_name : Text
  pub api_level : Option ℕ
  pub gpu : Text
  pub idle_stop_minutes : ℕ
  pub memory_mib : ℕ
  pub cores : ℕ
  pub disk_size : Text
  pub boot_timeout : ℕ
  pub max_upload_mib : ℕ
  pub trust_proxy : Bool
  pub listen_address : Text
  pub port : ℕ
  pub turn_port : ℕ
  pub turn_host : Text
  pub http_port : ℕ
  pub data_dir : Text
  pub run_dir : Text
  pub tmp_dir : Text
  pub sdk_root : Text
  pub web_dir : Text
  pub emulator_bin : Text
  pub adb_bin : Text
  pub xvnc_bin : Text
  pub glxinfo_bin : Text
  pub turnserver_bin : Text
  pub render_node : Option Text

-- A value, the key that a ConfigError names, or the ValueError of int.
pub data Checked (A : Type 0) : Type 0 where
  config_error : Text → Checked A
  value_error : Checked A
  accepts : A → Checked A

infixl 1 ◌>>=◌
abbrev pub ◌>>=◌ : {A B : Type 0} → Checked A → (A → Checked B) → Checked B
config_error key >>= f = config_error key
value_error >>= f = value_error
accepts a >>= f = f a

abbrev pub checked : Text → (Text → Bool) → Text → Checked Text
checked key test value = if test value then accepts value else config_error key

abbrev pub at_least : Text → ℕ → Option ℕ → Checked ℕ
at_least key minimum none = value_error
at_least key minimum (some n) = if leb minimum n then accepts n else config_error key

abbrev pub integer_of : Text → Option Text → ℕ → ℕ → Checked ℕ
integer_of key none default minimum = accepts default
integer_of key (some raw) default minimum =
    if is_number raw then at_least key minimum (int_of raw) else config_error key

-- The helper integer of load.
unfoldable pub integer : Environ → Text → ℕ → ℕ → Checked ℕ
integer environ key default minimum = integer_of key (get environ key) default minimum

unfoldable pub api_level_of : Environ → Option Text → Checked (Option ℕ)
api_level_of environ none = accepts none
api_level_of environ (some api) = do
  n ← integer environ (codes "APPLIANCE_API_LEVEL") 0 1
  accepts (some n)

abbrev pub is_gpu_mode : Text → Bool
is_gpu_mode gpu =
    text_eq gpu (codes "auto") || text_eq gpu (codes "host") || text_eq gpu (codes "lavapipe")

abbrev pub is_flag : Text → Bool
is_flag s = text_eq s (codes "0") || text_eq s (codes "1")

abbrev pub is_turn_host : Text → Bool
is_turn_host s = is_empty_text s || is_host s

-- The rest of load, from the environment that the file has filled. `web` is the default of web_dir.
unfoldable pub load_env : Text → Environ → Checked Config
load_env web env = do
  name ←
      checked (codes "APPLIANCE_AVD_NAME") is_avd_name
        (or_default (get env (codes "APPLIANCE_AVD_NAME")) (codes "android"))
  gpu_mode ←
      checked (codes "APPLIANCE_GPU") is_gpu_mode
        (or_default (get env (codes "APPLIANCE_GPU")) (codes "auto"))
  disk ←
      checked (codes "APPLIANCE_DISK_SIZE") is_disk_size
        (or_default (get env (codes "APPLIANCE_DISK_SIZE")) (codes "32G"))
  trust ←
      checked (codes "APPLIANCE_TRUST_PROXY") is_flag
        (or_default (get env (codes "APPLIANCE_TRUST_PROXY")) (codes "0"))
  host ←
      checked (codes "APPLIANCE_TURN_HOST") is_turn_host
        (strip_brackets (or_default (get env (codes "APPLIANCE_TURN_HOST")) []))
  api ← api_level_of env (get env (codes "APPLIANCE_API_LEVEL"))
  idle ← integer env (codes "APPLIANCE_IDLE_STOP_MINUTES") 60 0
  memory ← integer env (codes "APPLIANCE_MEMORY_MIB") 4096 512
  core_count ← integer env (codes "APPLIANCE_CORES") 4 1
  boot ← integer env (codes "APPLIANCE_BOOT_TIMEOUT") 900 1
  upload ← integer env (codes "APPLIANCE_MAX_UPLOAD_MIB") 4096 1
  port_number ← integer env (codes "APPLIANCE_PORT") 6090 1
  turn ← integer env (codes "APPLIANCE_TURN_PORT") 3478 1
  listen_port ← integer env (codes "APPLIANCE_HTTP_PORT") 8080 0
  let sdk = or_default (get env (codes "APPLIANCE_SDK_ROOT")) (codes "/opt/android-sdk")
  accepts (record {
    avd_name = name;
    api_level = api;
    gpu = gpu_mode;
    idle_stop_minutes = idle;
    memory_mib = memory;
    cores = core_count;
    disk_size = disk;
    boot_timeout = boot;
    max_upload_mib = upload;
    trust_proxy = text_eq trust (codes "1");
    listen_address = or_default (get env (codes "APPLIANCE_LISTEN_ADDRESS")) (codes "127.0.0.1");
    port = port_number;
    turn_port = turn;
    turn_host = host;
    http_port = listen_port;
    data_dir = or_default (get env (codes "APPLIANCE_DATA_DIR")) (codes "/data");
    run_dir = or_default (get env (codes "APPLIANCE_RUN_DIR")) (codes "/run/appliance");
    tmp_dir = or_default (get env (codes "APPLIANCE_TMP_DIR")) (codes "/tmp");
    sdk_root = sdk;
    web_dir = or_default (get env (codes "APPLIANCE_WEB_DIR")) web;
    emulator_bin =
        or_default (get env (codes "APPLIANCE_EMULATOR")) (sdk ++ codes "/emulator/emulator");
    adb_bin = or_default (get env (codes "APPLIANCE_ADB")) (sdk ++ codes "/platform-tools/adb");
    xvnc_bin = or_default (get env (codes "APPLIANCE_XVNC")) (codes "Xvnc");
    glxinfo_bin = or_default (get env (codes "APPLIANCE_GLXINFO")) (codes "glxinfo");
    turnserver_bin = or_default (get env (codes "APPLIANCE_TURNSERVER")) (codes "turnserver");
    render_node = get env (codes "APPLIANCE_RENDER_NODE");
  })

unfoldable pub load : Text → (Text → Text) → Environ → Checked Config
load web files environ = load_env web (environment files environ)

-- The path avd_dir below avd_home.
abbrev pub avd_dir : Config → Text
avd_dir cfg = cfg.data_dir ++ (codes "/avd/" ++ (cfg.avd_name ++ codes ".avd"))

abbrev pub idle_stop_seconds : Config → ℕ
idle_stop_seconds cfg = cfg.idle_stop_minutes * 60
