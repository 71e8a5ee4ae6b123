-- ===== src/Examples/Config.antt =====
-- The configuration at concrete inputs.
use android_appliance.Base.{◌≡◌, refl, none, some, false, if◌then◌else◌}
use android_appliance.Base.Text.{Text, codes, text_eq}
use android_appliance.Config.Fields.{Environ, config_key, environment, get, read_file, set_default}
use android_appliance.Config.Load.{
  Config, config_error, accepts, load, load_env, integer, api_level_of,
}
use android_appliance.Config.Valid.{IsValid, load-IsValid}

-- The environment names a file and sets the number of cores.
abbrev named : Environ
named key =
    if text_eq key config_key
    then some (codes "/etc/appliance.env")
    else if text_eq key (codes "APPLIANCE_CORES")
    then some (codes "2")
    else none

abbrev contents : Text → Text
contents path =
    codes
      "# cores\nAPPLIANCE_CORES=8\nAPPLIANCE_MEMORY_MIB=2048\nAPPLIANCE_MEMORY_MIB=1\nAPPLIANCE_TURN_HOST=[::1]\n"

abbrev low : Environ
low key = if text_eq key (codes "APPLIANCE_MEMORY_MIB") then some (codes "511") else none

abbrev expected : Config
expected = record {
  avd_name = codes "android";
  api_level = none;
  gpu = codes "auto";
  idle_stop_minutes = 60;
  memory_mib = 2048;
  cores = 2;
  disk_size = codes "32G";
  boot_timeout = 900;
  max_upload_mib = 4096;
  trust_proxy = false;
  listen_address = codes "127.0.0.1";
  port = 6090;
  turn_port = 3478;
  turn_host = codes "::1";
  http_port = 8080;
  data_dir = codes "/data";
  run_dir = codes "/run/appliance";
  tmp_dir = codes "/tmp";
  sdk_root = codes "/opt/android-sdk";
  web_dir = codes "/web";
  emulator_bin = codes "/opt/android-sdk/emulator/emulator";
  adb_bin = codes "/opt/android-sdk/platform-tools/adb";
  xvnc_bin = codes "Xvnc";
  glxinfo_bin = codes "glxinfo";
  turnserver_bin = codes "turnserver";
  render_node = none;
}

load-expected : load (codes "/web") contents named ≡ accepts expected
unfolding load load_env environment read_file set_default get integer api_level_of
load-expected = refl

load-low : load (codes "/web") contents low ≡ config_error (codes "APPLIANCE_MEMORY_MIB")
unfolding load load_env environment read_file set_default get integer api_level_of
load-low = refl

load-IsValid_example : IsValid expected
load-IsValid_example = load-IsValid (codes "/web") contents named expected load-expected
