-- ===== src/Examples/Avd.antt =====
-- The AVD at concrete inputs.
use android_appliance.Base.{◌≡◌, refl, none, some, List, [], ◌∷◌, true, false}
use android_appliance.Base.Text.{codes}
use android_appliance.Avd.Ini.{Files}
use android_appliance.Avd.Data.{
  Happening, restarts, prepares, writes, boots, happen, happen_all, no_avds,
}
use android_appliance.Avd.Safety.{data_kept}

-- A config.ini that the emulator wrote back, with a unit, and one that misses the other keys.
abbrev adopted_files : Files
adopted_files = record {
  config = codes "hw.ramSize = 2048M" ∷ codes "image.sysdir.1 = img/" ∷ codes "tag.id=x" ∷ [];
  quickboot = none;
  registry = none;
}

abbrev configured_files : Files
configured_files = record {
  config =
      codes "hw.ramSize = 2048M"
      ∷ codes "image.sysdir.1 = img/"
      ∷ codes "tag.id=x"
      ∷ codes "hw.cpu.ncore=4"
      ∷ codes "hw.lcd.width=1080"
      ∷ codes "hw.lcd.height=1920"
      ∷ codes "hw.lcd.density=420"
      ∷ codes "fastboot.forceColdBoot=yes"
      ∷ codes "fastboot.forceFastBoot=no"
      ∷ [];
  quickboot = some (codes "saveOnExit=false\n");
  registry = some (codes "r");
}

-- An AVD that boots while the disk is full, so that only its marker goes, and a daemon that starts
-- again and is killed while it prepares the AVD.
abbrev booted_avd : List Happening
booted_avd =
    restarts (codes "a")
    ∷ prepares (codes "t") true
    ∷ writes
    ∷ boots false true
    ∷ restarts (codes "a")
    ∷ prepares (codes "u") false
    ∷ []

booted_keeps : ((happen_all no_avds booted_avd).dirs (codes "a")).keeps ≡ true
unfolding happen_all happen
booted_keeps = refl

abbrev later : List Happening
later =
    restarts (codes "b")
    ∷ prepares (codes "v") true
    ∷ restarts (codes "a")
    ∷ prepares (codes "w") true
    ∷ []

data_kept_example :
    ((happen_all (happen_all no_avds booted_avd) later).dirs (codes "a")).keeps ≡ true
data_kept_example =
    data_kept booted_avd later (codes "a") (tt, (tt, (tt, (refl, (tt, (tt, tt))))))
      (tt, (tt, (tt, (tt, tt)))) booted_keeps
