-- ===== src/Installer/Tests.antt =====
-- A machine on which an update fails and a rollback works.
use aistat.Prelude.{◌≡◌, refl, String, Bool, true, false, none, some, [], ◌∷◌, str_eq}
use aistat.Installer.{Disk, Machine, installs, uninstalls, rolls_back, rollback}
use aistat.Installer.Failures.{run, run_data_dir}

-- A machine on which one generation starts.
abbrev starting : String → Bool
starting generation = str_eq generation "v1"

abbrev mac : Machine
mac = record {
  preflight_ok = true;
  generation_ok = λ _. true;
  starts = starting;
  legacy_loaded = false;
  legacy_survives = false;
  own_survives = false;
}

abbrev installed : Disk
installed = record {
  code = some "v2";
  code_prev = some "v1";
  code_hold = none;
  data_dir = some "rows";
  plist = true;
  legacy_plist = none;
}

rolled_back : (rollback mac installed).0.code ≡ some "v1"
unfolding rollback
rolled_back = refl

run_data_dir_example :
    (run (installs mac (some "v3") ∷ rolls_back mac ∷ uninstalls mac false ∷ []) installed).data_dir
    ≡ some "rows"
run_data_dir_example =
    run_data_dir (installs mac (some "v3") ∷ rolls_back mac ∷ uninstalls mac false ∷ []) installed
      "rows" (refl, (refl, (refl, tt))) refl
