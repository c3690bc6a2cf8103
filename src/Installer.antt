-- ===== src/Installer.antt =====
-- The runtime installer (aistat/runtime_install.py): install, uninstall and rollback on the code
-- generations of a machine. Operations on files succeed; what launchd and the preflights answer is
-- an argument of each command.
pub mod Generations
pub mod Failures
mod Tests
use aistat.Prelude.{String, Bool, true, false, ◌||◌, Option, none, some, is_some, if◌then◌else◌}

-- The directories under the runtime root by their content, and the two plists.
pub record Disk : Type 0 where
  pub code : Option String
  pub code_prev : Option String
  pub code_hold : Option String
  pub data_dir : Option String
  pub plist : Bool
  pub legacy_plist : Option String

-- What the commands read from outside. A generation starts where it bootstraps, loads, and, in a
-- rollback, reports a healthy supervisor; a job survives where it is still loaded after a bootout.
pub record Machine : Type 0 where
  pub preflight_ok : Bool
  pub generation_ok : String → Bool
  pub starts : String → Bool
  pub legacy_loaded : Bool
  pub legacy_survives : Bool
  pub own_survives : Bool

pub data InstallError : Type 0 where
  no_package preflight_failed still_loaded not_started : InstallError
  unfinished_rollback no_previous generation_failed recovery_failed : InstallError

pub data Result : Type 0 where
  done : Result
  failed : InstallError → Result

-- `none` as the new content is LaunchError: the legacy job survives its bootout.
abbrev pub retire_legacy : Machine → Disk → Option Disk
retire_legacy m d =
    if m.legacy_loaded || is_some d.legacy_plist
    then if m.legacy_survives then none else some (record d { legacy_plist = none })
    else some d

-- `data.mkdir(exist_ok=True)`
abbrev pub made : Option String → Option String
made none = some ""
made (some content) = some content

-- The staged generation goes to `code`, and the one that was there to `code.prev`.
abbrev pub swapped : String → Disk → Disk
swapped stage d = record d {
  code = some stage;
  code_prev = d.code;
  data_dir = made d.data_dir;
  plist = true;
}

-- `_restore_previous`, and on a first install the removal of the plist and the legacy job's return:
-- `before` is the state that the command found, `d` the one it failed in.
abbrev pub restored : Option String → Disk → Disk → Disk
restored (some previous) before d = record d { code = some previous; code_prev = none }
restored none before d = record d {
  code = none;
  plist = false;
  legacy_plist = if is_some before.legacy_plist then before.legacy_plist else d.legacy_plist;
}

abbrev pub install_retired : Machine → String → Disk → Option Disk → Disk × Result
install_retired m stage before none =
    (restored before.code before (swapped stage before), failed still_loaded)
install_retired m stage before (some d) =
    if m.starts stage then (d, done) else (restored before.code before d, failed not_started)

-- `none` as the stage is a directory without the package.
unfoldable pub install : Machine → Option String → Disk → Disk × Result
install m none d = (d, failed no_package)
install m (some stage) d =
    if m.preflight_ok
    then install_retired m stage d (retire_legacy m (swapped stage d))
    else (d, failed preflight_failed)

unfoldable pub uninstall : Machine → Bool → Disk → Disk × Result
uninstall m purge d = if m.legacy_survives || m.own_survives then (d, failed still_loaded) else (
  record {
    code = none;
    code_prev = none;
    code_hold = none;
    data_dir = if purge then none else d.data_dir;
    plist = false;
    legacy_plist = none;
  },
  done,
)

-- `_activate_previous` and the new plist.
abbrev pub activated_previous : String → Disk → Disk
activated_previous previous d = record d {
  code = some previous;
  code_prev = none;
  code_hold = d.code;
  plist = true;
}

-- `_restore_parked_generation`: the rejected copy goes back to `code.prev`; where nothing was parked
-- the second rename fails.
abbrev pub unparked : Machine → String → Disk → Option String → Disk × Result
unparked m previous d none =
    (record d { code = none; code_prev = some previous }, failed recovery_failed)
unparked m previous d (some parked) = (
  record d { code = some parked; code_prev = some previous; code_hold = none },
  failed (if m.starts parked then not_started else recovery_failed),
)

abbrev pub rollback_retired : Machine → String → Disk → Option Disk → Disk × Result
rollback_retired m previous before none = (before, failed still_loaded)
rollback_retired m previous before (some d) =
    if m.starts previous
    then (record (activated_previous previous d) { code_hold = none }, done)
    else unparked m previous (activated_previous previous d) d.code

abbrev pub rollback_to : Machine → Disk → Option String → Disk × Result
rollback_to m d none = (d, failed no_previous)
rollback_to m d (some previous) =
    if m.preflight_ok
    then if m.generation_ok previous
      then rollback_retired m previous d (retire_legacy m d)
      else (d, failed generation_failed)
    else (d, failed preflight_failed)

unfoldable pub rollback : Machine → Disk → Disk × Result
rollback m d =
    if is_some d.code_hold then (d, failed unfinished_rollback) else rollback_to m d d.code_prev

pub data Command : Type 0 where
  installs : Machine → Option String → Command
  uninstalls : Machine → Bool → Command
  rolls_back : Machine → Command

unfoldable pub perform : Command → Disk → Disk × Result
perform (installs m stage) d = install m stage d
perform (uninstalls m purge) d = uninstall m purge d
perform (rolls_back m) d = rollback m d
