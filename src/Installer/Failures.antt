-- ===== src/Installer/Failures.antt =====
-- What a command that fails leaves, and that the data stays.
use aistat.Prelude.{
  ◌≡◌, refl, String, Bool, true, false, ◌||◌, Option, none, some, List, [], ◌∷◌, is_some,
  if◌then◌else◌, ◌∙◌, All, if_false,
}
use aistat.Installer.{
  Disk, Machine, InstallError, Result, failed, retire_legacy, made, swapped, restored,
  install_retired, install, uninstall, activated_previous, unparked, rollback_retired, rollback_to,
  rollback, Command, installs, uninstalls, rolls_back, perform,
}
use aistat.Installer.Generations.{Kept, retire_legacy-Kept}

-- The generation that runs, and the one that a rollback parked, are where they were.
abbrev pub FailsSafe : Disk → Disk × Result → Type 0
FailsSafe d r =
    (e : InstallError) → r.1 ≡ failed e → (r.0.code ≡ d.code) × (r.0.code_hold ≡ d.code_hold)

-- A command that purges, and the data directory after a command.
abbrev pub purges : Command → Bool
purges (uninstalls m purge) = purge
purges _ = false

abbrev Holds : String → Disk × Result → Type 0
Holds content r = r.0.data_dir ≡ some content

if-Holds :
    (b : Bool) (content : String) (r r' : Disk × Result)
    → Holds content r
    → Holds content r'
    → Holds content (if b then r else r')
if-Holds true content r r' h k = h
if-Holds false content r r' h k = k

restored_data_dir :
    (o : Option String) (before d : Disk) → (restored o before d).data_dir ≡ d.data_dir
restored_data_dir none before d = refl
restored_data_dir (some previous) before d = refl

unparked_data_dir :
    (m : Machine) (previous : String) (d : Disk) (o : Option String)
    → (unparked m previous d o).0.data_dir ≡ d.data_dir
unparked_data_dir m previous d none = refl
unparked_data_dir m previous d (some parked) = refl

perform_data_dir :
    (c : Command) (d : Disk) (content : String)
    → purges c ≡ false
    → d.data_dir ≡ some content
    → Holds content (perform c d)
unfolding perform uninstall install rollback Kept
perform_data_dir (installs m none) d content n h = h
perform_data_dir (installs m (some stage)) d content n h =
    if-Holds m.preflight_ok content _ _
      (after (retire_legacy m (swapped stage d)) (retire_legacy-Kept m (swapped stage d))) h
  where
    made_data_dir : made d.data_dir ≡ some content
    made_data_dir = rw h refl

    after :
        (o : Option Disk) → Kept (swapped stage d) o → Holds content (install_retired m stage d o)
    after none k = restored_data_dir d.code d (swapped stage d) ∙ made_data_dir
    after (some d') (g, k) =
        if-Holds (m.starts stage) content _ _ (k ∙ made_data_dir)
          (restored_data_dir d.code d d' ∙ k ∙ made_data_dir)
perform_data_dir (uninstalls m purge) d content n h =
    if-Holds (m.legacy_survives || m.own_survives) content _ _ h (if_false _ _ n ∙ h)
perform_data_dir (rolls_back m) d content n h =
    if-Holds (is_some d.code_hold) content _ _ h (target d.code_prev)
  where
    after :
        (previous : String) (o : Option Disk)
        → Kept d o
        → Holds content (rollback_retired m previous d o)
    after previous none k = h
    after previous (some d') (g, k) =
        if-Holds (m.starts previous) content _ _ (k ∙ h)
          (unparked_data_dir m previous (activated_previous previous d') d'.code ∙ k ∙ h)

    target : (o : Option String) → Holds content (rollback_to m d o)
    target none = h
    target (some previous) =
        if-Holds m.preflight_ok content _ _
          (if-Holds (m.generation_ok previous) content _ _
            (after previous (retire_legacy m d) (retire_legacy-Kept m d)) h)
          h

unfoldable pub run : List Command → Disk → Disk
run [] d = d
run (c ∷ rest) d = run rest (perform c d).0

-- Whatever commands run, and however they end, the data directory keeps its content as long as none
-- of them is an uninstall that purges.
pub run_data_dir :
    (cs : List Command) (d : Disk) (content : String)
    → All (λ c. purges c ≡ false) cs
    → d.data_dir ≡ some content
    → (run cs d).data_dir ≡ some content
unfolding run
run_data_dir [] d content n h = h
run_data_dir (c ∷ rest) d content n h =
    run_data_dir rest (perform c d).0 content n.1 (perform_data_dir c d content n.0 h)
