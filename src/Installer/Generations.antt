-- ===== src/Installer/Generations.antt =====
-- No command loses the running generation where it fails, nor the data.
use aistat.Prelude.{
  ◌≡◌, refl, String, Bool, true, false, ◌||◌, Option, none, some, is_some, if◌then◌else◌, ◌⊎◌,
}
use aistat.Installer.{Disk, Machine, InstallError, Result, done, failed, retire_legacy}

-- The three places of a generation hold what they held.
abbrev pub SameGenerations : Disk → Disk → Type 0
SameGenerations d d' =
    (d'.code ≡ d.code) × (d'.code_prev ≡ d.code_prev) × (d'.code_hold ≡ d.code_hold)

-- What a rollback may leave.
abbrev pub RollsBack : Machine → Disk → Disk × Result → Type 0
RollsBack m d r =
    ((e : InstallError) × (r.1 ≡ failed e) × SameGenerations d r.0)
    ⊎ ((previous : String) × (d.code_prev ≡ some previous)
        × (m.generation_ok previous ≡ true)
        × (m.starts previous ≡ true)
        × (r.1 ≡ done)
        × (r.0.code ≡ some previous)
        × (r.0.code_prev ≡ none)
        × (r.0.code_hold ≡ none))

-- The retirement of the legacy job touches no generation.
unfoldable pub Kept : Disk → Option Disk → Type 0
Kept d none = Unit
Kept d (some d') = SameGenerations d d' × (d'.data_dir ≡ d.data_dir)

if-Kept :
    (b : Bool) (d : Disk) (o o' : Option Disk) → Kept d o → Kept d o' → Kept d (if b then o else o')
if-Kept true d o o' h k = h
if-Kept false d o o' h k = k

pub retire_legacy-Kept : (m : Machine) (d : Disk) → Kept d (retire_legacy m d)
unfolding Kept
retire_legacy-Kept m d =
    if-Kept (m.legacy_loaded || is_some d.legacy_plist) d _ _
      (if-Kept m.legacy_survives d none (some (record d { legacy_plist = none })) tt
        ((refl, refl, refl), refl))
      ((refl, refl, refl), refl)
