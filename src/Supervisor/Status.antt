-- ===== src/Supervisor/Status.antt =====
-- That the status file tells the truth.
use aistat.Prelude.{◌⊎◌, ◌≡◌, Bool, false, some, List}
use aistat.Supervisor.{ChildState, Supervisor, Visit, Visits, payload}

-- The status file describes the supervisor.
abbrev pub IsCurrent : Supervisor → Type 0
IsCurrent v = v.status ≡ some (payload v)

-- A child that is not reported as changed is the same.
abbrev IsFaithful : ChildState → Visit → Type 0
IsFaithful s v = v.changed ≡ false → v.child ≡ s

abbrev AllFaithful : List ChildState → Visits → Type 0
AllFaithful l r = r.any_changed ≡ false → r.visited ≡ l

-- The status file describes the supervisor, or it could not be written and is the one from before.
abbrev pub IsReported : Bool → Supervisor → Supervisor → Type 0
IsReported writable v v' = IsCurrent v' ⊎ ((writable ≡ false) × (v'.status ≡ v.status))
