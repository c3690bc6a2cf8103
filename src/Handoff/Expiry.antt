-- ===== src/Handoff/Expiry.antt =====
-- That a plaintext token does not outlive its time to live unnoticed.
use aistat.Prelude.{ℕ, ◌≡◌, false, Option, arith}
use aistat.Table.{Rows, Table}
use mathlib.Core.Option
use aistat.Handoff.State.{Connection, Host}
use aistat.Handoff.Intake.{is_expired, purge_row, erased}

-- No row is a pending one whose time is over.
abbrev pub NoneExpired : ℕ → ℕ → Host → Type 0
NoneExpired ttl now h = Rows (λ _ c. is_expired ttl now c ≡ false) h.connections

purged : (ttl now : ℕ) (c : Connection) → is_expired ttl now (purge_row ttl now c) ≡ false
unfolding is_expired purge_row erased
purged ttl now c = ground arith
