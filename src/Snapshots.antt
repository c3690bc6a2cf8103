-- ===== src/Snapshots.antt =====
-- The journal of tenant snapshot installs (aistat/snapshot_recovery.py): the watermark and the
-- journal in security.db, and the database files beside it. A crash stops an install between two of
-- its steps; recovery runs after the restart.
pub mod Crash
pub mod Tenants
mod Tests
use aistat.Prelude.{
  ℕ, ◌+◌, String, Bool, true, false, ◌&&◌, not, Option, none, some, List, [], ◌∷◌, ltb, str_eq,
  if◌then◌else◌,
}
use aistat.Table.{Table, find, upsert, update, delete}
use aistat.Tenant.{canonical_tenant_id, int}
use aistat.Security.Rows.{Keyed, look, drop}
use mathlib.Core.Option

-- A row of `tenants`.
pub record Watermark : Type 0 where
  pub created_at : ℕ
  pub last_ingest_timestamp : ℕ
  pub last_snapshot_at : Option ℕ
  pub last_snapshot_sha256 : Option String

-- A row of `snapshot_install_journal`.
pub record Intent : Type 0 where
  pub timestamp : ℕ
  pub sha256 : String
  pub snapshot_at : ℕ
  pub staged_path : String

pub record Disk : Type 0 where
  pub tenants : Table Watermark
  pub journal : Table Intent
  -- the contents of the tenants' databases, of their `.previous` copies and of the staged files
  pub installed : Table String
  pub previous : Table String
  pub staged : Keyed String

-- _unlink_if_exists
abbrev pub unlink : String → Disk → Disk
unlink path d = record d { staged = drop path d.staged }

abbrev pub discard_prior : String → Option Intent → Disk → Disk
discard_prior path none d = d
discard_prior path (some prior) d =
    if str_eq prior.staged_path ""
    then d
    else if str_eq prior.staged_path path
    then d
    else unlink prior.staged_path d

unfoldable pub journal_intent : ℕ → Intent → Disk → Disk
journal_intent u i d =
    discard_prior i.staged_path (find u d.journal) (record d { journal = upsert u i d.journal })

unfoldable pub clear_intent : ℕ → Disk → Disk
clear_intent u d = record d { journal = delete u d.journal }

abbrev pub advanced : Intent → Watermark → Watermark
advanced i w = record w {
  last_ingest_timestamp = i.timestamp;
  last_snapshot_at = some i.snapshot_at;
  last_snapshot_sha256 = some i.sha256;
}

abbrev pub is_newer : Intent → Option Watermark → Bool
is_newer i none = false
is_newer i (some w) = ltb w.last_ingest_timestamp i.timestamp

unfoldable pub commit_intent : ℕ → Intent → Disk → Disk × Bool
commit_intent u i d =
    if is_newer i (find u d.tenants)
    then (
      record d { tenants = update u (advanced i) d.tenants; journal = delete u d.journal },
      true,
    )
    else (record d { journal = delete u d.journal }, false)

-- The three calls; `none` is the ValueError of an id that is not canonical.
unfoldable pub record_install_intent : ℕ → Intent → Disk → Option Disk
record_install_intent user_id i d =
    Option.map (λ u. journal_intent u i d) (canonical_tenant_id (int user_id))

unfoldable pub clear_install_intent : ℕ → Disk → Option Disk
clear_install_intent user_id d =
    Option.map (λ u. clear_intent u d) (canonical_tenant_id (int user_id))

unfoldable pub commit_install : ℕ → Intent → Disk → Option (Disk × Bool)
commit_install user_id i d =
    Option.map (λ u. commit_intent u i d) (canonical_tenant_id (int user_id))

backed_up : ℕ → Option String → Table String → Table String
backed_up u none previous = previous
backed_up u (some content) previous = upsert u content previous

-- swap_staged_into_place, where nothing before the `os.replace` raises; `none` is a missing file.
unfoldable pub swap_staged_into_place : ℕ → String → Disk → Option Disk
unfolding backed_up
swap_staged_into_place u path d =
    Option.map
      (λ content. record d {
        installed = upsert u content d.installed;
        previous = backed_up u (find u d.installed) d.previous;
        staged = drop path d.staged;
      })
      (look path d.staged)

pub data Recovery : Type 0 where
  rolled_forward rolled_back skipped : Recovery

-- `digest` is SHA-256, `within` the test of `_staged_within`, and `swappable` says whether the steps
-- before the `os.replace` succeed.
module _ (digest : String → String) (within : String → Bool) (swappable : ℕ → Bool) where
  abbrev pub has_sha : Option String → String → Bool
  has_sha none sha = false
  has_sha (some content) sha = str_eq (digest content) sha

  abbrev pub roll_back : ℕ → Intent → Disk → Disk × Recovery
  roll_back u i d = (unlink i.staged_path (clear_intent u d), rolled_back)

  unfoldable pub finish_swap : ℕ → Intent → Disk → Option Disk → Disk × Recovery
  finish_swap u i d none = roll_back u i d
  finish_swap u i d (some swapped) =
      if swappable u then ((commit_intent u i swapped).0, rolled_forward) else roll_back u i d

  -- One row of the journal with a canonical id.
  unfoldable pub recover_row : ℕ → Intent → Disk → Disk × Recovery
  unfolding finish_swap
  recover_row u i d =
      if has_sha (find u d.installed) i.sha256
      then (unlink i.staged_path (commit_intent u i d).0, rolled_forward)
      else if has_sha (look i.staged_path d.staged) i.sha256 && within i.staged_path
      then finish_swap u i d (swap_staged_into_place u i.staged_path d)
      else roll_back u i d

  unfoldable pub recover_entry : ℕ → Intent → Disk → Disk × Recovery
  recover_entry user_id i d = elim (canonical_tenant_id (int user_id)) [
    | none ↦ (d, skipped)
    | some u ↦ recover_row u i d
  ]

  recover_rows : List (ℕ × Intent) → Disk → Disk
  recover_rows [] d = d
  recover_rows ((u, i) ∷ rest) d = recover_rows rest (recover_entry u i d).0

  -- The loop over the rows that the SELECT read.
  unfoldable pub recover_pending_installs : Disk → Disk
  unfolding recover_rows
  recover_pending_installs d = recover_rows d.journal d
