-- ===== src/Snapshots/Tests.antt =====
-- An install that a crash stops right after its intent was journaled.
use aistat.Prelude.{◌≡◌, refl, String, true, false, some, [], ◌∷◌, arith}
use aistat.Table.{find, update, Table}
use aistat.Snapshots.Tenants.{
  record_tenant_snapshot, is_fresher, ingest_timestamp_is_fresh, answer_of,
  record_tenant_snapshot-ingest_timestamp_is_fresh, record_tenant_snapshot_again,
}
use aistat.Tenant.{canonical_tenant_id, int, in_range}
use aistat.Security.Rows.{look}
use aistat.Snapshots.{Watermark, Intent, Disk, recover_pending_installs}
use aistat.Snapshots.Crash.{Settled, crashed, journaled, recover_pending_installs-crashed}

abbrev digest : String → String
digest content = content

abbrev watermark : Watermark
watermark = record {
  created_at = 10;
  last_ingest_timestamp = 100;
  last_snapshot_at = some 100;
  last_snapshot_sha256 = some "old";
}

abbrev upload : Intent
upload = record { timestamp = 200; sha256 = "new"; snapshot_at = 190; staged_path = "tenants/tmp" }

abbrev disk : Disk
disk = record {
  tenants = (7, watermark) ∷ [];
  journal = [];
  installed = (7, "old") ∷ [];
  previous = [];
  staged = ("tenants/tmp", "new") ∷ [];
}

seven : canonical_tenant_id (int 7) ≡ some 7
unfolding canonical_tenant_id in_range
seven = refl

tenant_found : find 7 disk.tenants ≡ some watermark
unfolding find
tenant_found = refl

staged_found : look "tenants/tmp" disk.staged ≡ some "new"
unfolding look
staged_found = refl

recover_pending_installs-crashed_example :
    Settled digest
      (λ path. true)
      (λ u. true)
      7
      upload
      watermark
      disk
      (recover_pending_installs digest
        (λ path. true)
        (λ u. true)
        (crashed digest (λ path. true) (λ u. true) 7 upload watermark journaled disk))
recover_pending_installs-crashed_example =
    recover_pending_installs-crashed digest (λ path. true) (λ u. true) 7 upload watermark seven
      journaled disk "new" refl tenant_found (omega arith) staged_found refl

abbrev advanced_tenants : Table Watermark
advanced_tenants =
    (
      7,
      record watermark {
        last_ingest_timestamp = 200;
        last_snapshot_at = some 190;
        last_snapshot_sha256 = some "new";
      },
    )
    ∷ []

recorded :
    record_tenant_snapshot 7 200 "new" 190 ((7, watermark) ∷ []) ≡ some (advanced_tenants, true)
unfolding record_tenant_snapshot canonical_tenant_id in_range find update is_fresher
recorded = refl

record_tenant_snapshot_again_example : ingest_timestamp_is_fresh 7 150 advanced_tenants ≡ some false
record_tenant_snapshot_again_example =
    record_tenant_snapshot_again 7 200 150 "new" 190 ((7, watermark) ∷ []) advanced_tenants seven
      (omega arith) recorded

record_tenant_snapshot-ingest_timestamp_is_fresh_example :
    answer_of (record_tenant_snapshot 7 200 "new" 190 ((7, watermark) ∷ []))
    ≡ ingest_timestamp_is_fresh 7 200 ((7, watermark) ∷ [])
record_tenant_snapshot-ingest_timestamp_is_fresh_example =
    record_tenant_snapshot-ingest_timestamp_is_fresh 7 200 "new" 190 ((7, watermark) ∷ [])
