-- ===== src/Snapshots/Tenants.antt =====
-- The replay watermark of a tenant (aistat/security.py, ensure_tenant, get_tenant,
-- ingest_timestamp_is_fresh and record_tenant_snapshot), on the table `tenants`. `none` is the
-- ValueError of an id that is not canonical or of an unknown user.
use aistat.Prelude.{
  ℕ, ◌≡◌, ◌≤◌, refl, String, Bool, true, false, Option, none, some, List, ltb, if◌then◌else◌, max,
  arith, ==_refl, ap, ◌∙◌, sym, subst,
}
use aistat.Table.{Table, find, upsert, update, find-update}
use aistat.Tenant.{canonical_tenant_id, int}
use aistat.Handoff.State.{is_user}
use aistat.Snapshots.{Watermark}

unfoldable pub get_tenant : ℕ → Table Watermark → Option (Option Watermark)
get_tenant user_id tenants = elim (canonical_tenant_id (int user_id)) [
  | none ↦ none
  | some u ↦ some (find u tenants)
]

unfoldable pub is_fresher : ℕ → Option Watermark → Bool
is_fresher timestamp none = false
is_fresher timestamp (some w) = ltb w.last_ingest_timestamp timestamp

unfoldable pub ingest_timestamp_is_fresh : ℕ → ℕ → Table Watermark → Option Bool
ingest_timestamp_is_fresh user_id timestamp tenants = elim (get_tenant user_id tenants) [
  | none ↦ none
  | some tenant ↦ some (is_fresher timestamp tenant)
]

abbrev pub snapshot_recorded : ℕ → String → ℕ → Watermark → Watermark
snapshot_recorded timestamp sha256 snapshot_at w = record w {
  last_ingest_timestamp = timestamp;
  last_snapshot_at = some snapshot_at;
  last_snapshot_sha256 = some sha256;
}

abbrev pub recorded_if :
    Bool → ℕ → (Watermark → Watermark) → Table Watermark → Table Watermark × Bool
recorded_if true u f tenants = (update u f tenants, true)
recorded_if false u f tenants = (tenants, false)

-- `snapshot_at` is the timestamp where the caller gives none.
unfoldable pub record_tenant_snapshot :
    ℕ → ℕ → String → ℕ → Table Watermark → Option (Table Watermark × Bool)
record_tenant_snapshot user_id timestamp sha256 snapshot_at tenants =
    elim (canonical_tenant_id (int user_id)) [
      | none ↦ none
      | some u ↦ some (
          recorded_if (is_fresher timestamp (find u tenants)) u
            (snapshot_recorded timestamp sha256 snapshot_at) tenants)
    ]

abbrev pub new_tenant : ℕ → ℕ → Watermark
new_tenant now timestamp = record {
  created_at = now;
  last_ingest_timestamp = timestamp;
  last_snapshot_at = none;
  last_snapshot_sha256 = none;
}

abbrev pub raised_to : ℕ → Watermark → Watermark
raised_to timestamp w = record w { last_ingest_timestamp = max w.last_ingest_timestamp timestamp }

-- INSERT OR IGNORE, then the MAX of an initial timestamp; a timestamp of 0 changes nothing.
unfoldable pub tenant_row : ℕ → ℕ → Option Watermark → Watermark
tenant_row now timestamp none = new_tenant now timestamp
tenant_row now timestamp (some w) = raised_to timestamp w

unfoldable pub ensure_tenant :
    List ℕ → ℕ → ℕ → ℕ → Table Watermark → Option (Table Watermark × Watermark)
ensure_tenant users user_id now timestamp tenants = elim (canonical_tenant_id (int user_id)) [
  | none ↦ none
  | some u ↦
      let row = tenant_row now timestamp (find u tenants) in
      if is_user u users then some (upsert u row tenants, row) else none
]

abbrev pub answer_of : Option (Table Watermark × Bool) → Option Bool
answer_of none = none
answer_of (some (tenants, b)) = some b

chosen_answer :
    (b : Bool) (u : ℕ) (f : Watermark → Watermark) (tenants : Table Watermark)
    → answer_of (some (recorded_if b u f tenants)) ≡ some b
chosen_answer true u f tenants = refl
chosen_answer false u f tenants = refl

recorded_answer :
    (u timestamp : ℕ) (sha256 : String) (snapshot_at : ℕ) (tenants : Table Watermark) (o : Option ℕ)
    → canonical_tenant_id (int u) ≡ o
    → answer_of (record_tenant_snapshot u timestamp sha256 snapshot_at tenants)
      ≡ ingest_timestamp_is_fresh u timestamp tenants
unfolding record_tenant_snapshot ingest_timestamp_is_fresh get_tenant
recorded_answer u timestamp sha256 snapshot_at tenants none e =
    rw (e, record_tenant_snapshot, ingest_timestamp_is_fresh, get_tenant) refl
recorded_answer u timestamp sha256 snapshot_at tenants (some k) e =
    rw (e, record_tenant_snapshot, ingest_timestamp_is_fresh, get_tenant, answer_of)
      (chosen_answer (is_fresher timestamp (find k tenants)) k
        (snapshot_recorded timestamp sha256 snapshot_at) tenants)

-- Recording a snapshot succeeds exactly where the check before it says that the upload is fresh, an
-- id that is not canonical included.
pub record_tenant_snapshot-ingest_timestamp_is_fresh :
    (u timestamp : ℕ) (sha256 : String) (snapshot_at : ℕ) (tenants : Table Watermark)
    → answer_of (record_tenant_snapshot u timestamp sha256 snapshot_at tenants)
      ≡ ingest_timestamp_is_fresh u timestamp tenants
record_tenant_snapshot-ingest_timestamp_is_fresh u timestamp sha256 snapshot_at tenants =
    recorded_answer u timestamp sha256 snapshot_at tenants (canonical_tenant_id (int u)) refl

written_stale :
    (u timestamp later : ℕ) (sha256 : String) (snapshot_at : ℕ) (tenants : Table Watermark)
    (o : Option Watermark)
    → find u tenants ≡ o
    → later ≤ timestamp
    → is_fresher later (find u (update u (snapshot_recorded timestamp sha256 snapshot_at) tenants))
      ≡ false
unfolding is_fresher
written_stale u timestamp later sha256 snapshot_at tenants none f l =
    rw (find-update, ==_refl, f) refl
written_stale u timestamp later sha256 snapshot_at tenants (some w) f l =
    rw (find-update, ==_refl, f) (ground arith)

stale_after :
    (b : Bool) (u timestamp later : ℕ) (sha256 : String) (snapshot_at : ℕ)
    (tenants tenants' : Table Watermark)
    → later ≤ timestamp
    → some (recorded_if b u (snapshot_recorded timestamp sha256 snapshot_at) tenants)
      ≡ some (tenants', true)
    → is_fresher later (find u tenants') ≡ false
stale_after true u timestamp later sha256 snapshot_at tenants tenants' l e =
    let same : update u (snapshot_recorded timestamp sha256 snapshot_at) tenants ≡ tenants' = cc in
    subst (λ x. is_fresher later (find u x) ≡ false) same
      (written_stale u timestamp later sha256 snapshot_at tenants (find u tenants) refl l)
stale_after false u timestamp later sha256 snapshot_at tenants tenants' l e = cc

-- For a canonical tenant, after an accepted snapshot every upload whose timestamp is not later is
-- stale.
pub record_tenant_snapshot_again :
    (u timestamp later : ℕ) (sha256 : String) (snapshot_at : ℕ) (tenants tenants' : Table Watermark)
    → canonical_tenant_id (int u) ≡ some u
    → later ≤ timestamp
    → record_tenant_snapshot u timestamp sha256 snapshot_at tenants ≡ some (tenants', true)
    → ingest_timestamp_is_fresh u later tenants' ≡ some false
unfolding record_tenant_snapshot ingest_timestamp_is_fresh get_tenant
record_tenant_snapshot_again u timestamp later sha256 snapshot_at tenants tenants' c l e =
    let opened : record_tenant_snapshot u timestamp sha256 snapshot_at tenants
        ≡ some (
            recorded_if (is_fresher timestamp (find u tenants)) u
              (snapshot_recorded timestamp sha256 snapshot_at) tenants) =
      rw (c, record_tenant_snapshot) refl in
    rw (c, ingest_timestamp_is_fresh, get_tenant)
      (ap some (
        stale_after (is_fresher timestamp (find u tenants)) u timestamp later sha256 snapshot_at
          tenants tenants' l (sym opened ∙ e)))
