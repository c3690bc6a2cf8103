-- ===== src/Snapshots/Crash.antt =====
-- That an install which a crash interrupts recovers to the old state or to the new one.
use aistat.Prelude.{
  ℕ, ◌≡◌, ◌<◌, ◌⊎◌, refl, String, Bool, true, false, Option, none, some, [], ◌∷◌, arith, ltb,
  str_eq, if◌then◌else◌, Bool-cases, inl, inr, ◌&&◌, ==_refl, subst, sym, ap, ◌∙◌,
}
use aistat.Table.{find, upsert, delete, find-upsert, find-update, find-delete}
use aistat.Tenant.{canonical_tenant_id, int}
use aistat.Security.Rows.{look, drop}
use aistat.Snapshots.{
  Watermark, Intent, Disk, unlink, discard_prior, journal_intent, clear_intent, commit_intent,
  swap_staged_into_place, backed_up, has_sha, roll_back, finish_swap, recover_row, recover_entry,
  recover_rows, recover_pending_installs, Recovery,
}

module _ (digest : String → String) (within : String → Bool) (swappable : ℕ → Bool) (u : ℕ)
    (i : Intent) (w : Watermark) where
  -- A database whose digest is that of the upload.
  abbrev pub Matches : Option String → Type 0
  Matches none = ⊥
  Matches (some content) = str_eq (digest content) i.sha256 ≡ true

  matching : (o : Option String) → has_sha digest within swappable o i.sha256 ≡ true → Matches o
  matching none k = cc
  matching (some content) k = k

  -- The old database and the old watermark.
  pub record IsOld (d e : Disk) : Type 0 where
    pub kept : find u e.installed ≡ find u d.installed
    pub watermark : find u e.tenants ≡ some w
    pub settled : find u e.journal ≡ none

  -- A database with the digest of the upload and the watermark of the upload.
  pub record IsNew (e : Disk) : Type 0 where
    pub replaced : Matches (find u e.installed)
    pub watermark :
        find u e.tenants
        ≡ some (record {
          created_at = w.created_at;
          last_ingest_timestamp = i.timestamp;
          last_snapshot_at = some i.snapshot_at;
          last_snapshot_sha256 = some i.sha256;
        })
    pub settled : find u e.journal ≡ none

  committed :
      (e : Disk)
      → find u e.tenants ≡ some w
      → w.last_ingest_timestamp < i.timestamp
      → has_sha digest within swappable (find u e.installed) i.sha256 ≡ true
      → IsNew (commit_intent u i e).0
  unfolding commit_intent
  committed e f l k =
      let newer : ltb w.last_ingest_timestamp i.timestamp ≡ true = ground arith in
      rw (f, newer, commit_intent)
        (record {
          replaced = matching (find u e.installed) k;
          watermark = rw (find-update, ==_refl, f) refl;
          settled = rw (find-delete, ==_refl) refl;
        })

  rolled :
      (e : Disk) → find u e.tenants ≡ some w → IsOld e (roll_back digest within swappable u i e).0
  unfolding clear_intent
  rolled e f = record { kept = refl; watermark = f; settled = rw (find-delete, ==_refl) refl }

  unlinked : (e : Disk) → IsNew e → IsNew (unlink i.staged_path e)
  unlinked e k = record { replaced = k.replaced; watermark = k.watermark; settled = k.settled }

  abbrev pub Settled : Disk → Disk → Type 0
  Settled d e = IsOld d e ⊎ IsNew e

  swapped_settles :
      (e : Disk) (content : String)
      → find u e.tenants ≡ some w
      → w.last_ingest_timestamp < i.timestamp
      → look i.staged_path e.staged ≡ some content
      → str_eq (digest content) i.sha256 ≡ true
      → Settled e
          (finish_swap digest within swappable u i e (swap_staged_into_place u i.staged_path e)).0
  unfolding finish_swap swap_staged_into_place backed_up
  swapped_settles e content f l s k = elim (Bool-cases (swappable u)) [
    | inl t ↦ rw (s, t) (inr (committed _ f l (rw (find-upsert, ==_refl) k)))
    | inr n ↦ rw (s, n) (inl (rolled e f))
  ]

  picked :
      (d : Disk) (b : Bool) (x y : Disk × Recovery)
      → (b ≡ true → Settled d x.0)
      → (b ≡ false → Settled d y.0)
      → Settled d (if b then x else y).0
  picked d true x y h k = h refl
  picked d false x y h k = k refl

  first : (a b : Bool) → (a && b) ≡ true → a ≡ true
  first true b h = refl
  first false b h = h

  staged_settles :
      (e : Disk) (o : Option String)
      → find u e.tenants ≡ some w
      → w.last_ingest_timestamp < i.timestamp
      → look i.staged_path e.staged ≡ o
      → has_sha digest within swappable o i.sha256 ≡ true
      → Settled e
          (finish_swap digest within swappable u i e (swap_staged_into_place u i.staged_path e)).0
  staged_settles e none f l s k = cc
  staged_settles e (some content) f l s k = swapped_settles e content f l s k

  row_settles :
      (e : Disk)
      → find u e.tenants ≡ some w
      → w.last_ingest_timestamp < i.timestamp
      → Settled e (recover_row digest within swappable u i e).0
  unfolding recover_row
  row_settles e f l =
      let staged = look i.staged_path e.staged in
      picked e (has_sha digest within swappable (find u e.installed) i.sha256) _ _
        (λ b. inr (unlinked (commit_intent u i e).0 (committed e f l b)))
        (λ _.
          picked e (has_sha digest within swappable staged i.sha256 && within i.staged_path) _ _
            (λ b.
              staged_settles e staged f l refl
                (first (has_sha digest within swappable staged i.sha256) (within i.staged_path) b))
            (λ _. inl (rolled e f)))

  abbrev pub swapped_or : Disk → Option Disk → Disk
  swapped_or d none = d
  swapped_or d (some e) = e

  -- How far the install came before the crash: the intent is journaled, the file is swapped, the
  -- watermark is committed.
  pub data Reached : Type 0 where
    journaled swapped done : Reached

  unfoldable pub crashed : Reached → Disk → Disk
  crashed journaled d = journal_intent u i d
  crashed swapped d =
      let e = journal_intent u i d in swapped_or e (swap_staged_into_place u i.staged_path e)
  crashed done d =
      let e = journal_intent u i d in
      (commit_intent u i (swapped_or e (swap_staged_into_place u i.staged_path e))).0

  recover_row-IsNew :
      (e : Disk)
      → find u e.tenants ≡ some w
      → w.last_ingest_timestamp < i.timestamp
      → has_sha digest within swappable (find u e.installed) i.sha256 ≡ true
      → IsNew (recover_row digest within swappable u i e).0
  unfolding recover_row
  recover_row-IsNew e f l k =
      rw (k, recover_row) (unlinked (commit_intent u i e).0 (committed e f l k))

  abbrev opened_disk : Disk → Disk
  opened_disk d = record d { journal = (u, i) ∷ [] }

  opened : (d : Disk) → d.journal ≡ [] → journal_intent u i d ≡ opened_disk d
  unfolding journal_intent find upsert
  opened d j =
      ap (λ l. discard_prior i.staged_path (find u l) (record d { journal = upsert u i l })) j

  abbrev replaced_disk : String → Disk → Disk
  replaced_disk content d = record (opened_disk d) {
    installed = upsert u content d.installed;
    previous = backed_up u (find u d.installed) d.previous;
    staged = drop i.staged_path d.staged;
  }

  before : (d : Disk) {e : Disk} → Settled (opened_disk d) e → Settled d e
  before d (inl k) = inl (record { kept = k.kept; watermark = k.watermark; settled = k.settled })
  before d (inr k) = inr k

  replaced_sha :
      (content : String) (d : Disk)
      → str_eq (digest content) i.sha256 ≡ true
      → has_sha digest within swappable (find u (replaced_disk content d).installed) i.sha256 ≡ true
  replaced_sha content d k = rw (find-upsert, ==_refl) k

  swap_done :
      (d : Disk) (content : String)
      → look i.staged_path d.staged ≡ some content
      → swapped_or (opened_disk d) (swap_staged_into_place u i.staged_path (opened_disk d))
        ≡ replaced_disk content d
  unfolding swap_staged_into_place
  swap_done d content s = rw s refl

  settled_journal :
      (e : Disk)
      → find u e.tenants ≡ some w
      → w.last_ingest_timestamp < i.timestamp
      → e.journal ≡ (u, i) ∷ []
      → (commit_intent u i e).0.journal ≡ []
  unfolding commit_intent delete
  settled_journal e f l j =
      let newer : ltb w.last_ingest_timestamp i.timestamp ≡ true = ground arith in
      rw (f, newer, commit_intent, j, ==_refl u) refl

  module _ (canonical : canonical_tenant_id (int u) ≡ some u) where
    -- Recovery of a disk whose only intent is this one.
    recovered :
        (e : Disk)
        → e.journal ≡ (u, i) ∷ []
        → recover_pending_installs digest within swappable e
          ≡ (recover_row digest within swappable u i e).0
    unfolding recover_pending_installs recover_rows recover_entry
    recovered e j =
        ap (λ l. recover_rows digest within swappable l e) j
        ∙ rw (canonical, recover_rows, recover_entry) refl

    idle : (e : Disk) → e.journal ≡ [] → recover_pending_installs digest within swappable e ≡ e
    unfolding recover_pending_installs recover_rows
    idle e j = ap (λ l. recover_rows digest within swappable l e) j

    -- For a canonical tenant with a watermark older than the upload, no other install in flight and
    -- a staged file with the digest of the upload: wherever a crash stops the install, recovery
    -- leaves either the old database with the old watermark, or a database with the digest of the
    -- upload and its watermark, and no intent; never a mixture.
    pub recover_pending_installs-crashed :
        (c : Reached) (d : Disk) (content : String)
        → d.journal ≡ []
        → find u d.tenants ≡ some w
        → w.last_ingest_timestamp < i.timestamp
        → look i.staged_path d.staged ≡ some content
        → str_eq (digest content) i.sha256 ≡ true
        → Settled d (recover_pending_installs digest within swappable (crashed c d))
    unfolding crashed
    recover_pending_installs-crashed journaled d content j f l s k =
        rw (opened d j, recovered (opened_disk d) refl) (before d (row_settles (opened_disk d) f l))
    recover_pending_installs-crashed swapped d content j f l s k =
        rw (opened d j, swap_done d content s, recovered (replaced_disk content d) refl)
          (inr (recover_row-IsNew (replaced_disk content d) f l (replaced_sha content d k)))
    recover_pending_installs-crashed done d content j f l s k =
        let e : Disk = (commit_intent u i (replaced_disk content d)).0 in
        let same : swapped_or (journal_intent u i d)
              (swap_staged_into_place u i.staged_path (journal_intent u i d))
            ≡ replaced_disk content d =
          ap (λ x. swapped_or x (swap_staged_into_place u i.staged_path x)) (opened d j)
          ∙ swap_done d content s in
        subst (λ x. Settled d (recover_pending_installs digest within swappable x))
          (sym (ap (λ x. (commit_intent u i x).0) same))
          (rw (idle e (settled_journal (replaced_disk content d) f l refl))
            (inr (committed (replaced_disk content d) f l (replaced_sha content d k))))
