-- ===== src/Accounts/Afterwards.antt =====
-- A deleted account stays deleted: nothing that comes later brings its id back, and a late upload
-- of its snapshot is not recorded.
use aistat.Prelude.{
  ℕ, ◌+◌, ◌≤◌, ◌<◌, ◌≡◌, ◌≢◌, ◌⊎◌, refl, String, true, false, Option, none, some, List, [], ◌∷◌,
  ◌==◌, Bool-cases, inl, inr, arith, ◌∙◌, is_some, case_some,
}
use aistat.Table.{Table, find, upsert, delete, update, find-upsert, find-delete, find-update}
use aistat.Tenant.{canonical_tenant_id, int}
use aistat.Snapshots.{Watermark}
use aistat.Snapshots.Tenants.{record_tenant_snapshot, recorded_if, is_fresher, snapshot_recorded}
use aistat.Accounts.{
  User, Accounts, identity_of, is_admin_row, purged, created_identity, promoted, delete_user,
}
use aistat.Accounts.Invariant.{Issued, IsValid, purged-IsValid}
use aistat.Accounts.Deletion.{delete_plain, deleted_none}
use aistat.Accounts.Calls.{
  Call, run, Step, refused, known, created, registered, attached, owner_known, promotes, founds,
  deleted,
}
use aistat.Accounts.Steps.{perform-Step}
use aistat.Accounts.Registry.{run-IsValid}

-- The id was issued once and nothing of it is there.
abbrev pub IsGone : ℕ → Accounts → Type 0
IsGone u a = (u ≤ a.last_user_id) × (find u a.users ≡ none) × (find u a.tenants ≡ none)

module _ {ℓ} {V : Type ℓ} where
  upsert_other :
      (n u : ℕ) (v : V) (m : Table V) → u ≤ n → find u m ≡ none → find u (upsert (n + 1) v m) ≡ none
  upsert_other n u v m h e =
      let other : (n + 1 == u) ≡ false = ground arith in rw (find-upsert, other) e

  still_none : (k u : ℕ) (m : Table V) → find u m ≡ none → find u (delete k m) ≡ none
  still_none k u m e =
      rw find-delete (elim (Bool-cases (k == u)) [ inl t ↦ rw t refl | inr f ↦ rw f e ])

Step-IsGone :
    (c : Call) (a a' : Accounts) (r : Option ℕ) (u : ℕ) → Step c a a' r → IsGone u a → IsGone u a'
unfolding created_identity purged
Step-IsGone c a a' r u refused g = g
Step-IsGone c a a' r u (known p s w h e) g = g
Step-IsGone c a a' r u (created p s email name now h e) (l, e', t) =
    (omega arith, upsert_other a.last_user_id u _ a.users l e', t)
Step-IsGone c a a' r u (registered p s email name now h e) (l, e', t) = (
  omega arith,
  upsert_other a.last_user_id u _ a.users l e',
  upsert_other a.last_user_id u _ a.tenants l t,
)
Step-IsGone c a a' r u (attached p s owner email now h e t) g = g
Step-IsGone c a a' r u (owner_known w h) g = g
Step-IsGone c a a' r u (promotes w h k) (l, e', t) = (l, not_revived w u a.users e', t)
  where
    not_revived :
        (w' u' : ℕ) (m : Table User) → find u' m ≡ none → find u' (update w' promoted m) ≡ none
    not_revived w' u' m e =
        rw find-update (elim (Bool-cases (w' == u')) [ inl b ↦ rw (b, e) refl | inr b ↦ rw b e ])
Step-IsGone c a a' r u (founds name email now h k) (l, e', t) =
    (omega arith, upsert_other a.last_user_id u _ a.users l e', t)
Step-IsGone c a a' r u (deleted w now h f) (l, e', t) =
    (l, still_none w u a.users e', still_none w u a.tenants t)

missing {ℓ κ} : {A : Type ℓ} {V : Type κ} (o : Option V) → is_some o ≡ true → o ≡ none → A
missing o h e = cc

le_total : (u n : ℕ) → (u ≤ n) ⊎ (n < u)
le_total u n = omega arith

late_upload :
    (u timestamp snapshot_at : ℕ) (sha256 : String) (tenants : Table Watermark)
    → canonical_tenant_id (int u) ≡ some u
    → find u tenants ≡ none
    → record_tenant_snapshot u timestamp sha256 snapshot_at tenants ≡ some (tenants, false)
unfolding record_tenant_snapshot is_fresher
late_upload u timestamp snapshot_at sha256 tenants c e =
    case_some (canonical_tenant_id (int u)) none
      (λ k. some (
        recorded_if (is_fresher timestamp (find k tenants)) k
          (snapshot_recorded timestamp sha256 snapshot_at) tenants))
      u c
    ∙ rw e refl

known_id : (n u : ℕ) (users : Table User) → Issued n users → is_some (find u users) ≡ true → u ≤ n
known_id n u users k e = elim (le_total u n) [
  | inl l ↦ l
  | inr l ↦ missing (find u users) e (k u l)
]

purged-IsGone : (u now : ℕ) (a : Accounts) → u ≤ a.last_user_id → IsGone u (purged u now a)
unfolding purged
purged-IsGone u now a l = (l, deleted_none u a.users, deleted_none u a.tenants)

module _ (strip_lower sql_lower : String → String) where
  run-IsGone :
      (cs : List Call) (a : Accounts) (u : ℕ)
      → IsGone u a
      → IsGone u (run strip_lower sql_lower cs a)
  unfolding run
  run-IsGone [] a u g = g
  run-IsGone (c ∷ rest) a u g =
      run-IsGone rest _ u (Step-IsGone c a _ _ u (perform-Step strip_lower sql_lower c a) g)

  -- After the deletion of a user that is there and is no admin, with a canonical id on valid
  -- accounts, and after any later run of calls: no row of the user, no subject that leads to it, no
  -- tenant, and an upload of its snapshot is not recorded and changes nothing.
  pub run-delete_user :
      (u now : ℕ) (a : Accounts) (cs : List Call)
      → canonical_tenant_id (int u) ≡ some u
      → is_admin_row (find u a.users) ≡ false
      → is_some (find u a.users) ≡ true
      → IsValid a
      → let a' = run strip_lower sql_lower cs (delete_user u now a).0 in
        (find u a'.users ≡ none)
        × ((p s : String) → identity_of p s a'.identities ≢ some u)
        × ((timestamp snapshot_at : ℕ) (sha256 : String)
            → record_tenant_snapshot u timestamp sha256 snapshot_at a'.tenants
              ≡ some (a'.tenants, false))
  run-delete_user u now a cs c f e v =
      let a' = run strip_lower sql_lower cs (purged u now a) in
      let valid : IsValid a' =
        run-IsValid strip_lower sql_lower cs (purged u now a) (purged-IsValid u now a v) in
      let gone : IsGone u a' =
        run-IsGone cs (purged u now a) u
          (purged-IsGone u now a (known_id a.last_user_id u a.users v.users_issued e)) in
      rw (delete_plain u now a c f) (
        gone.1,
        λ p s h. missing (find u a'.users) (valid.owned p s u h) gone.1,
        λ timestamp snapshot_at sha256.
            late_upload u timestamp snapshot_at sha256 a'.tenants c gone.2,
      )
