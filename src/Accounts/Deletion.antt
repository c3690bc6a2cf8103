-- ===== src/Accounts/Deletion.antt =====
-- What the deletion of an account leaves, and that it stays deleted.
use aistat.Prelude.{
  ◌+◌, if◌then◌else◌, ℕ, ◌≡◌, refl, String, true, false, Option, none, some, All, str_eq, List, [],
  ◌∷◌, ◌==◌, ==_refl, Bool-cases, inl, inr, arith, subst, sym, ◌∙◌, is_some, if_true, if_false,
  case_some,
}
use mathlib.Core.Option
use aistat.Table.{Table, find, delete, find-delete, find-update}
use aistat.Tenant.{canonical_tenant_id, int}
use aistat.Security.{Session}
use aistat.Security.Rows.{Keyed, look, drop_where}
use aistat.Handoff.State.{Connection, revocation_pending}
use aistat.Accounts.{
  Accounts, identity_of, is_admin_row, purged, without, delete_user, delete_found, done, failed,
  owner_protected, Teardown, no_connection, was_revoked, pending, teardown_of, torn_down, tombstone,
  path_of,
}
use aistat.Accounts.Identities.{absent, without_user-absent, unless, identity_of-without_user}
use aistat.Accounts.Invariant.{IsValid}

-- No credential is left: no row, or a tombstone without a token for the worker to acknowledge.
abbrev pub IsTokenFree : Option Connection → Type 0
IsTokenFree none = Unit
IsTokenFree (some row) =
    (row.token ≡ none) × (row.status ≡ revocation_pending) × (row.lease_id ≡ none)

-- Nothing of the user is in any table.
pub record Erased (u : ℕ) (a : Accounts) : Type 0 where
  pub user : find u a.users ≡ none
  pub identities : absent u a.identities ≡ true
  pub sessions : All (λ row. (row.1.user_id == u) ≡ false) a.sessions
  pub tenant : find u a.tenants ≡ none
  pub journal : find u a.journal ≡ none
  pub throttle : find u a.throttle ≡ none
  pub billing : All (λ v. (v == u) ≡ false) a.billing
  pub statistics : All (λ v. (v == u) ≡ false) a.statistics
  pub connection : IsTokenFree (find u a.connections)

-- How many rows are of a user.
unfoldable pub rows_of : ℕ → List ℕ → ℕ
rows_of v [] = 0
rows_of v (w ∷ l) = let others = rows_of v l in if w == v then others + 1 else others

-- Another user finds all its rows.
pub record Untouched (v : ℕ) (a a' : Accounts) : Type 0 where
  pub user : find v a'.users ≡ find v a.users
  pub identities :
      (p s : String)
      → identity_of p s a.identities ≡ some v
      → identity_of p s a'.identities ≡ some v
  pub sessions :
      (sid : String) (row : Session)
      → row.user_id ≡ v
      → look sid a.sessions ≡ some row
      → look sid a'.sessions ≡ some row
  pub tenant : find v a'.tenants ≡ find v a.tenants
  pub journal : find v a'.journal ≡ find v a.journal
  pub throttle : find v a'.throttle ≡ find v a.throttle
  pub billing : rows_of v a'.billing ≡ rows_of v a.billing
  pub statistics : rows_of v a'.statistics ≡ rows_of v a.statistics
  pub connection : find v a'.connections ≡ find v a.connections

pub deleted_none {ℓ} : {V : Type ℓ} (u : ℕ) (m : Table V) → find u (delete u m) ≡ none
deleted_none u m = rw (find-delete, ==_refl) refl

deleted_other {ℓ} :
    {V : Type ℓ} (u v : ℕ) (m : Table V) → (u == v) ≡ false → find v (delete u m) ≡ find v m
deleted_other u v m h = rw (find-delete, h) refl

dropped_sessions :
    (u : ℕ) (m : Keyed Session)
    → All (λ row. (row.1.user_id == u) ≡ false) (drop_where (λ s. s.user_id == u) m)
unfolding drop_where
dropped_sessions u [] = tt
dropped_sessions u ((j, s) ∷ m) = elim (Bool-cases (s.user_id == u)) [
  | inl t ↦ rw t (dropped_sessions u m)
  | inr f ↦ rw f (f, dropped_sessions u m)
]

dropped_numbers : (u : ℕ) (l : List ℕ) → All (λ v. (v == u) ≡ false) (without u l)
unfolding without
dropped_numbers u [] = tt
dropped_numbers u (v ∷ l) = elim (Bool-cases (v == u)) [
  | inl t ↦ rw t (dropped_numbers u l)
  | inr f ↦ rw f (f, dropped_numbers u l)
]

kept_numbers : (u v : ℕ) (l : List ℕ) → (u == v) ≡ false → rows_of v (without u l) ≡ rows_of v l
unfolding without rows_of
kept_numbers u v [] h = refl
kept_numbers u v (w ∷ l) h = elim (Bool-cases (w == u)) [
  | inl t ↦ let other : (w == v) ≡ false = ground arith in rw (t, other) (kept_numbers u v l h)
  | inr f ↦ elim (Bool-cases (w == v)) [
    | inl g ↦ rw (f, g, kept_numbers u v l h) refl
    | inr g ↦ rw (f, g, kept_numbers u v l h) refl
  ]
]

kept_session :
    (u v : ℕ) (sid : String) (row : Session) (m : Keyed Session)
    → (u == v) ≡ false
    → row.user_id ≡ v
    → look sid m ≡ some row
    → look sid (drop_where (λ s. s.user_id == u) m) ≡ some row
unfolding look drop_where
kept_session u v sid row [] h g = λ e. cc
kept_session u v sid row ((j, s) ∷ m) h g = elim (Bool-cases (str_eq j sid)) [
  | inl t ↦ rw t (λ e.
      (let same : s ≡ row = cc in
        let other : (s.user_id == u) ≡ false =
          subst (λ x. (x.user_id == u) ≡ false) (sym same) (rw g (ground arith)) in
        rw (other, t) e))
  | inr f ↦ rw f (λ e. elim (Bool-cases (s.user_id == u)) [
    | inl d ↦ rw d (kept_session u v sid row m h g e)
    | inr d ↦ rw (d, f) (kept_session u v sid row m h g e)
  ])
]

torn_row :
    (u now : ℕ) (m : Table Connection) (t : Teardown) → IsTokenFree (find u (torn_down u now t m))
unfolding torn_down
torn_row u now m no_connection = rw (find-delete, ==_refl) tt
torn_row u now m was_revoked = rw (find-delete, ==_refl) tt
torn_row u now m pending = rw (find-update, ==_refl) (token_free (find u m))
  where
    token_free : (o : Option Connection) → IsTokenFree (Option.map (tombstone now) o)
    token_free none = tt
    token_free (some row) = (refl, refl, refl)

torn_other :
    (u v now : ℕ) (t : Teardown) (m : Table Connection)
    → (u == v) ≡ false
    → find v (torn_down u now t m) ≡ find v m
unfolding torn_down
torn_other u v now no_connection m h = deleted_other u v m h
torn_other u v now was_revoked m h = deleted_other u v m h
torn_other u v now pending m h = rw (find-update, h) refl

purged-Erased : (u now : ℕ) (a : Accounts) → Erased u (purged u now a)
unfolding purged
purged-Erased u now a = record {
  user = deleted_none u a.users;
  identities = without_user-absent u a.identities;
  sessions = dropped_sessions u a.sessions;
  tenant = deleted_none u a.tenants;
  journal = deleted_none u a.journal;
  throttle = deleted_none u a.throttle;
  billing = dropped_numbers u a.billing;
  statistics = dropped_numbers u a.statistics;
  connection = torn_row u now a.connections (teardown_of (find u a.connections));
}

kept_identity : (u v : ℕ) (o : Option ℕ) → (u == v) ≡ false → o ≡ some v → unless u o ≡ some v
kept_identity u v o h e = let other : (v == u) ≡ false = ground arith in rw (e, other) refl

purged-Untouched :
    (u v now : ℕ) (a : Accounts) → (u == v) ≡ false → IsValid a → Untouched v a (purged u now a)
unfolding purged
purged-Untouched u v now a h k = record {
  user = deleted_other u v a.users h;
  identities = λ p s e.
      identity_of-without_user p s u a.identities k.unique
      ∙ kept_identity u v (identity_of p s a.identities) h e;
  sessions = λ sid row g e. kept_session u v sid row a.sessions h g e;
  tenant = deleted_other u v a.tenants h;
  journal = deleted_other u v a.journal h;
  throttle = deleted_other u v a.throttle h;
  billing = kept_numbers u v a.billing h;
  statistics = kept_numbers u v a.statistics h;
  connection = torn_other u v now (teardown_of (find u a.connections)) a.connections h;
}

delete_admin :
    (u now : ℕ) (a : Accounts)
    → canonical_tenant_id (int u) ≡ some u
    → is_admin_row (find u a.users) ≡ true
    → delete_user u now a ≡ (a, failed owner_protected)
unfolding delete_user delete_found
delete_admin u now a c t =
    case_some (canonical_tenant_id (int u)) _ (λ k. delete_found k now a) u c ∙ if_true _ _ t

pub delete_plain :
    (u now : ℕ) (a : Accounts)
    → canonical_tenant_id (int u) ≡ some u
    → is_admin_row (find u a.users) ≡ false
    → delete_user u now a ≡ (
      purged u now a,
      done (record {
        existed = is_some (find u a.users);
        connection_teardown = teardown_of (find u a.connections);
        staged_path = path_of (find u a.journal);
      }),
    )
unfolding delete_user delete_found
delete_plain u now a c f =
    case_some (canonical_tenant_id (int u)) _ (λ k. delete_found k now a) u c ∙ if_false _ _ f

-- The deletion of an account, for a canonical id on valid accounts: an admin is refused and
-- nothing changes; any other id is answered with what the account had, and no row of it is left
-- in any table but a connection without token that waits for the worker, while every other user
-- finds all its rows.
pub delete_user-Erased :
    (u now : ℕ) (a : Accounts)
    → canonical_tenant_id (int u) ≡ some u
    → IsValid a
    → (is_admin_row (find u a.users) ≡ true → delete_user u now a ≡ (a, failed owner_protected))
      × (is_admin_row (find u a.users) ≡ false
          → ((delete_user u now a).1
              ≡ done (record {
                existed = is_some (find u a.users);
                connection_teardown = teardown_of (find u a.connections);
                staged_path = path_of (find u a.journal);
              }))
            × Erased u (delete_user u now a).0
            × ((v : ℕ) → (u == v) ≡ false → Untouched v a (delete_user u now a).0))
delete_user-Erased u now a c k = (
  λ t. delete_admin u now a c t,
  λ f.
      rw (delete_plain u now a c f)
        (refl, purged-Erased u now a, λ v h. purged-Untouched u v now a h k),
)
