-- ===== src/WorkerStore/Watermark.antt =====
-- How the rows of one user move: the version watermark of the worker store.
use aistat.Prelude.{
  ℕ, ◌≡◌, ◌≤◌, ◌<◌, refl, inl, inr, String, Option, none, some, arith, ltb, ◌==◌, ==_iff,
  Option-cases, Bool-cases, subst, sym,
}
use aistat.Table.{find, find-upsert, find-delete}
use aistat.Tenant.{canonical_tenant_id, int}
use aistat.Handoff.State.{Result-cases, official_multica_url}
use aistat.Handoff.Validation.{normalize_official_server_url}
use aistat.WorkerStore.{
  Row, State, stored, revoked, Version, Store, Fernet, write_credential, credential_row,
  version_row, delete_same, delete_explicit, delete_current, delete_implicit, finish, store_version,
  store_token, write_tombstone, delete_version, delete_connection,
}

-- A watermark below an epoch, and one that a tombstone of the epoch may replace.
abbrev pub Below : Option Version → ℕ → Type 0
Below none e = Unit
Below (some v) e = v.token_epoch < e

abbrev pub AtMost : Option Version → ℕ → Type 0
AtMost none e = Unit
AtMost (some v) e = v.token_epoch ≤ e

-- The moves of the rows of user `j`: none, a newer credential, or a tombstone. `E j e` says where a
-- new epoch comes from.
pub data Moves (E : ℕ → ℕ → Type 0) (j : ℕ) (r : Option Row) (v : Option Version) (r' : Option Row)
    (v' : Option Version) : Type 0 where
  stays : r' ≡ r → v' ≡ v → Moves E j r v r' v'
  writes :
      (row : Row) (version : Version)
      → r' ≡ some row
      → v' ≡ some version
      → row.token_epoch ≡ version.token_epoch
      → version.state ≡ stored
      → Below v version.token_epoch
      → E j version.token_epoch
      → Moves E j r v r' v'
  buries :
      (version : Version)
      → r' ≡ none
      → v' ≡ some version
      → version.state ≡ revoked
      → AtMost v version.token_epoch
      → E j version.token_epoch
      → Moves E j r v r' v'

-- The rows of user `j` before and after.
abbrev pub Moved : (ℕ → ℕ → Type 0) → Store → Store → ℕ → Type 0
Moved E s s' j =
    Moves E j (find j s.connections) (find j s.versions) (find j s'.connections)
      (find j s'.versions)

Moved-refl : {E : ℕ → ℕ → Type 0} (s : Store) (j : ℕ) → Moved E s s j
Moved-refl s j = stays refl refl

module _ {E : ℕ → ℕ → Type 0} (fernet : Fernet) where
  write-Moved :
      (seed u : ℕ) (url : String) (label : Option String) (token : String) (epoch now : ℕ)
      (s : Store)
      → Below (find u s.versions) epoch
      → E u epoch
      → (j : ℕ) → Moved E s (write_credential fernet seed u url label token epoch now s) j
  unfolding write_credential
  write-Moved seed u url label token epoch now s b x j = elim (Bool-cases (u == j)) [
    | inr e ↦ stays (rw (find-upsert, e)) (rw (find-upsert, e))
    | inl e ↦
        writes (credential_row fernet seed url label token epoch now) (version_row epoch stored now)
          (rw (find-upsert, e)) (rw (find-upsert, e)) refl refl
          (subst (λ k. Below (find k s.versions) epoch) ((==_iff u j).0 e) b)
          (subst (λ k. E k epoch) ((==_iff u j).0 e) x)
  ]

  version-Moved :
      (seed u : ℕ) (url : String) (label : Option String) (token : String) (epoch now : ℕ)
      (s : Store) (v : Option Version)
      → find u s.versions ≡ v
      → E u epoch
      → (j : ℕ) → Moved E s (store_version fernet seed u url label token epoch now s v).0 j
  unfolding store_version
  version-Moved seed u url label token epoch now s none e x =
      write-Moved seed u url label token epoch now s (rw e tt) x
  version-Moved seed u url label token epoch now s (some v) e x =
      elim (Bool-cases (ltb epoch v.token_epoch)) [
        | inl lt ↦ rw (lt, store_version) (Moved-refl s)
        | inr ge ↦ elim (Bool-cases (epoch == v.token_epoch)) [
          | inl eq ↦ rw (ge, store_version, eq) (Moved-refl s)
          | inr ne ↦
              rw (ge, store_version, ne)
                (write-Moved seed u url label token epoch now s (rw e (ground arith)) x)
        ]
      ]

  pub store-Moved :
      (seed u : ℕ) (url : String) (label : Option String) (token : String) (epoch now : ℕ)
      (s : Store)
      → ((k : ℕ) → canonical_tenant_id (int u) ≡ some k → E k epoch)
      → (j : ℕ) → Moved E s (store_token fernet seed u url label token epoch now s).0 j
  unfolding store_token
  store-Moved seed u url label token epoch now s x =
      elim (Result-cases (normalize_official_server_url (some url) official_multica_url)) [
        | inr (r, e) ↦ rw (e, store_token) (Moved-refl s)
        | inl (official, e) ↦ elim (Option-cases (canonical_tenant_id (int u))) [
          | inl n ↦ rw (e, store_token, n) (Moved-refl s)
          | inr (k, n) ↦
              rw (e, store_token, n)
                (version-Moved seed k official label token epoch now s (find k s.versions) refl
                  (x k n))
        ]
      ]

-- The epoch that a deletion names, or the current one.
abbrev pub Named : (ℕ → ℕ → Type 0) → Store → ℕ → Option ℕ → Type 0
Named E s u none = (w : Version) → find u s.versions ≡ some w → E u w.token_epoch
Named E s u (some epoch) = E u epoch

module _ {E : ℕ → ℕ → Type 0} where
  bury-Moved :
      (u epoch now : ℕ) (s : Store)
      → AtMost (find u s.versions) epoch
      → E u epoch
      → (j : ℕ) → Moved E s (write_tombstone u epoch now s) j
  unfolding write_tombstone
  bury-Moved u epoch now s b x j = elim (Bool-cases (u == j)) [
    | inr e ↦ stays (rw (find-delete, e)) (rw (find-upsert, e))
    | inl e ↦
        buries (version_row epoch revoked now) (rw (find-delete, e)) (rw (find-upsert, e)) refl
          (subst (λ k. AtMost (find k s.versions) epoch) ((==_iff u j).0 e) b)
          (subst (λ k. E k epoch) ((==_iff u j).0 e) x)
  ]

  same-Moved : (st : State) (s : Store) (j : ℕ) → Moved E s (delete_same st s).0 j
  unfolding delete_same
  same-Moved revoked s = Moved-refl s
  same-Moved stored s = Moved-refl s

  explicit-Moved :
      (u epoch now : ℕ) (s : Store) (v : Option Version)
      → find u s.versions ≡ v
      → E u epoch
      → (j : ℕ) → Moved E s (delete_explicit u epoch now s v).0 j
  unfolding delete_explicit
  explicit-Moved u epoch now s none e x = bury-Moved u epoch now s (rw e tt) x
  explicit-Moved u epoch now s (some v) e x = elim (Bool-cases (ltb epoch v.token_epoch)) [
    | inl lt ↦ rw (lt, delete_explicit) (Moved-refl s)
    | inr ge ↦ elim (Bool-cases (epoch == v.token_epoch)) [
      | inr ne ↦ rw (ge, delete_explicit, ne) (bury-Moved u epoch now s (rw e (ground arith)) x)
      | inl eq ↦ rw (ge, delete_explicit, eq) (same-Moved v.state s)
    ]
  ]

  current-Moved :
      (u now : ℕ) (s : Store) (v : Version) (st : State)
      → find u s.versions ≡ some v
      → E u v.token_epoch
      → (j : ℕ) → Moved E s (delete_current u now s st v.token_epoch).0 j
  unfolding delete_current
  current-Moved u now s v revoked e x = Moved-refl s
  current-Moved u now s v stored e x = bury-Moved u v.token_epoch now s (rw e (omega arith)) x

  implicit-Moved :
      (u now : ℕ) (s : Store) (v : Option Version)
      → find u s.versions ≡ v
      → ((w : Version) → v ≡ some w → E u w.token_epoch)
      → (j : ℕ) → Moved E s (delete_implicit u now s v).0 j
  unfolding delete_implicit
  implicit-Moved u now s none e x = Moved-refl s
  implicit-Moved u now s (some v) e x = current-Moved u now s v v.state e (x v refl)

  delete_version-Moved :
      (u : ℕ) (epoch : Option ℕ) (now : ℕ) (s : Store)
      → Named E s u epoch
      → (j : ℕ) → Moved E s (delete_version u epoch now s).0 j
  unfolding delete_version
  delete_version-Moved u none now s x = implicit-Moved u now s (find u s.versions) refl x
  delete_version-Moved u (some epoch) now s x =
      explicit-Moved u epoch now s (find u s.versions) refl x

  pub delete-Moved :
      (u : ℕ) (epoch : Option ℕ) (now : ℕ) (s : Store)
      → ((k : ℕ) → canonical_tenant_id (int u) ≡ some k → Named E s k epoch)
      → (j : ℕ) → Moved E s (delete_connection u epoch now s).0 j
  unfolding delete_connection finish
  delete-Moved u epoch now s x = elim (Option-cases (canonical_tenant_id (int u))) [
    | inl e ↦ rw (e, delete_connection) (Moved-refl s)
    | inr (k, e) ↦ rw (e, delete_connection) (delete_version-Moved k epoch now s (x k e))
  ]

-- The calls of the store that write, with what they are given.
pub data Call : Type 0 where
  stores : ℕ → ℕ → String → Option String → String → ℕ → ℕ → Call
  deletes : ℕ → Option ℕ → ℕ → Call

unfoldable pub perform : Fernet → Call → Store → Store
perform fernet (stores seed u url label token epoch now) s =
    (store_token fernet seed u url label token epoch now s).0
perform fernet (deletes u epoch now) s = (delete_connection u epoch now s).0

pub perform-Moved :
    (fernet : Fernet) (c : Call) (s : Store) (j : ℕ) → Moved (λ _ _. Unit) s (perform fernet c s) j
unfolding perform
perform-Moved fernet (stores seed u url label token epoch now) s =
    store-Moved fernet seed u url label token epoch now s (λ _ _. tt)
perform-Moved fernet (deletes u none now) s = delete-Moved u none now s (λ _ _ _ _. tt)
perform-Moved fernet (deletes u (some epoch) now) s = delete-Moved u (some epoch) now s (λ _ _. tt)

-- The two tables agree at a user: a credential stands beside a stored version of its epoch, and a
-- version with no credential is a tombstone.
abbrev pub Agree : Option Row → Option Version → Type 0
Agree none none = Unit
Agree none (some v) = v.state ≡ revoked
Agree (some c) none = ⊥
Agree (some c) (some v) = (v.state ≡ stored) × (v.token_epoch ≡ c.token_epoch)

abbrev pub IsCoherent : Store → Type 0
IsCoherent s = (u : ℕ) → Agree (find u s.connections) (find u s.versions)

pub Moves-Agree :
    {E : ℕ → ℕ → Type 0} (j : ℕ) (r : Option Row) (v : Option Version) (r' : Option Row)
    (v' : Option Version)
    → Moves E j r v r' v'
    → Agree r v
    → Agree r' v'
Moves-Agree j r v r' v' (stays p q) a = rw (p, q) a
Moves-Agree j r v r' v' (writes row version p q e s b _) a = rw (p, q) (s, sym e)
Moves-Agree j r v r' v' (buries version p q s b _) a = rw (p, q) s

-- Storing and deleting credentials, with whatever arguments, keep the two tables in agreement.
pub perform-IsCoherent :
    (fernet : Fernet) (c : Call) (s : Store) → IsCoherent s → IsCoherent (perform fernet c s)
perform-IsCoherent fernet c s h u =
    Moves-Agree u (find u s.connections) (find u s.versions)
      (find u (perform fernet c s).connections) (find u (perform fernet c s).versions)
      (perform-Moved fernet c s u) (h u)
