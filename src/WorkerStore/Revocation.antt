-- ===== src/WorkerStore/Revocation.antt =====
-- When the worker confirms that a credential is gone.
use aistat.Prelude.{
  ℕ, ◌≡◌, ◌<◌, refl, ◌⊎◌, inl, inr, Bool, true, false, Option, none, some, arith, ltb, ◌==◌, ==_iff,
  ==_refl, Option-cases, Bool-cases, subst, sym, ap, ◌∙◌,
}
use aistat.Table.{find, find-upsert}
use aistat.Tenant.{canonical_tenant_id, canonical_tenant_id-int, int}
use aistat.WorkerStore.{
  Row, State, stored, revoked, Version, Store, returned, version_row, write_tombstone, delete_same,
  delete_explicit, delete_version, finish, delete_connection,
}
use aistat.WorkerStore.Watermark.{Moves, stays, writes, buries, Moved}

-- The version row has passed an epoch: it is newer, or it is the tombstone of the epoch.
abbrev pub Passed : Version → ℕ → Type 0
Passed v e = (e < v.token_epoch) ⊎ ((e ≡ v.token_epoch) × (v.state ≡ revoked))

abbrev pub IsDead : Store → ℕ → ℕ → Type 0
IsDead s u e = (v : Version) × (find u s.versions ≡ some v) × Passed v e

Moves-Passed :
    (E : ℕ → ℕ → Type 0) (u e : ℕ) (r : Option Row) (v : Version) (r' : Option Row)
    (v' : Option Version)
    → Moves E u r (some v) r' v'
    → Passed v e
    → (w : Version) × (v' ≡ some w) × Passed w e
Moves-Passed E u e r v r' v' (stays p q) h = (v, q, h)
Moves-Passed E u e r v r' v' (writes row w p q k s b _) h = (w, q, ground arith)
Moves-Passed E u e r v r' v' (buries w p q s b _) h = (w, q, ground arith)

-- A dead epoch stays dead.
pub Moved-IsDead :
    {E : ℕ → ℕ → Type 0} (s s' : Store) (u e : ℕ) → Moved E s s' u → IsDead s u e → IsDead s' u e
Moved-IsDead {E} s s' u e m (v, q, h) =
    Moves-Passed E u e (find u s.connections) v (find u s'.connections) (find u s'.versions)
      (subst (λ x. Moves E u (find u s.connections) x (find u s'.connections) (find u s'.versions))
        q m)
      h

tombstone-IsDead : (u e now : ℕ) (s : Store) → IsDead (write_tombstone u e now s) u e
unfolding write_tombstone
tombstone-IsDead u e now s =
    (version_row e revoked now, rw (find-upsert, ==_refl), inr (refl, refl))

same-IsDead :
    (u : ℕ) (s : Store) (v : Version) (st : State)
    → find u s.versions ≡ some v
    → v.state ≡ st
    → (delete_same st s).1 ≡ true
    → IsDead (delete_same st s).0 u v.token_epoch
unfolding delete_same
same-IsDead u s v revoked q k h = (v, q, inr (refl, k))
same-IsDead u s v stored q k h = cc

explicit-IsDead :
    (u e now : ℕ) (s : Store) (v : Option Version)
    → find u s.versions ≡ v
    → (delete_explicit u e now s v).1 ≡ true
    → IsDead (delete_explicit u e now s v).0 u e
unfolding delete_explicit
explicit-IsDead u e now s none q = λ h. tombstone-IsDead u e now s
explicit-IsDead u e now s (some v) q = elim (Bool-cases (ltb e v.token_epoch)) [
  | inl lt ↦ rw (lt, delete_explicit) (λ h. cc)
  | inr ge ↦ elim (Bool-cases (e == v.token_epoch)) [
    | inr ne ↦ rw (ge, delete_explicit, ne) (λ h. tombstone-IsDead u e now s)
    | inl eq ↦
        rw (ge, delete_explicit, eq)
          (λ h.
            subst (λ k. IsDead (delete_same v.state s).0 u k) (sym ((==_iff e v.token_epoch).0 eq))
              (same-IsDead u s v v.state q refl h))
  ]
]

returned_true : (r : Store × Bool) → (finish r).1 ≡ returned true → r.1 ≡ true
unfolding finish
returned_true (s, true) h = refl
returned_true (s, false) h = ground arith

finish-store : (r : Store × Bool) → (finish r).0 ≡ r.0
unfolding finish
finish-store (s, b) = refl

-- A deletion that the worker acknowledges has happened: the epoch is dead in the store that the
-- call leaves, whether the call wrote the tombstone or found it.
pub delete-IsDead :
    (u e now : ℕ) (s : Store)
    → (delete_connection u (some e) now s).1 ≡ returned true
    → IsDead (delete_connection u (some e) now s).0 u e
unfolding delete_connection delete_version
delete-IsDead u e now s = elim (Option-cases (canonical_tenant_id (int u))) [
  | inl n ↦ rw (n, delete_connection) (λ h. ground arith)
  | inr (k, n) ↦
      let same : canonical_tenant_id (int u) ≡ some u =
        n ∙ ap some (canonical_tenant_id-int u k n) in
      rw (same, delete_connection)
        (λ h.
          subst (λ t. IsDead t u e) (sym (finish-store (delete_version u (some e) now s)))
            (explicit-IsDead u e now s (find u s.versions) refl
              (returned_true (delete_version u (some e) now s) h)))
]
