-- ===== src/WorkerSync/Loop.antt =====
-- What one cycle keeps and what its acknowledgements mean.
use aistat.Prelude.{
  ℕ, ◌≡◌, refl, Bool, true, false, Option, none, some, List, [], ◌∷◌, ◌++◌, All, All-append,
  All-map, subst, sym, ◌∙◌,
}
use aistat.Table.{find, Rows}
use aistat.Tenant.{canonical_tenant_id-int}
use aistat.WorkerStore.{
  Row, Version, Store, Fernet, Outcome, returned, failed, unsupported_server, invalid_tenant_id,
  conflicting_data, cannot_decrypt, store_token, delete_connection,
}
use aistat.WorkerStore.Watermark.{
  Moves, stays, writes, buries, Moved, IsCoherent, store-Moved, delete-Moved, Moves-Agree,
}
use aistat.WorkerStore.Revocation.{IsDead, Moved-IsDead, delete-IsDead}
use aistat.WorkerSync.{
  PendingItem, RevokedItem, Response, SentAck, Progress, Cycle, finished, aborted, after_store,
  after_delete, store_item, sync_pending, sync_revoked, pull_once, proceed,
}

-- Every version comes from an epoch that `E` admits.
abbrev pub IsBounded : (ℕ → ℕ → Type 0) → Store → Type 0
IsBounded E s = Rows (λ u v. E u v.token_epoch) s.versions

-- An acknowledged deletion has happened in the store.
abbrev pub Confirmed : Store → SentAck → Type 0
Confirmed s (SentAck.stored u e lease_id) = Unit
Confirmed s (SentAck.revoked u e) = IsDead s u e
Confirmed s (SentAck.reported_ok u e) = Unit
Confirmed s (SentAck.reported_error u e message) = Unit

-- The invariant of the cycle: `D` holds what was dead when it began.
pub record IsSync (E D : ℕ → ℕ → Type 0) (s : Store) (acks : List SentAck) : Type 0 where
  pub coherent : IsCoherent s
  pub bounded : IsBounded E s
  pub dead : (u e : ℕ) → D u e → IsDead s u e
  pub confirmed : All (Confirmed s) acks

abbrev pub Admits : (ℕ → ℕ → Type 0) → Option PendingItem → Type 0
Admits E none = Unit
Admits E (some i) = E i.user_id i.token_epoch

abbrev pub AdmitsRevoked : (ℕ → ℕ → Type 0) → Option RevokedItem → Type 0
AdmitsRevoked E none = Unit
AdmitsRevoked E (some i) = E i.user_id i.token_epoch

moves-Bounded :
    (E : ℕ → ℕ → Type 0) (u : ℕ) (r : Option Row) (v : Option Version) (r' : Option Row)
    (v' : Option Version)
    → Moves E u r v r' v'
    → ((w : Version) → v ≡ some w → E u w.token_epoch)
    → (w : Version) → v' ≡ some w
    → E u w.token_epoch
moves-Bounded E u r v r' v' (stays p q) h w e = h w (sym q ∙ e)
moves-Bounded E u r v r' v' (writes row x p q k s b y) h w e =
    let same : x ≡ w = cc in subst (λ (z : Version). E u z.token_epoch) same y
moves-Bounded E u r v r' v' (buries x p q s b y) h w e =
    let same : x ≡ w = cc in subst (λ (z : Version). E u z.token_epoch) same y

pub keep_acks :
    (s s' : Store)
    → ((u e : ℕ) → IsDead s u e → IsDead s' u e)
    → (acks : List SentAck) → All (Confirmed s) acks
    → All (Confirmed s') acks
keep_acks s s' k = All-map go
  where
    go : (a : SentAck) → Confirmed s a → Confirmed s' a
    go (SentAck.stored u e lease_id) h = tt
    go (SentAck.revoked u e) h = k u e h
    go (SentAck.reported_ok u e) h = tt
    go (SentAck.reported_error u e message) h = tt

-- A step of the store whose new epochs `E` admits keeps the invariant.
pub Moved-IsSync :
    {E D : ℕ → ℕ → Type 0} (s s' : Store) (acks : List SentAck)
    → ((j : ℕ) → Moved E s s' j)
    → IsSync E D s acks
    → IsSync E D s' acks
Moved-IsSync {E} {D} s s' acks m h = record {
  coherent = λ u.
      Moves-Agree u (find u s.connections) (find u s.versions) (find u s'.connections)
        (find u s'.versions) (m u) (h.coherent u);
  bounded = λ u.
      moves-Bounded E u (find u s.connections) (find u s.versions) (find u s'.connections)
        (find u s'.versions) (m u) (h.bounded u);
  dead = λ u e d. Moved-IsDead s s' u e (m u) (h.dead u e d);
  confirmed = keep_acks s s' (λ u e. Moved-IsDead s s' u e (m u)) acks h.confirmed;
}

-- The batch that a cycle sends.
abbrev pub batch : Cycle → List SentAck
batch (finished p) = p.acks
batch (aborted e) = []

abbrev pub Sound : (ℕ → ℕ → Type 0) → (ℕ → ℕ → Type 0) → Store × Cycle → Type 0
Sound E D (s, c) = IsSync E D s (batch c)

no_acks :
    {E D : ℕ → ℕ → Type 0} (s : Store) (acks : List SentAck) → IsSync E D s acks → IsSync E D s []
no_acks s acks h = record {
  coherent = h.coherent;
  bounded = h.bounded;
  dead = h.dead;
  confirmed = tt;
}

add_ack :
    {E D : ℕ → ℕ → Type 0} (s : Store) (acks : List SentAck) (a : SentAck)
    → Confirmed s a
    → IsSync E D s acks
    → IsSync E D s (acks ++ a ∷ [])
add_ack s acks a k h = record {
  coherent = h.coherent;
  bounded = h.bounded;
  dead = h.dead;
  confirmed = All-append (Confirmed s) acks (a ∷ []) h.confirmed (k, tt);
}

after_store-Sound :
    {E D : ℕ → ℕ → Type 0} (s : Store) (i : PendingItem) (p : Progress) (o : Outcome Bool)
    → IsSync E D s p.acks
    → Sound E D (s, after_store i p o)
unfolding after_store
after_store-Sound s i p (returned true) h =
    add_ack s p.acks (SentAck.stored i.user_id i.token_epoch i.lease_id) tt h
after_store-Sound s i p (returned false) h = h
after_store-Sound s i p (failed unsupported_server) h = no_acks s p.acks h
after_store-Sound s i p (failed invalid_tenant_id) h = no_acks s p.acks h
after_store-Sound s i p (failed conflicting_data) h = h
after_store-Sound s i p (failed cannot_decrypt) h = h

after_delete-Sound :
    {E D : ℕ → ℕ → Type 0} (s : Store) (i : RevokedItem) (p : Progress) (o : Outcome Bool)
    → (o ≡ returned true → IsDead s i.user_id i.token_epoch)
    → IsSync E D s p.acks
    → Sound E D (s, after_delete i p o)
unfolding after_delete
after_delete-Sound s i p (returned true) k h =
    add_ack s p.acks (SentAck.revoked i.user_id i.token_epoch) (k refl) h
after_delete-Sound s i p (returned false) k h = h
after_delete-Sound s i p (failed e) k h = no_acks s p.acks h

proceed-Sound :
    {E D : ℕ → ℕ → Type 0} (s : Store) (c : Cycle) (k : Progress → Store → Store × Cycle)
    → Sound E D (s, c)
    → ((p : Progress) → IsSync E D s p.acks → Sound E D (k p s))
    → Sound E D (proceed s c k)
unfolding proceed
proceed-Sound s (aborted e) k h f = h
proceed-Sound s (finished p) k h f = f p h

module _ {E D : ℕ → ℕ → Type 0} (fernet : Fernet) (now : ℕ) where
  store_item-IsSync :
      (draw : ℕ → ℕ) (i : PendingItem) (s : Store) (acks : List SentAck)
      → E i.user_id i.token_epoch
      → IsSync E D s acks
      → IsSync E D (store_item fernet now draw i s).0 acks
  unfolding store_item
  store_item-IsSync draw i s acks x h =
      Moved-IsSync s
        (store_token fernet (draw i.user_id) i.user_id i.server_url i.workspace_label i.token
          i.token_epoch now s).0
        acks
        (store-Moved fernet (draw i.user_id) i.user_id i.server_url i.workspace_label i.token
          i.token_epoch now s
          (λ k n. subst (λ u. E u i.token_epoch) (sym (canonical_tenant_id-int i.user_id k n)) x))
        h

  delete-IsSync :
      (i : RevokedItem) (s : Store) (acks : List SentAck)
      → E i.user_id i.token_epoch
      → IsSync E D s acks
      → IsSync E D (delete_connection i.user_id (some i.token_epoch) now s).0 acks
  delete-IsSync i s acks x h =
      Moved-IsSync s (delete_connection i.user_id (some i.token_epoch) now s).0 acks
        (delete-Moved i.user_id (some i.token_epoch) now s
          (λ k n. subst (λ u. E u i.token_epoch) (sym (canonical_tenant_id-int i.user_id k n)) x))
        h

  sync_pending-Sound :
      (draw : ℕ → ℕ) (items : List (Option PendingItem)) (p : Progress) (s : Store)
      → All (Admits E) items
      → IsSync E D s p.acks
      → Sound E D (sync_pending fernet now draw items p s)
  unfolding sync_pending
  sync_pending-Sound draw [] p s x h = h
  sync_pending-Sound draw (none ∷ rest) p s x h = no_acks s p.acks h
  sync_pending-Sound draw (some i ∷ rest) p s x h =
      let s' : Store = (store_item fernet now draw i s).0 in
      let o : Outcome Bool = (store_item fernet now draw i s).1 in
      proceed-Sound s' (after_store i p o) (sync_pending fernet now draw rest)
        (after_store-Sound s' i p o (store_item-IsSync draw i s p.acks x.0 h))
        (λ p' k. sync_pending-Sound draw rest p' s' x.1 k)

  sync_revoked-Sound :
      (items : List (Option RevokedItem)) (p : Progress) (s : Store)
      → All (AdmitsRevoked E) items
      → IsSync E D s p.acks
      → Sound E D (sync_revoked fernet now items p s)
  unfolding sync_revoked
  sync_revoked-Sound [] p s x h = h
  sync_revoked-Sound (none ∷ rest) p s x h = no_acks s p.acks h
  sync_revoked-Sound (some i ∷ rest) p s x h =
      let s' : Store = (delete_connection i.user_id (some i.token_epoch) now s).0 in
      let o : Outcome Bool = (delete_connection i.user_id (some i.token_epoch) now s).1 in
      proceed-Sound s' (after_delete i p o) (sync_revoked fernet now rest)
        (after_delete-Sound s' i p o (delete-IsDead i.user_id i.token_epoch now s)
          (delete-IsSync i s p.acks x.0 h))
        (λ p' k. sync_revoked-Sound rest p' s' x.1 k)

  -- One cycle over a response, finished or not: if `E` admits the epochs of the store and of the
  -- response, the store that it leaves has coherent tables and admitted epochs, and each deletion
  -- that the batch acknowledges has happened in it; what was dead stays dead.
  pub pull_once-Sound :
      (draw : ℕ → ℕ) (r : Response) (s : Store)
      → All (Admits E) r.pending
      → All (AdmitsRevoked E) r.revoked
      → IsCoherent s
      → IsBounded E s
      → ((u e : ℕ) → D u e → IsDead s u e)
      → Sound E D (pull_once fernet now draw r s)
  unfolding pull_once
  pull_once-Sound draw r s x y c b d =
      let p : Progress = record { acks = []; stored = 0; revoked = 0; failed = [] } in
      let s' : Store = (sync_pending fernet now draw r.pending p s).0 in
      proceed-Sound s' (sync_pending fernet now draw r.pending p s).1
        (sync_revoked fernet now r.revoked)
        (sync_pending-Sound draw r.pending p s x
          (record { coherent = c; bounded = b; dead = d; confirmed = tt }))
        (λ p' k. sync_revoked-Sound r.revoked p' s' y k)
