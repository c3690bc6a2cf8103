-- ===== src/Handoff/Change.antt =====
-- Every call of the channel changes the rows of `connections` one by one; a relation that each row
-- change satisfies holds between the tables before and after the call.
pub mod Calls
pub mod Replies
use aistat.Prelude.{
  ℕ, suc, ◌*◌, String, ◌≡◌, refl, ◌⊎◌, inl, inr, Bool, true, false, subst, Option, none, some, List,
  [], ◌∷◌, arith, ◌==◌, if◌then◌else◌, Option-cases, Bool-cases, ==_iff, ==_refl, str_eq,
}
use aistat.Table.{
  Table, find, upsert, update, update_all, IsKeyed, update-IsKeyed, update_all-IsKeyed,
  upsert-IsKeyed, find-upsert, find-update, find-update_all,
}
use mathlib.Core.Option
use aistat.Tenant.{canonical_tenant_id, Value}
use aistat.Handoff.State.{
  Connection, Host, Status, leasable, revoked, revocation_pending, raised, ok, is_user,
  Result-cases, worker_nonce_ttl_factor, official_multica_url,
}
use aistat.Handoff.Validation.{normalize_official_server_url}
use aistat.Handoff.Intake.{
  purge_row, purge_expired_pending, connection_status, replaced, created, submitted,
  submit_connection, revoke_row, revoke_connection, reserve_connection_submission,
}
use aistat.Handoff.Pull.{
  lease_row, lease_pending_connections, consume_worker_nonce, record_worker_heartbeat, forget,
  is_seen,
}
use aistat.Handoff.Acks.{
  activated, confirmed, synced, settle_stored, stored_reply, stored_found, revoked_found,
  sync_found, Reply, accepted, invalid_request, unknown_connection, stale_epoch, stale_lease,
  invalid_state, written, apply_ack, AckResult, was_stored, was_revoked, sync_ok, sync_error,
  unrecognised, absent, not_text, said, ack_connection_stored, ack_connection_revoked,
  record_connection_sync, apply_item, apply_items, apply_worker_acks, Ack, Message, is_reportable,
}

-- The changes of the row of user `u` that the calls make, with what the calls have tested before
-- them. `A u e` says that the deletion of epoch `e` was acknowledged for the user.
pub data Change (A : ℕ → ℕ → Type 0) (u : ℕ) : Connection → Connection → Type 0 where
  purges : (ttl now : ℕ) (c : Connection) → Change A u c (purge_row ttl now c)
  replaces :
      (url : String) (label : Option String) (token : String) (now : ℕ) (c : Connection)
      → Change A u c (replaced url label token now c)
  erases : (now : ℕ) (c : Connection) → Change A u c (revoke_row now c)
  leases :
      (lease_id : String) (now : ℕ) (c : Connection) → Change A u c (lease_row lease_id now u c).0
  activates : (now : ℕ) (c : Connection) → leasable c.status ≡ true → Change A u c (activated now c)
  confirms :
      (now : ℕ) (c : Connection)
      → c.status ≡ revocation_pending
      → A u c.token_epoch
      → Change A u c (confirmed now c)
  syncs :
      (good : Bool) (message : Message) (now : ℕ) (c : Connection)
      → is_reportable c.status ≡ true
      → Change A u c (synced good message now c)

-- How a row may stand before and after: no row is ever deleted.
abbrev pub Follows :
    (Connection → Type 0)
    → (Connection → Connection → Type 0)
    → Option Connection
    → Option Connection
    → Type 0
Follows New P none none = Unit
Follows New P none (some c) = New c
Follows New P (some c) none = ⊥
Follows New P (some c) (some d) = P c d

-- Every row stands so in two tables, and the keys stay in order.
abbrev pub Evolved :
    (ℕ → Connection → Type 0)
    → (ℕ → Connection → Connection → Type 0)
    → Table Connection
    → Table Connection
    → Type 0
Evolved New P m m' =
    ((j : ℕ) → Follows (New j) (P j) (find j m) (find j m')) × (IsKeyed m → IsKeyed m')

-- So it does before and after a call.
abbrev pub Kept :
    (ℕ → Connection → Type 0) → (ℕ → Connection → Connection → Type 0) → Host → Host → Type 0
Kept New P h h' = Evolved New P h.connections h'.connections

-- A relation that covers each change of a row, and a property of each new row.
pub record Rule (A : ℕ → ℕ → Type 0) (New : ℕ → Connection → Type 0)
    (P : ℕ → Connection → Connection → Type 0) : Type 0 where
  pub same : (u : ℕ) (c : Connection) → P u c c
  pub chain : (u : ℕ) (c d e : Connection) → P u c d → P u d e → P u c e
  pub keeps : (u : ℕ) (c d : Connection) → New u c → P u c d → New u d
  pub fresh :
      (u : ℕ) (url : String) (label : Option String) (token : String) (now : ℕ)
      → New u (created url label token now)
  pub step : (u : ℕ) (c d : Connection) → Change A u c d → P u c d

module _ {A : ℕ → ℕ → Type 0} {New : ℕ → Connection → Type 0}
    {P : ℕ → Connection → Connection → Type 0} (rule : Rule A New P) where
  Follows-refl : (u : ℕ) (o : Option Connection) → Follows (New u) (P u) o o
  Follows-refl u none = tt
  Follows-refl u (some c) = rule.same u c

  Follows-trans :
      (u : ℕ) (o p q : Option Connection)
      → Follows (New u) (P u) o p
      → Follows (New u) (P u) p q
      → Follows (New u) (P u) o q
  Follows-trans u none none q h k = k
  Follows-trans u none (some d) none h k = absurd k
  Follows-trans u none (some d) (some e) h k = rule.keeps u d e h k
  Follows-trans u (some c) none q h k = absurd h
  Follows-trans u (some c) (some d) none h k = absurd k
  Follows-trans u (some c) (some d) (some e) h k = rule.chain u c d e h k

  map-Follows :
      (u : ℕ) (f : Connection → Connection) (o : Option Connection)
      → ((c : Connection) → o ≡ some c → P u c (f c))
      → Follows (New u) (P u) o (Option.map f o)
  map-Follows u f none h = tt
  map-Follows u f (some c) h = h c refl

  update-Follows :
      (u : ℕ) (f : Connection → Connection) (m : Table Connection)
      → ((c : Connection) → find u m ≡ some c → P u c (f c))
      → (j : ℕ) → Follows (New j) (P j) (find j m) (find j (update u f m))
  update-Follows u f m h j = rw find-update (elim (Bool-cases (u == j)) [
    | inl e ↦ rw e (
        subst (λ k. Follows (New k) (P k) (find k m) (Option.map f (find k m))) ((==_iff u j).0 e)
          (map-Follows u f (find u m) h))
    | inr e ↦ rw e (Follows-refl j (find j m))
  ])

  update_all-Follows :
      (f : ℕ → Connection → Connection) (m : Table Connection)
      → ((u : ℕ) (c : Connection) → P u c (f u c))
      → (j : ℕ) → Follows (New j) (P j) (find j m) (find j (update_all f m))
  update_all-Follows f m h j = rw find-update_all (map-Follows j (f j) (find j m) (λ c _. h j c))

  upsert-Follows :
      (u : ℕ) (v : Connection) (m : Table Connection)
      → find u m ≡ none
      → New u v
      → (j : ℕ) → Follows (New j) (P j) (find j m) (find j (upsert u v m))
  upsert-Follows u v m e h j = rw find-upsert (elim (Bool-cases (u == j)) [
    | inl t ↦
        rw t (subst (λ k. Follows (New k) (P k) (find k m) (some v)) ((==_iff u j).0 t) (rw e h))
    | inr t ↦ rw t (Follows-refl j (find j m))
  ])

  pub updated :
      (u : ℕ) (f : Connection → Connection) (m : Table Connection)
      → ((c : Connection) → find u m ≡ some c → P u c (f c))
      → Evolved New P m (update u f m)
  updated u f m h = (update-Follows u f m h, update-IsKeyed u f m)

  pub updated_all :
      (f : ℕ → Connection → Connection) (m : Table Connection)
      → ((u : ℕ) (c : Connection) → P u c (f u c))
      → Evolved New P m (update_all f m)
  updated_all f m h = (update_all-Follows f m h, update_all-IsKeyed f m)

  pub inserted :
      (u : ℕ) (v : Connection) (m : Table Connection)
      → find u m ≡ none
      → New u v
      → Evolved New P m (upsert u v m)
  inserted u v m e h = (upsert-Follows u v m e h, upsert-IsKeyed u v m)

  pub Kept-refl : (h : Host) → Kept New P h h
  Kept-refl h = (λ j. Follows-refl j (find j h.connections), λ k. k)

  pub Kept-trans : (h h' h'' : Host) → Kept New P h h' → Kept New P h' h'' → Kept New P h h''
  Kept-trans h h' h'' p q = (
    λ j.
        Follows-trans j (find j h.connections) (find j h'.connections) (find j h''.connections)
          (p.0 j) (q.0 j),
    λ k. q.1 (p.1 k),
  )
