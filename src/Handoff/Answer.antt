-- ===== src/Handoff/Answer.antt =====
-- What the answer to a pull hands to the worker.
use aistat.Prelude.{ℕ, ◌+◌, ◌≡◌, true, String, some, All, All-map, arith}
use aistat.Table.{find, update_all-IsKeyed, IsKeyed, scan, scan-Scanned, Scanned, find-update_all}
use aistat.Handoff.State.{
  Connection, Host, leasable, revocation_pending, official_multica_url, worker_lease_seconds,
}
use aistat.Handoff.Validation.{normalize_official_server_url-official}
use aistat.Handoff.Intake.{purge_row, purge_expired_pending}
use aistat.Handoff.Pull.{
  Pending, Revocation, lease_row, revocation, record_worker_heartbeat, lease_pending_connections,
}

-- A pending entry is a row of the database that the host leaves: the same token, epoch and lease,
-- beside the official server.
pub record IsLeased (h : Host) (now : ℕ) (p : Pending) : Type 0 where
  pub row : Connection
  pub found : find p.user_id h.connections ≡ some row
  pub same_token : row.token ≡ some p.token
  pub same_epoch : row.token_epoch ≡ p.token_epoch
  pub same_lease : row.lease_id ≡ some p.lease_id
  pub expires : row.lease_expires_at ≡ now + worker_lease_seconds
  pub collectable : leasable row.status ≡ true
  pub pinned : p.server_url ≡ official_multica_url

-- A revoked entry is a row that waits for the confirmation of its epoch.
pub record IsWaiting (h : Host) (r : Revocation) : Type 0 where
  pub row : Connection
  pub found : find r.user_id h.connections ≡ some row
  pub same_epoch : row.token_epoch ≡ r.token_epoch
  pub waiting : row.status ≡ revocation_pending

abbrev LeaseOf : String → ℕ → ℕ → Connection → Connection → Pending → Type 0
LeaseOf lease_id now u c d p =
    (p.user_id ≡ u)
    × (d.token ≡ some p.token)
    × (d.token_epoch ≡ p.token_epoch)
    × (d.lease_id ≡ some p.lease_id)
    × (d.lease_expires_at ≡ now + worker_lease_seconds)
    × (leasable d.status ≡ true)
    × (p.server_url ≡ official_multica_url)

lease_row-LeaseOf :
    (lease_id : String) (now u : ℕ) (c : Connection) (p : Pending)
    → (lease_row lease_id now u c).1 ≡ some p
    → LeaseOf lease_id now u c (lease_row lease_id now u c).0 p
unfolding lease_row
lease_row-LeaseOf lease_id now u c p h = ground (
  arith,
  normalize_official_server_url-official (some c.server_url) official_multica_url p.server_url,
)

revocation-row :
    (u : ℕ) (c : Connection) (r : Revocation)
    → revocation u c ≡ some r
    → (r.user_id ≡ u) × (c.token_epoch ≡ r.token_epoch) × (c.status ≡ revocation_pending)
unfolding revocation
revocation-row u c r h = ground arith

module _ (draw : ℕ → String) (ttl now : ℕ) (h : Host) (keyed : IsKeyed h.connections) where
  abbrev swept : Host
  swept = purge_expired_pending ttl now (record_worker_heartbeat now h)

  abbrev left : Host
  left = (lease_pending_connections draw ttl now h).0

  swept-IsKeyed : IsKeyed swept.connections
  unfolding purge_expired_pending record_worker_heartbeat
  swept-IsKeyed = update_all-IsKeyed (λ _ row. purge_row ttl now row) h.connections keyed

  left-found :
      (u : ℕ) (c : Connection)
      → find u swept.connections ≡ some c
      → find u left.connections ≡ some (lease_row (draw u) now u c).0
  unfolding lease_pending_connections
  left-found u c e = rw (find-update_all, e)

  pending-IsLeased :
      (p : Pending)
      → Scanned (λ u row. (lease_row (draw u) now u row).1) swept.connections p
      → IsLeased left now p
  pending-IsLeased p (u, c, e, y) =
      let (a, b, d, f, g, i, j) = lease_row-LeaseOf (draw u) now u c p y in
      record {
        row = (lease_row (draw u) now u c).0;
        found = rw a (left-found u c e);
        same_token = b;
        same_epoch = d;
        same_lease = f;
        expires = g;
        collectable = i;
        pinned = j;
      }

  left-IsKeyed : IsKeyed left.connections
  unfolding lease_pending_connections
  left-IsKeyed =
      update_all-IsKeyed (λ u row. (lease_row (draw u) now u row).0) swept.connections swept-IsKeyed

  revoked-IsWaiting : (r : Revocation) → Scanned revocation left.connections r → IsWaiting left r
  revoked-IsWaiting r (u, c, e, y) =
      let (a, b, d) = revocation-row u c r y in
      record { row = c; found = rw a e; same_epoch = b; waiting = d }

  -- In a database whose keys are in order, every entry of the answer to a pull is a row that the host
  -- leaves: a pending entry carries the token, the epoch and the fresh lease of a leasable row, for
  -- the official server only; a revoked entry names the epoch of a row that awaits its confirmation.
  pub pull-IsLeased :
      All (IsLeased left now) (lease_pending_connections draw ttl now h).1.pending
      × All (IsWaiting left) (lease_pending_connections draw ttl now h).1.revoked
  unfolding lease_pending_connections
  pull-IsLeased = (
    All-map pending-IsLeased (scan (λ u row. (lease_row (draw u) now u row).1) swept.connections)
        (scan-Scanned (λ u row. (lease_row (draw u) now u row).1) swept.connections swept-IsKeyed),
    All-map revoked-IsWaiting (scan revocation left.connections)
        (scan-Scanned revocation left.connections left-IsKeyed),
  )
