-- ===== src/Protocol.antt =====
-- The whole handoff: the public host, the trusted worker and the messages between them
-- (aistat/handoff.py, aistat/worker_sync.py, aistat/worker_store.py, and the collector's local
-- deletion). A message that was sent once may arrive at any time, any number of times, or never.
pub mod Tracking
pub mod Invariant
pub mod Deliveries
pub mod Safety
mod Tests
use aistat.Prelude.{ℕ, String, ◌≡◌, ◌⊎◌, Bool, true, false, Option, none, some, List, [], ◌∷◌, map}
use aistat.Tenant.{Value, int}
use aistat.Handoff.State.{Host}
use aistat.Handoff.Pull.{Pending, Revocation, Pulled, lease_pending_connections}
use aistat.Handoff.Acks.{
  Ack, was_stored, was_revoked, sync_ok, sync_error, absent, said, apply_worker_acks,
}
use aistat.Handoff.Machine.{Request, pulls, acknowledges, serve}
use aistat.WorkerStore.{Store, Fernet, delete_connection}
use aistat.WorkerSync.{PendingItem, RevokedItem, Response, SentAck, Cycle, pull_once, report_sync}
use aistat.WorkerSync.Loop.{batch}

-- The JSON of the pull's answer, as the worker reads it.
unfoldable pub pending_item : Pending → Option PendingItem
pending_item p = some (record {
  user_id = p.user_id;
  server_url = p.server_url;
  workspace_label = p.workspace_label;
  token = p.token;
  token_epoch = p.token_epoch;
  lease_id = some p.lease_id;
})

unfoldable pub revoked_item : Revocation → Option RevokedItem
revoked_item r = some (record { user_id = r.user_id; token_epoch = r.token_epoch })

unfoldable pub response : Pulled → Response
unfolding pending_item revoked_item
response p = record { pending = map pending_item p.pending; revoked = map revoked_item p.revoked }

-- The JSON of an acknowledgement, as the host reads it.
unfoldable pub received : SentAck → Option Ack
received (SentAck.stored u e lease_id) = some (record {
  user_id = int u;
  token_epoch = some e;
  lease_id = lease_id;
  result = was_stored;
  error = absent;
})
received (SentAck.revoked u e) = some (record {
  user_id = int u;
  token_epoch = some e;
  lease_id = none;
  result = was_revoked;
  error = absent;
})
received (SentAck.reported_ok u e) = some (record {
  user_id = int u;
  token_epoch = some e;
  lease_id = none;
  result = sync_ok;
  error = absent;
})
received (SentAck.reported_error u e message) = some (record {
  user_id = int u;
  token_epoch = some e;
  lease_id = none;
  result = sync_error;
  error = said message;
})

pub record System : Type 0 where
  pub host : Host
  pub worker : Store
  -- the answers to pulls, and the batches of acknowledgements, that were ever sent
  pub answers : List Pulled
  pub batches : List (List SentAck)

-- The worker's two endpoints are guarded by its signature; users reach the others.
abbrev pub is_local : Request → Bool
is_local (pulls draw ttl) = false
is_local (acknowledges acks) = false
is_local _ = true

abbrev pub In : {A : Type 0} → A → List A → Type 0
In a [] = ⊥
In a (x ∷ xs) = (a ≡ x) ⊎ In a xs

module _ (fernet : Fernet) where
  pub data Step (s : System) : System → Type 0 where
    serves :
        (now : ℕ) (r : Request)
        → is_local r ≡ true
        → Step s (record s { host = serve now r s.host })
    -- the host answers a pull
    answers :
        (draw : ℕ → String) (ttl now : ℕ)
        → Step s (record s {
          host = (lease_pending_connections draw ttl now s.host).0;
          answers = (lease_pending_connections draw ttl now s.host).1 ∷ s.answers;
        })
    -- the worker runs its cycle on an answer, and sends what the cycle acknowledges
    syncs :
        (draw : ℕ → ℕ) (now : ℕ) (p : Pulled)
        → In p s.answers
        → Step s (record s {
          worker = (pull_once fernet now draw (response p) s.worker).0;
          batches = batch (pull_once fernet now draw (response p) s.worker).1 ∷ s.batches;
        })
    -- the collector drops the current credential of a user
    discards :
        (u now : ℕ) → Step s (record s { worker = (delete_connection u none now s.worker).0 })
    -- the collector reports how a collection went, for any user and epoch
    reports :
        (u e : ℕ) (good : Bool) (error : Option String)
        → Step s (record s { batches = report_sync u e good error ∷ s.batches })
    -- the host applies a batch
    applies :
        (now : ℕ) (acks : List SentAck)
        → In acks s.batches
        → Step s (record s { host = (apply_worker_acks now (map received acks) s.host).0 })

  pub data Reach (s : System) : System → Type 0 where
    here : Reach s s
    next : {t u : System} → Reach s t → Step t u → Reach s u
