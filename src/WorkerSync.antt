-- ===== src/WorkerSync.antt =====
-- One handoff cycle of the worker (aistat/worker_sync.py, pull_once): store the pulled tokens, delete
-- the revoked ones and collect the acknowledgements to send; and the report of a collection
-- (report_sync). The HTTP exchange is outside: the response of the pull is an argument, and the
-- batch to send is a result.
pub mod Loop
mod Tests
use aistat.Prelude.{ℕ, ◌+◌, String, Bool, true, false, Option, none, some, List, [], ◌∷◌, ◌++◌}
use aistat.Handoff.Validation.{safe_sync_error, default_sync_error}
use aistat.WorkerStore.{
  Store, Fernet, Outcome, returned, failed, StoreError, unsupported_server, invalid_tenant_id,
  conflicting_data, cannot_decrypt, store_token, delete_connection,
}

-- An entry of `pending` whose fields `int` and `str` accept.
pub record PendingItem : Type 0 where
  pub user_id : ℕ
  pub server_url : String
  pub workspace_label : Option String
  pub token : String
  pub token_epoch : ℕ
  pub lease_id : Option String

pub record RevokedItem : Type 0 where
  pub user_id : ℕ
  pub token_epoch : ℕ

-- The JSON answer of the pull; `none` is an entry that lacks a field or has one of a wrong type.
pub record Response : Type 0 where
  pub pending : List (Option PendingItem)
  pub revoked : List (Option RevokedItem)

-- An entry of a batch to send: of the cycle, or the report of a collection.
pub data SentAck : Type 0 where
  stored : ℕ → ℕ → Option String → SentAck
  revoked : ℕ → ℕ → SentAck
  reported_ok : ℕ → ℕ → SentAck
  reported_error : ℕ → ℕ → String → SentAck

-- The batch that `report_sync` sends.
unfoldable pub report_sync : ℕ → ℕ → Bool → Option String → List SentAck
report_sync user_id token_epoch true error = SentAck.reported_ok user_id token_epoch ∷ []
report_sync user_id token_epoch false error =
    SentAck.reported_error user_id token_epoch (safe_sync_error error default_sync_error) ∷ []

pub data SyncError : Type 0 where
  -- WorkerSyncError
  invalid_pending invalid_revoked : SyncError
  -- the ValueError of `delete_connection`, which the cycle does not catch
  uncaught : StoreError → SyncError

-- The lists and counters of the cycle.
pub record Progress : Type 0 where
  pub acks : List SentAck
  pub stored : ℕ
  pub revoked : ℕ
  -- the users of `failed`
  pub failed : List ℕ

pub data Cycle : Type 0 where
  finished : Progress → Cycle
  aborted : SyncError → Cycle

-- The handlers round `store_token`: WorkerStoreError is recorded, ValueError ends the cycle.
unfoldable pub after_store : PendingItem → Progress → Outcome Bool → Cycle
after_store i p (returned true) = finished (record p {
  acks = p.acks ++ SentAck.stored i.user_id i.token_epoch i.lease_id ∷ [];
  stored = p.stored + 1;
})
after_store i p (returned false) = finished p
after_store i p (failed unsupported_server) = aborted invalid_pending
after_store i p (failed invalid_tenant_id) = aborted invalid_pending
after_store i p (failed conflicting_data) =
    finished (record p { failed = p.failed ++ i.user_id ∷ [] })
after_store i p (failed cannot_decrypt) =
    finished (record p { failed = p.failed ++ i.user_id ∷ [] })

unfoldable pub after_delete : RevokedItem → Progress → Outcome Bool → Cycle
after_delete i p (returned true) = finished (record p {
  acks = p.acks ++ SentAck.revoked i.user_id i.token_epoch ∷ [];
  revoked = p.revoked + 1;
})
after_delete i p (returned false) = finished p
after_delete i p (failed e) = aborted (uncaught e)

-- An exception ends the cycle with the store as it then is.
unfoldable pub proceed : Store → Cycle → (Progress → Store → Store × Cycle) → Store × Cycle
proceed s (aborted e) k = (s, aborted e)
proceed s (finished p) k = k p s

module _ (fernet : Fernet) (now : ℕ) where
  -- `draw u` is the random input of the encryption for user `u`.
  unfoldable pub store_item : (ℕ → ℕ) → PendingItem → Store → Store × Outcome Bool
  store_item draw i s =
      store_token fernet (draw i.user_id) i.user_id i.server_url i.workspace_label i.token
        i.token_epoch now s

  -- The first loop.
  unfoldable pub sync_pending :
      (ℕ → ℕ) → List (Option PendingItem) → Progress → Store → Store × Cycle
  sync_pending draw [] p s = (s, finished p)
  sync_pending draw (none ∷ rest) p s = (s, aborted invalid_pending)
  sync_pending draw (some i ∷ rest) p s =
      let (s', outcome) = store_item draw i s in
      proceed s' (after_store i p outcome) (sync_pending draw rest)

  -- The second loop.
  unfoldable pub sync_revoked : List (Option RevokedItem) → Progress → Store → Store × Cycle
  sync_revoked [] p s = (s, finished p)
  sync_revoked (none ∷ rest) p s = (s, aborted invalid_revoked)
  sync_revoked (some i ∷ rest) p s =
      let (s', outcome) = delete_connection i.user_id (some i.token_epoch) now s in
      proceed s' (after_delete i p outcome) (sync_revoked rest)

  -- The acknowledgements go out only from a cycle that finishes.
  unfoldable pub pull_once : (ℕ → ℕ) → Response → Store → Store × Cycle
  unfolding proceed
  pull_once draw r s =
      let (s', c) =
        sync_pending draw r.pending (record { acks = []; stored = 0; revoked = 0; failed = [] })
          s in
      proceed s' c (sync_revoked r.revoked)
