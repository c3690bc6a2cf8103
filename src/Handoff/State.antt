-- ===== src/Handoff/State.antt =====
-- The rows of security.db that the handoff channel reads and writes (aistat/handoff.py, the
-- constants, CONNECTIONS_SCHEMA and the cabinet projection).
use aistat.Prelude.{
  ℕ, ◌≡◌, refl, ◌⊎◌, inl, inr, String, Bool, true, false, Option, List, [], ◌∷◌, ◌==◌,
  if◌then◌else◌,
}
use aistat.Table.{Table}

-- CONNECTION_STATUSES
pub data Status : Type 0 where
  pending replacement_pending active error revocation_pending revoked : Status

-- LEASABLE_STATUSES
abbrev pub leasable : Status → Bool
leasable pending = true
leasable replacement_pending = true
leasable _ = false

abbrev pub worker_lease_seconds : ℕ
worker_lease_seconds = 600

abbrev pub worker_nonce_ttl_factor : ℕ
worker_nonce_ttl_factor = 3

abbrev pub connection_window_seconds : ℕ
connection_window_seconds = 900

abbrev pub connection_max_submissions : ℕ
connection_max_submissions = 10

abbrev pub max_ack_items : ℕ
max_ack_items = 100

abbrev pub official_multica_url : String
official_multica_url = "https://multica.ai"

abbrev pub unsupported_multica_server : String
unsupported_multica_server = "unsupported Multica server"

abbrev pub pending_expired_reason : String
pending_expired_reason = "pending token expired before the worker collected it; reconnect to retry"

-- A row of `connections`; the key is its `user_id`.
pub record Connection : Type 0 where
  pub server_url : String
  pub workspace_label : Option String
  pub token : Option String
  pub token_epoch : ℕ
  pub status : Status
  pub created_at : ℕ
  pub updated_at : ℕ
  pub lease_id : Option String
  pub lease_expires_at : ℕ
  pub revoke_acked_at : Option ℕ
  pub last_sync_error : Option String
  pub last_synced_at : Option ℕ

-- A row of `connection_throttle`.
pub record Throttle : Type 0 where
  pub window_started : ℕ
  pub submissions : ℕ

pub record Host : Type 0 where
  -- the ids of the `users` table
  pub users : List ℕ
  pub connections : Table Connection
  pub throttle : Table Throttle
  -- `worker_nonces`: each nonce with its `seen_at`
  pub nonces : List (String × ℕ)
  -- the one row of `worker_status`
  pub last_seen_at : Option ℕ

-- The columns of `_STATUS_COLUMNS`: no token and no lease.
pub record StatusView : Type 0 where
  pub user_id : ℕ
  pub workspace_label : Option String
  pub status : Status
  pub token_epoch : ℕ
  pub created_at : ℕ
  pub updated_at : ℕ
  pub last_sync_error : Option String
  pub last_synced_at : Option ℕ

abbrev pub status_view : ℕ → Connection → StatusView
status_view user_id row = record {
  user_id = user_id;
  workspace_label = row.workspace_label;
  status = row.status;
  token_epoch = row.token_epoch;
  created_at = row.created_at;
  updated_at = row.updated_at;
  last_sync_error = row.last_sync_error;
  last_synced_at = row.last_synced_at;
}

-- An exception that leaves the function.
pub data Refusal : Type 0 where
  unsupported_server invalid_tenant_id unknown_user invalid_ack_batch : Refusal

pub data Result {ℓ} (A : Type ℓ) : Type ℓ where
  ok : A → Result A
  raised : Refusal → Result A

infixl 5 ◌>>=◌
abbrev pub ◌>>=◌ {ℓ κ} : {A : Type ℓ} {B : Type κ} → Result A → (A → Result B) → Result B
ok a >>= f = f a
raised e >>= f = raised e

-- SELECT 1 FROM users WHERE id = ?
unfoldable pub is_user : ℕ → List ℕ → Bool
is_user u [] = false
is_user u (v ∷ vs) = let rest = is_user u vs in if v == u then true else rest

pub Result-cases {ℓ} :
    {A : Type ℓ} (r : Result A) → ((a : A) × (r ≡ ok a)) ⊎ ((e : Refusal) × (r ≡ raised e))
Result-cases (ok a) = inl (a, refl)
Result-cases (raised e) = inr (e, refl)
