-- ===== src/Handoff/Pull.antt =====
-- The worker's authenticated pull (aistat/handoff.py): heartbeat, expiry sweep, leases and the list
-- of revocations to confirm; and the single use of request nonces.
use aistat.Prelude.{
  ℕ, ◌+◌, ◌*◌, String, Bool, true, false, Option, none, some, List, [], ◌∷◌, leb, if◌then◌else◌,
  str_eq, is_some,
}
use aistat.Table.{update_all, scan}
use aistat.Handoff.State.{
  revocation_pending, leasable, Connection, Host, Result, ok, raised, official_multica_url,
  unsupported_multica_server, worker_lease_seconds, worker_nonce_ttl_factor,
}
use aistat.Handoff.Validation.{normalize_official_server_url}
use aistat.Handoff.Intake.{erased, purge_expired_pending}

-- _record_worker_heartbeat_locked
unfoldable pub record_worker_heartbeat : ℕ → Host → Host
record_worker_heartbeat now h = record h { last_seen_at = some now }

-- `now - last_seen_at <= ttl`, over the integers.
unfoldable pub worker_ready : ℕ → ℕ → Host → Bool
worker_ready ttl now h = elim h.last_seen_at [ none ↦ false | some seen ↦ leb now (ttl + seen) ]

-- An entry of the `pending` list.
pub record Pending : Type 0 where
  pub user_id : ℕ
  pub server_url : String
  pub workspace_label : Option String
  pub token : String
  pub token_epoch : ℕ
  pub lease_id : String
  pub lease_expires_at : ℕ

-- An entry of the `revoked` list.
pub record Revocation : Type 0 where
  pub user_id : ℕ
  pub token_epoch : ℕ

-- The lease of a row whose server URL is official.
grant : String → ℕ → ℕ → Connection → String → String → Connection × Option Pending
grant lease_id now user_id row token url = (
  record row {
    server_url = url;
    lease_id = some lease_id;
    lease_expires_at = now + worker_lease_seconds;
  },
  some (record {
    user_id = user_id;
    server_url = url;
    workspace_label = row.workspace_label;
    token = token;
    token_epoch = row.token_epoch;
    lease_id = lease_id;
    lease_expires_at = now + worker_lease_seconds;
  }),
)

-- A row whose server URL is not official loses its token.
settle_url : String → ℕ → ℕ → Connection → String → Result String → Connection × Option Pending
unfolding grant
settle_url lease_id now user_id row token (ok url) = grant lease_id now user_id row token url
settle_url lease_id now user_id row token (raised e) =
    (record (erased now row) { last_sync_error = some unsupported_multica_server }, none)

lease_token : String → ℕ → ℕ → Connection → Option String → Connection × Option Pending
unfolding settle_url
lease_token lease_id now user_id row none = (row, none)
lease_token lease_id now user_id row (some token) =
    if leasable row.status
    then settle_url lease_id now user_id row token
        (normalize_official_server_url (some row.server_url) official_multica_url)
    else (row, none)

-- What the loop does with one selected row: the row that it leaves and the entry that it appends.
-- `lease_id` is the secret drawn for the row.
unfoldable pub lease_row : String → ℕ → ℕ → Connection → Connection × Option Pending
unfolding lease_token
lease_row lease_id now user_id row = lease_token lease_id now user_id row row.token

unfoldable pub revocation : ℕ → Connection → Option Revocation
revocation user_id row = elim row.status [
  | revocation_pending ↦
      if is_some row.revoke_acked_at
      then none
      else some (record { user_id = user_id; token_epoch = row.token_epoch })
  | _ ↦ none
]

pub record Pulled : Type 0 where
  pub pending : List Pending
  pub revoked : List Revocation

-- `draw u` is the value of `secrets.token_urlsafe` for the row of user `u` in this pull.
unfoldable pub lease_pending_connections : (ℕ → String) → ℕ → ℕ → Host → Host × Pulled
lease_pending_connections draw ttl now h =
    let swept = purge_expired_pending ttl now (record_worker_heartbeat now h) in
    let rows = update_all (λ u row. (lease_row (draw u) now u row).0) swept.connections in
    (
      record swept { connections = rows },
      record {
        pending = scan (λ u row. (lease_row (draw u) now u row).1) swept.connections;
        revoked = scan revocation rows;
      },
    )

-- DELETE FROM worker_nonces WHERE seen_at <= now - ttl, over the integers.
unfoldable pub forget : ℕ → ℕ → List (String × ℕ) → List (String × ℕ)
forget ttl now [] = []
forget ttl now ((nonce, seen_at) ∷ rest) =
    let kept = forget ttl now rest in
    if leb (seen_at + ttl) now then kept else (nonce, seen_at) ∷ kept

unfoldable pub is_seen : String → List (String × ℕ) → Bool
is_seen nonce [] = false
is_seen nonce ((n, seen_at) ∷ rest) =
    let later = is_seen nonce rest in if str_eq n nonce then true else later

-- A nonce that is still stored violates the primary key, and the transaction rolls back.
unfoldable pub consume_worker_nonce : String → ℕ → ℕ → Host → Host × Bool
consume_worker_nonce nonce max_age now h =
    let kept = forget (max_age * worker_nonce_ttl_factor) now h.nonces in
    if is_seen nonce kept then (h, false) else (record h { nonces = (nonce, now) ∷ kept }, true)
