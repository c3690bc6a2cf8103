-- ===== src/Handoff/Intake.antt =====
-- The user's side of the channel (aistat/handoff.py): submit, revoke, read the status with its
-- purge of expired tokens, and the limit on submissions. Each call is one transaction: it returns
-- the database that it leaves, which is the old one where the source rolls back.
use aistat.Prelude.{
  ℕ, ◌+◌, ◌-◌, String, Bool, true, false, ◌&&◌, Option, none, some, ltb, leb, if◌then◌else◌,
}
use mathlib.Core.Option
use aistat.Table.{Table, find, upsert, update, update_all}
use aistat.Tenant.{canonical_tenant_id, Value}
use aistat.Handoff.State.{
  Status, pending, replacement_pending, revocation_pending, revoked, leasable, Connection, Host,
  Throttle, StatusView, status_view, Result, ok, raised, unknown_user, invalid_tenant_id, is_user,
  connection_window_seconds, connection_max_submissions, official_multica_url,
  pending_expired_reason,
}
use aistat.Handoff.Validation.{normalize_official_server_url}

-- The UPDATE that erases a token and asks the worker to delete its copy.
unfoldable pub erased : ℕ → Connection → Connection
erased now row = record row {
  token = none;
  status = revocation_pending;
  token_epoch = row.token_epoch + 1;
  updated_at = now;
  lease_id = none;
  lease_expires_at = 0;
  revoke_acked_at = none;
}

-- `updated_at <= now - ttl`, over the integers.
unfoldable pub is_expired : ℕ → ℕ → Connection → Bool
is_expired ttl now row = leasable row.status && leb (row.updated_at + ttl) now

unfoldable pub purge_row : ℕ → ℕ → Connection → Connection
purge_row ttl now row =
    if is_expired ttl now row
    then record (erased now row) { last_sync_error = some pending_expired_reason }
    else row

-- _purge_expired_pending_locked
unfoldable pub purge_expired_pending : ℕ → ℕ → Host → Host
purge_expired_pending ttl now h = record h {
  connections = update_all (λ _ row. purge_row ttl now row) h.connections;
}

unfoldable pub connection_status : Value → ℕ → ℕ → Host → Host × Result (Option StatusView)
connection_status value ttl now h = elim (canonical_tenant_id value) [
  | none ↦ (h, raised invalid_tenant_id)
  | some user_id ↦
      let h' = purge_expired_pending ttl now h in
      (h', ok (Option.map (status_view user_id) (find user_id h'.connections)))
]

-- The UPDATE of an existing row.
unfoldable pub replaced : String → Option String → String → ℕ → Connection → Connection
replaced server_url label token now row = record row {
  server_url = server_url;
  workspace_label = label;
  token = some token;
  token_epoch = row.token_epoch + 1;
  status = replacement_pending;
  updated_at = now;
  lease_id = none;
  lease_expires_at = 0;
  revoke_acked_at = none;
  last_sync_error = none;
}

-- The INSERT of a new row, with the defaults of its columns.
unfoldable pub created : String → Option String → String → ℕ → Connection
created server_url label token now = record {
  server_url = server_url;
  workspace_label = label;
  token = some token;
  token_epoch = 1;
  status = pending;
  created_at = now;
  updated_at = now;
  lease_id = none;
  lease_expires_at = 0;
  revoke_acked_at = none;
  last_sync_error = none;
  last_synced_at = none;
}

unfoldable pub submitted :
    ℕ → String → Option String → String → ℕ → Table Connection → Table Connection
submitted user_id server_url label token now rows = elim (find user_id rows) [
  | none ↦ upsert user_id (created server_url label token now) rows
  | some row ↦ update user_id (replaced server_url label token now) rows
]

view_of : ℕ → Option Connection → Result StatusView
view_of user_id none = raised unknown_user
view_of user_id (some row) = ok (status_view user_id row)

submit_checked : ℕ → String → Option String → String → ℕ → Host → Host × Result StatusView
unfolding view_of
submit_checked user_id server_url label token now h =
    if is_user user_id h.users
    then (let rows = submitted user_id server_url label token now h.connections in
        (record h { connections = rows }, view_of user_id (find user_id rows)))
    else (h, raised unknown_user)

unfoldable pub submit_connection :
    Value → Option String → Option String → String → ℕ → Host → Host × Result StatusView
unfolding submit_checked
submit_connection value server_url label token now h =
    elim (normalize_official_server_url server_url official_multica_url) [
      | raised e ↦ (h, raised e)
      | ok url ↦ elim (canonical_tenant_id value) [
        | none ↦ (h, raised invalid_tenant_id)
        | some user_id ↦ submit_checked user_id url label token now h
      ]
    ]

-- `status not in ("revocation_pending", "revoked")`
unfoldable pub is_revocable : Status → Bool
is_revocable revocation_pending = false
is_revocable revoked = false
is_revocable _ = true

unfoldable pub revoke_row : ℕ → Connection → Connection
revoke_row now row = if is_revocable row.status then erased now row else row

revoke_found : ℕ → ℕ → Host → Option Connection → Host × Result Bool
revoke_found user_id now h none = (h, ok false)
revoke_found user_id now h (some row) =
    (record h { connections = update user_id (revoke_row now) h.connections }, ok true)

unfoldable pub revoke_connection : Value → ℕ → Host → Host × Result Bool
unfolding revoke_found
revoke_connection value now h = elim (canonical_tenant_id value) [
  | none ↦ (h, raised invalid_tenant_id)
  | some user_id ↦ revoke_found user_id now h (find user_id h.connections)
]

-- The throttle row after an attempt and the answer: 0 grants a slot, else the seconds to wait.
unfoldable pub reserve_row : ℕ → Option Throttle → Option Throttle × ℕ
reserve_row now none = (some (record { window_started = now; submissions = 1 }), 0)
reserve_row now (some row) =
    if ltb now (row.window_started + connection_window_seconds)
    then if leb connection_max_submissions row.submissions
      then (none, row.window_started + connection_window_seconds - now)
      else (some (record row { submissions = row.submissions + 1 }), 0)
    else (some (record { window_started = now; submissions = 1 }), 0)

unfoldable pub write_throttle : ℕ → Option Throttle → Table Throttle → Table Throttle
write_throttle user_id none rows = rows
write_throttle user_id (some row) rows = upsert user_id row rows

unfoldable pub reserve_connection_submission : Value → ℕ → Host → Host × Result ℕ
unfolding write_throttle
reserve_connection_submission value now h = elim (canonical_tenant_id value) [
  | none ↦ (h, raised invalid_tenant_id)
  | some user_id ↦
      let (row, retry_after) = reserve_row now (find user_id h.throttle) in
      (record h { throttle = write_throttle user_id row h.throttle }, ok retry_after)
]
