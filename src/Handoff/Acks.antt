-- ===== src/Handoff/Acks.antt =====
-- The worker's acknowledgements (aistat/handoff.py): each item is its own transaction.
use aistat.Prelude.{
  ℕ, String, Bool, true, false, not, ◌&&◌, ◌||◌, Option, none, some, List, [], ◌∷◌, ltb, leb, ◌==◌,
  if◌then◌else◌, str_eq, length,
}
use aistat.Table.{find, update}
use aistat.Tenant.{canonical_tenant_id, Value}
use aistat.Handoff.State.{
  Status, active, error, revocation_pending, revoked, leasable, Connection, Host, Result, ok,
  raised, invalid_ack_batch, max_ack_items,
}
use aistat.Handoff.Validation.{safe_sync_error, default_sync_error}

-- The pair that an acknowledgement returns: accepted with the new status, or a reason.
pub data Reply : Type 0 where
  accepted : Status → Reply
  invalid_request unknown_connection stale_epoch stale_lease invalid_state : Reply

abbrev pub is_accepted : Reply → Bool
is_accepted (accepted s) = true
is_accepted _ = false

-- Replace a row by key, or leave the database.
abbrev pub written : ℕ → (Connection → Connection) → Host → Host
written user_id f h = record h { connections = update user_id f h.connections }

unfoldable pub activated : ℕ → Connection → Connection
activated now row = record row {
  token = none;
  status = active;
  updated_at = now;
  lease_id = none;
  lease_expires_at = 0;
  last_sync_error = none;
}

-- The guards of `ack_connection_stored` on the row, in their order.
unfoldable pub stored_reply : String → ℕ → ℕ → Connection → Reply
stored_reply lease_id token_epoch now row =
    if not (leasable row.status && row.token_epoch == token_epoch)
    then stale_epoch
    else elim row.lease_id [
      | none ↦ stale_lease
      | some held ↦
          if str_eq held "" || not (str_eq held lease_id)
          then stale_lease
          else if leb row.lease_expires_at now
          then stale_lease
          else accepted active
    ]

unfoldable pub settle_stored : ℕ → ℕ → Host → Reply → Host × Reply
settle_stored user_id now h (accepted s) = (written user_id (activated now) h, accepted s)
settle_stored user_id now h reply = (h, reply)

unfoldable pub stored_found : ℕ → String → ℕ → ℕ → Host → Option Connection → Host × Reply
unfolding stored_reply settle_stored
stored_found user_id lease_id token_epoch now h none = (h, unknown_connection)
stored_found user_id lease_id token_epoch now h (some row) =
    settle_stored user_id now h (stored_reply lease_id token_epoch now row)

-- `token_epoch` is `none` where `int()` refuses the value, `lease_id` where it is no text.
unfoldable pub ack_connection_stored : Value → Option String → Option ℕ → ℕ → Host → Host × Reply
unfolding stored_found
ack_connection_stored value lease_id none now h = (h, invalid_request)
ack_connection_stored value none (some token_epoch) now h = (h, invalid_request)
ack_connection_stored value (some lease_id) (some token_epoch) now h =
    elim (canonical_tenant_id value) [
      | none ↦ (h, invalid_request)
      | some user_id ↦
          if str_eq lease_id ""
          then (h, invalid_request)
          else stored_found user_id lease_id token_epoch now h (find user_id h.connections)
    ]

unfoldable pub confirmed : ℕ → Connection → Connection
confirmed now row = record row { status = revoked; revoke_acked_at = some now; updated_at = now }

-- The branches on the status of a row with the acknowledged epoch.
unfoldable pub settle_revoked : ℕ → ℕ → Host → Status → Host × Reply
settle_revoked user_id now h revoked = (h, accepted revoked)
settle_revoked user_id now h revocation_pending =
    (written user_id (confirmed now) h, accepted revoked)
settle_revoked user_id now h _ = (h, stale_epoch)

unfoldable pub revoked_found : ℕ → ℕ → ℕ → Host → Option Connection → Host × Reply
unfolding settle_revoked
revoked_found user_id token_epoch now h none = (h, unknown_connection)
revoked_found user_id token_epoch now h (some row) =
    if row.token_epoch == token_epoch
    then settle_revoked user_id now h row.status
    else (h, stale_epoch)

unfoldable pub ack_connection_revoked : Value → Option ℕ → ℕ → Host → Host × Reply
unfolding revoked_found
ack_connection_revoked value none now h = (h, invalid_request)
ack_connection_revoked value (some token_epoch) now h = elim (canonical_tenant_id value) [
  | none ↦ (h, invalid_request)
  | some user_id ↦ revoked_found user_id token_epoch now h (find user_id h.connections)
]

-- The `error` field of a report.
pub data Message : Type 0 where
  absent not_text : Message
  said : String → Message

unfoldable pub message_text : Message → Option String
message_text (said s) = some s
message_text _ = none

unfoldable pub synced : Bool → Message → ℕ → Connection → Connection
unfolding message_text
synced true message now row = record row {
  status = active;
  last_synced_at = some now;
  last_sync_error = none;
  updated_at = now;
}
synced false message now row = record row {
  status = error;
  last_sync_error = some (safe_sync_error (message_text message) default_sync_error);
  updated_at = now;
}

abbrev pub status_after : Bool → Status
status_after true = active
status_after false = error

-- `status in ("active", "error")`
unfoldable pub is_reportable : Status → Bool
is_reportable active = true
is_reportable error = true
is_reportable _ = false

unfoldable pub sync_found : ℕ → ℕ → Bool → Message → ℕ → Host → Option Connection → Host × Reply
sync_found user_id token_epoch good message now h none = (h, unknown_connection)
sync_found user_id token_epoch good message now h (some row) =
    if row.token_epoch == token_epoch
    then (if is_reportable row.status
        then (written user_id (synced good message now) h, accepted (status_after good))
        else (h, invalid_state))
    else (h, stale_epoch)

unfoldable pub record_connection_sync : Value → Option ℕ → Bool → Message → ℕ → Host → Host × Reply
unfolding sync_found
record_connection_sync value none good message now h = (h, invalid_request)
record_connection_sync value (some token_epoch) good not_text now h = (h, invalid_request)
record_connection_sync value (some token_epoch) good message now h =
    elim (canonical_tenant_id value) [
      | none ↦ (h, invalid_request)
      | some user_id ↦
          sync_found user_id token_epoch good message now h (find user_id h.connections)
    ]

-- The `result` field of an item.
pub data AckResult : Type 0 where
  was_stored was_revoked sync_ok sync_error unrecognised : AckResult

pub record Ack : Type 0 where
  pub user_id : Value
  pub token_epoch : Option ℕ
  pub lease_id : Option String
  pub result : AckResult
  pub error : Message

unfoldable pub apply_ack : ℕ → Ack → AckResult → Host → Host × Reply
apply_ack now a was_stored h = ack_connection_stored a.user_id a.lease_id a.token_epoch now h
apply_ack now a was_revoked h = ack_connection_revoked a.user_id a.token_epoch now h
apply_ack now a sync_ok h = record_connection_sync a.user_id a.token_epoch true a.error now h
apply_ack now a sync_error h = record_connection_sync a.user_id a.token_epoch false a.error now h
apply_ack now a unrecognised h = (h, invalid_request)

-- One item of the batch; `none` is an item that is no JSON object.
unfoldable pub apply_item : ℕ → Option Ack → Host → Host × Reply
unfolding apply_ack
apply_item now none h = (h, invalid_request)
apply_item now (some a) h = apply_ack now a a.result h

-- An entry of the answer.
pub record AckEntry : Type 0 where
  pub user_id : Option ℕ
  pub reply : Reply

entry_of : Option Ack → Reply → AckEntry
entry_of none reply = record { user_id = none; reply = reply }
entry_of (some a) reply = record { user_id = canonical_tenant_id a.user_id; reply = reply }

unfoldable pub apply_items : ℕ → List (Option Ack) → Host → Host × List AckEntry
unfolding entry_of
apply_items now [] h = (h, [])
apply_items now (a ∷ rest) h =
    let (h', reply) = apply_item now a h in
    let (h'', entries) = apply_items now rest h' in (h'', entry_of a reply ∷ entries)

unfoldable pub apply_worker_acks : ℕ → List (Option Ack) → Host → Host × Result (List AckEntry)
apply_worker_acks now acks h =
    if ltb max_ack_items (length acks)
    then (h, raised invalid_ack_batch)
    else (let (h', entries) = apply_items now acks h in (h', ok entries))
