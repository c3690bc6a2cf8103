-- ===== src/Protocol/Tests.antt =====
-- A run of the whole handoff: submit, pull, store, acknowledge, disconnect, pull, delete, confirm.
use aistat.Prelude.{ℕ, ◌≡◌, refl, String, true, false, Option, none, some, List, [], ◌∷◌, inl, map}
use aistat.Table.{find, upsert, update, delete, update_all, scan}
use aistat.Tenant.{canonical_tenant_id, int}
use aistat.Handoff.State.{Connection, revoked, is_user}
use aistat.Handoff.Intake.{submit_connection, revoke_connection, purge_expired_pending}
use aistat.Handoff.Pull.{Pulled, lease_pending_connections}
use aistat.Handoff.Acks.{apply_worker_acks}
use aistat.Handoff.Machine.{Request, submits, revokes, serve}
use aistat.WorkerStore.{Fernet, is_current}
use aistat.WorkerSync.{pull_once, SentAck}
use aistat.WorkerSync.Loop.{batch}
use aistat.Protocol.{
  System, Step, serves, answers, syncs, applies, Reach, here, next, response, received,
}
use aistat.Protocol.Safety.{initial, revoked-gone}

-- A stand-in for the encryption that meets its law.
abbrev plain : Fernet
plain = record {
  encrypt = λ seed token. token;
  decrypt = λ c. some c;
  decrypt-encrypt = λ seed token. refl;
}

abbrev serving : ℕ → Request → System → System
serving now r s = record s { host = serve now r s.host }

abbrev answering : ℕ → System → System
answering now s = record s {
  host = (lease_pending_connections (λ u. "lease") 600 now s.host).0;
  answers = (lease_pending_connections (λ u. "lease") 600 now s.host).1 ∷ s.answers;
}

abbrev last_answer : System → Pulled
last_answer s = elim s.answers [ [] ↦ record { pending = []; revoked = [] } | p ∷ ps ↦ p ]

abbrev last_batch : System → List SentAck
last_batch s = elim s.batches [ [] ↦ [] | b ∷ bs ↦ b ]

abbrev syncing : ℕ → System → System
syncing now s = record s {
  worker = (pull_once plain now (λ u. 0) (response (last_answer s)) s.worker).0;
  batches = batch (pull_once plain now (λ u. 0) (response (last_answer s)) s.worker).1 ∷ s.batches;
}

abbrev applying : ℕ → System → System
applying now s = record s { host = (apply_worker_acks now (map received (last_batch s)) s.host).0 }

abbrev submission : Request
submission = submits (int 7) none none "token-12345678"

abbrev asked : System
asked = answering 110 (serving 100 submission (initial (7 ∷ [])))

abbrev connected : System
connected = applying 130 (syncing 120 asked)

abbrev cut_off : System
cut_off = answering 210 (serving 200 (revokes (int 7)) connected)

abbrev final : System
final = applying 230 (syncing 220 cut_off)

abbrev final_row : Connection
final_row = record {
  server_url = "https://multica.ai";
  workspace_label = none;
  token = none;
  token_epoch = 2;
  status = revoked;
  created_at = 100;
  updated_at = 230;
  lease_id = none;
  lease_expires_at = 0;
  revoke_acked_at = some 230;
  last_sync_error = none;
  last_synced_at = none;
}

reaches : Reach plain (initial (7 ∷ [])) final
reaches =
    next
      (next
        (next
          (next
            (next
              (next (next (next here (serves 100 submission refl)) (answers (λ u. "lease") 600 110))
                (syncs (λ u. 0) 120 (last_answer asked) (inl refl)))
              (applies 130 (last_batch (syncing 120 asked)) (inl refl)))
            (serves 200 (revokes (int 7)) refl))
          (answers (λ u. "lease") 600 210))
        (syncs (λ u. 0) 220 (last_answer cut_off) (inl refl)))
      (applies 230 (last_batch (syncing 220 cut_off)) (inl refl))

final_found : find 7 final.host.connections ≡ some final_row
unfolding find upsert update delete update_all scan canonical_tenant_id is_user submit_connection
    revoke_connection purge_expired_pending lease_pending_connections apply_worker_acks serve
    pull_once response received aistat.WorkerSync.sync_pending
    aistat.Handoff.Pull.record_worker_heartbeat
    aistat.Handoff.Validation.normalize_official_server_url aistat.Handoff.Intake.submitted
    aistat.Handoff.Pull.lease_row aistat.Handoff.Intake.purge_row aistat.Handoff.Intake.is_expired
    aistat.Handoff.Intake.created aistat.WorkerSync.after_store aistat.WorkerSync.store_item
    aistat.WorkerStore.store_token aistat.WorkerSync.sync_revoked aistat.Handoff.Pull.revocation
    aistat.Handoff.Acks.apply_items aistat.Handoff.Acks.apply_item
    aistat.Handoff.Acks.ack_connection_stored aistat.Handoff.Intake.revoke_row
    aistat.Handoff.Acks.ack_connection_revoked aistat.Handoff.Acks.activated
    aistat.Handoff.Acks.apply_ack aistat.Handoff.Acks.confirmed aistat.Handoff.Acks.revoked_found
    aistat.Handoff.Acks.settle_revoked aistat.Handoff.Acks.settle_stored
    aistat.Handoff.Acks.stored_found aistat.Handoff.Acks.stored_reply aistat.Handoff.Intake.erased
    aistat.Handoff.Intake.is_revocable aistat.Handoff.Intake.replaced
    aistat.Handoff.Validation.canonical_official_server_url aistat.Prelude.member
    aistat.Prelude.strip aistat.Protocol.pending_item aistat.Protocol.revoked_item
    aistat.Tenant.in_range aistat.WorkerStore.delete_connection aistat.WorkerStore.get_credential
    aistat.WorkerStore.same_data aistat.WorkerStore.store_version
    aistat.WorkerStore.write_credential aistat.WorkerStore.write_tombstone
    aistat.WorkerSync.after_delete aistat.WorkerSync.proceed
final_found = refl

revoked-gone_example :
    (find 7 final.worker.connections ≡ none) × ((e : ℕ) → is_current 7 e final.worker ≡ false)
revoked-gone_example = revoked-gone plain (7 ∷ []) final reaches 7 final_row final_found refl
