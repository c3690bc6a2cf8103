-- ===== src/Handoff/Tests.antt =====
-- The channel on concrete requests.
use aistat.Prelude.{
  ℕ, ◌≡◌, refl, true, false, Option, none, some, List, [], ◌∷◌, All, String, size, all_codes, arith,
}
use aistat.Table.{find, scan, update_all, Rows-single, IsKeyed}
use aistat.Tenant.{int, canonical_tenant_id, in_range}
use aistat.Handoff.State.{
  Host, Connection, active, pending, revocation_pending, ok, official_multica_url,
}
use aistat.Handoff.Validation.{
  safe_sync_error, safe_sync_error-is_safe, is_safe, normalize_official_server_url-official,
  official-accepted, normalize_official_server_url,
}
use aistat.Handoff.Pull.{
  lease_row, revocation, record_worker_heartbeat, lease_pending_connections, Pending,
  consume_worker_nonce, forget, is_seen,
}
use aistat.Handoff.Intake.{
  purge_expired_pending, purge_row, is_expired, reserve_connection_submission,
}
use aistat.Handoff.Nonces.{is_fresh, consume_all}
use aistat.Handoff.Requests.{
  Signed, worker_signature, validate_worker_nonce, verify_worker_request, admit_request,
  admit_request_again,
}
use aistat.Handoff.Settlement.{settle, ack_connection_stored_once}
use aistat.Handoff.Slots.{attempt_at, attempt_at-reserve_connection_submission}
use aistat.Handoff.Acks.{was_stored, absent, accepted, stale_epoch}
use aistat.Handoff.Machine.{Request, submits, pulls, acknowledges, revokes, reserves, consumes, run}
use aistat.Handoff.Plaintext.{IsSound, IsSoundHost, run-IsSound}
use aistat.Handoff.Epochs.{Advances, run-Advances}
use aistat.Handoff.Answer.{IsLeased, IsWaiting, pull-IsLeased}

abbrev row : Connection
row = record {
  server_url = official_multica_url;
  workspace_label = some "team";
  token = none;
  token_epoch = 4;
  status = active;
  created_at = 50;
  updated_at = 60;
  lease_id = none;
  lease_expires_at = 0;
  revoke_acked_at = none;
  last_sync_error = none;
  last_synced_at = none;
}

abbrev host : Host
host = record {
  users = 7 ∷ [];
  connections = (7, row) ∷ [];
  throttle = [];
  nonces = [];
  last_seen_at = none;
}

abbrev draw : ℕ → String
draw u = "lease"

abbrev history : List (ℕ × Request)
history =
    (100, submits (int 7) none (some "team") "token-12345678")
    ∷ (110, consumes "nonce" 300)
    ∷ (110, pulls draw 600)
    ∷ (
      120,
      acknowledges (
          some (record {
            user_id = int 7;
            token_epoch = some 5;
            lease_id = some "lease";
            result = was_stored;
            error = absent;
          })
          ∷ []),
    )
    ∷ (130, reserves (int 7))
    ∷ (140, revokes (int 7))
    ∷ []

host-IsSound : IsSoundHost host
host-IsSound =
    Rows-single (λ _ c. IsSound c) 7 row
      (λ u. record {
        plaintext = refl;
        leased = λ e. e;
        acked = refl;
        issued = omega arith;
        reported = refl;
      })

run-IsSound_example : IsSoundHost (run history host)
run-IsSound_example = run-IsSound history host host-IsSound

host_found : find 7 host.connections ≡ some row
unfolding find
host_found = refl

run-Advances_example :
    (d : Connection) × (find 7 (run history host).connections ≡ some d) × Advances row d
run-Advances_example = run-Advances history host 7 row host_found

-- A host with a token that waits for the worker, and a revocation.
abbrev waiting_host : Host
waiting_host = record host {
  connections =
      (7, record row { token = some "token-12345678"; status = pending })
      ∷ (9, record row { token_epoch = 6; status = revocation_pending })
      ∷ [];
}

waiting_host-IsKeyed : IsKeyed waiting_host.connections
waiting_host-IsKeyed = ((omega arith, tt), (tt, tt))

pull-IsLeased_example :
    All
      (IsLeased (lease_pending_connections draw 600 200 waiting_host).0 200)
      (lease_pending_connections draw 600 200 waiting_host).1.pending
    × All
        (IsWaiting (lease_pending_connections draw 600 200 waiting_host).0)
        (lease_pending_connections draw 600 200 waiting_host).1.revoked
pull-IsLeased_example = pull-IsLeased draw 600 200 waiting_host waiting_host-IsKeyed

pulled_both : (lease_pending_connections draw 600 200 waiting_host).1 ≡ record {
  pending =
      record {
        user_id = 7;
        server_url = official_multica_url;
        workspace_label = some "team";
        token = "token-12345678";
        token_epoch = 4;
        lease_id = "lease";
        lease_expires_at = 800;
      }
      ∷ [];
  revoked = record { user_id = 9; token_epoch = 6 } ∷ [];
}
unfolding lease_pending_connections scan purge_expired_pending update_all record_worker_heartbeat
    lease_row revocation purge_row is_expired normalize_official_server_url
pulled_both = refl

safe_sync_error-is_safe_example : is_safe (safe_sync_error (some "token=secret") "boom") ≡ true
safe_sync_error-is_safe_example = safe_sync_error-is_safe (some "token=secret") "boom"

normalize_official_server_url-official_example : official_multica_url ≡ official_multica_url
normalize_official_server_url-official_example =
    normalize_official_server_url-official (some official_multica_url) official_multica_url
      official_multica_url official-accepted

abbrev leased_row : Connection
leased_row = record row {
  token = some "token-12345678";
  status = pending;
  lease_id = some "lease";
  lease_expires_at = 700;
}

abbrev leased_host : Host
leased_host = record host { connections = (7, leased_row) ∷ [] }

abbrev delivery : Pending
delivery = record {
  user_id = 7;
  server_url = official_multica_url;
  workspace_label = some "team";
  token = "token-12345678";
  token_epoch = 4;
  lease_id = "lease";
  lease_expires_at = 700;
}

delivery-IsLeased : IsLeased leased_host 100 delivery
unfolding find
delivery-IsLeased = record {
  row = leased_row;
  found = refl;
  same_token = refl;
  same_epoch = refl;
  same_lease = refl;
  expires = refl;
  collectable = refl;
  pinned = refl;
}

seven : canonical_tenant_id (int 7) ≡ some 7
unfolding canonical_tenant_id in_range
seven = refl

ack_connection_stored_once_example :
    ((settle delivery 120 leased_host).1 ≡ accepted active)
    × (find 7 (settle delivery 120 leased_host).0.connections
        ≡ some (record delivery-IsLeased.row {
          token = none;
          status = active;
          updated_at = 120;
          lease_id = none;
          lease_expires_at = 0;
          last_sync_error = none;
        }))
    × (settle delivery 130 (settle delivery 120 leased_host).0
        ≡ ((settle delivery 120 leased_host).0, stale_epoch))
ack_connection_stored_once_example =
    ack_connection_stored_once leased_host 100 120 130 delivery delivery-IsLeased seven refl
      (omega arith)

no_row : find 7 host.throttle ≡ none
unfolding find
no_row = refl

attempt_at-reserve_connection_submission_example :
    (reserve_connection_submission (int 7) 300 (attempt_at 7 (100 ∷ 200 ∷ []) host)).1 ≡ ok 0
attempt_at-reserve_connection_submission_example =
    attempt_at-reserve_connection_submission 7 100 300 (200 ∷ []) host seven no_row
      (omega arith, tt) (omega arith)

abbrev signed_request : Signed
signed_request = record {
  timestamp = "100";
  nonce = some "nonce-0123456789";
  signature = "nonce-0123456789";
  body = "{}";
}

abbrev example_mac : String → String → ℕ → String → String → String
example_mac secret path timestamp nonce digest = nonce

abbrev example_digest : String → String
example_digest body = body

abbrev example_parse : String → Option ℕ
example_parse value = some 100

first_admitted :
    (admit_request example_mac example_digest example_parse "secret" "/pull" 60 109 110
      signed_request host).1
    ≡ true
unfolding admit_request verify_worker_request worker_signature validate_worker_nonce is_fresh
    consume_worker_nonce forget is_seen size all_codes
first_admitted = refl

admit_request_again_example :
    (admit_request example_mac example_digest example_parse "secret" "/pull" 60 149 150
      signed_request
      (consume_all 60
        ((120, "other") ∷ [])
        (admit_request example_mac example_digest example_parse "secret" "/pull" 60 109 110
          signed_request host).0)).1
    ≡ false
admit_request_again_example =
    admit_request_again example_mac example_digest example_parse "secret" "/pull" 60 109 110 149 150
      signed_request ((120, "other") ∷ []) host (omega arith) (omega arith) (omega arith, tt)
      first_admitted
