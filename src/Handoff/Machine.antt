-- ===== src/Handoff/Machine.antt =====
-- The channel as one state machine: a request is one call of aistat/handoff.py that can change
-- security.db, with the moment at which it runs.
use aistat.Prelude.{ℕ, String, Option, List, [], ◌∷◌}
use aistat.Tenant.{Value}
use aistat.Handoff.State.{Host}
use aistat.Handoff.Intake.{
  connection_status, submit_connection, revoke_connection, reserve_connection_submission,
}
use aistat.Handoff.Pull.{lease_pending_connections, consume_worker_nonce}
use aistat.Handoff.Acks.{Ack, apply_worker_acks}

pub data Request : Type 0 where
  reads : Value → ℕ → Request
  submits : Value → Option String → Option String → String → Request
  revokes reserves : Value → Request
  pulls : (ℕ → String) → ℕ → Request
  consumes : String → ℕ → Request
  acknowledges : List (Option Ack) → Request

unfoldable pub serve : ℕ → Request → Host → Host
serve now (reads value ttl) h = (connection_status value ttl now h).0
serve now (submits value url label token) h = (submit_connection value url label token now h).0
serve now (revokes value) h = (revoke_connection value now h).0
serve now (reserves value) h = (reserve_connection_submission value now h).0
serve now (pulls draw ttl) h = (lease_pending_connections draw ttl now h).0
serve now (consumes nonce max_age) h = (consume_worker_nonce nonce max_age now h).0
serve now (acknowledges acks) h = (apply_worker_acks now acks h).0

-- Any history of requests, each with its moment.
unfoldable pub run : List (ℕ × Request) → Host → Host
run [] h = h
run ((now, r) ∷ rest) h = run rest (serve now r h)
