-- ===== src/Handoff/Change/Calls.antt =====
-- The user's calls and the pull, as changes of rows.
use aistat.Prelude.{ℕ, ◌*◌, String, inl, inr, Option, Option-cases, Bool-cases}
use aistat.Table.{Table, find}
use aistat.Tenant.{canonical_tenant_id, Value}
use aistat.Handoff.State.{
  Connection, Host, is_user, Result-cases, worker_nonce_ttl_factor, official_multica_url,
}
use aistat.Handoff.Validation.{normalize_official_server_url}
use aistat.Handoff.Intake.{
  purge_row, purge_expired_pending, connection_status, replaced, created, submitted,
  submit_connection, revoke_row, revoke_connection, reserve_connection_submission,
}
use aistat.Handoff.Pull.{
  lease_row, lease_pending_connections, consume_worker_nonce, record_worker_heartbeat, forget,
  is_seen,
}
use aistat.Handoff.Change.{
  purges, replaces, erases, leases, Evolved, Rule, updated, updated_all, inserted, Kept, Kept-refl,
  Kept-trans,
}

module _ {A : ℕ → ℕ → Type 0} {New : ℕ → Connection → Type 0}
    {P : ℕ → Connection → Connection → Type 0} (rule : Rule A New P) where
  pub purge-Kept : (ttl now : ℕ) (h : Host) → Kept New P h (purge_expired_pending ttl now h)
  unfolding purge_expired_pending
  purge-Kept ttl now h =
      updated_all rule (λ _ c. purge_row ttl now c) h.connections
        (λ u c. rule.step u c (purge_row ttl now c) (purges ttl now c))

  pub status-Kept :
      (value : Value) (ttl now : ℕ) (h : Host) → Kept New P h (connection_status value ttl now h).0
  unfolding connection_status
  status-Kept value ttl now h = elim (Option-cases (canonical_tenant_id value)) [
    | inl e ↦ rw (e, connection_status) (Kept-refl rule h)
    | inr (u, e) ↦ rw (e, connection_status) (purge-Kept ttl now h)
  ]

  submitted-Kept :
      (u : ℕ) (url : String) (label : Option String) (token : String) (now : ℕ)
      (m : Table Connection)
      → Evolved New P m (submitted u url label token now m)
  unfolding submitted
  submitted-Kept u url label token now m = elim (Option-cases (find u m)) [
    | inl e ↦
        rw (e, submitted)
          (inserted rule u (created url label token now) m e (rule.fresh u url label token now))
    | inr (c, e) ↦
        rw (e, submitted)
          (updated rule u (replaced url label token now) m (λ d _.
            rule.step u d (replaced url label token now d) (replaces url label token now d)))
  ]

  pub submit-Kept :
      (value : Value) (url label : Option String) (token : String) (now : ℕ) (h : Host)
      → Kept New P h (submit_connection value url label token now h).0
  unfolding submit_connection
  submit-Kept value url label token now h =
      elim (Result-cases (normalize_official_server_url url official_multica_url)) [
        | inr (r, e) ↦ rw (e, submit_connection) (Kept-refl rule h)
        | inl (official, e) ↦ elim (Option-cases (canonical_tenant_id value)) [
          | inl n ↦ rw (e, submit_connection, n) (Kept-refl rule h)
          | inr (u, n) ↦ elim (Bool-cases (is_user u h.users)) [
            | inl t ↦
                rw (e, submit_connection, n, t)
                  (submitted-Kept u official label token now h.connections)
            | inr f ↦ rw (e, submit_connection, n, f) (Kept-refl rule h)
          ]
        ]
      ]

  pub revoke-Kept :
      (value : Value) (now : ℕ) (h : Host) → Kept New P h (revoke_connection value now h).0
  unfolding revoke_connection
  revoke-Kept value now h = elim (Option-cases (canonical_tenant_id value)) [
    | inl e ↦ rw (e, revoke_connection) (Kept-refl rule h)
    | inr (u, e) ↦ elim (Option-cases (find u h.connections)) [
      | inl f ↦ rw (e, revoke_connection, f) (Kept-refl rule h)
      | inr (c, f) ↦
          rw (e, revoke_connection, f)
            (updated rule u (revoke_row now) h.connections
              (λ d _. rule.step u d (revoke_row now d) (erases now d)))
    ]
  ]

  pub reserve-Kept :
      (value : Value) (now : ℕ) (h : Host)
      → Kept New P h (reserve_connection_submission value now h).0
  unfolding reserve_connection_submission
  reserve-Kept value now h = elim (Option-cases (canonical_tenant_id value)) [
    | inl e ↦ rw (e, reserve_connection_submission) (Kept-refl rule h)
    | inr (u, e) ↦ rw (e, reserve_connection_submission) (Kept-refl rule h)
  ]

  pub pull-Kept :
      (draw : ℕ → String) (ttl now : ℕ) (h : Host)
      → Kept New P h (lease_pending_connections draw ttl now h).0
  unfolding lease_pending_connections record_worker_heartbeat
  pull-Kept draw ttl now h =
      let swept : Host = purge_expired_pending ttl now (record_worker_heartbeat now h) in
      Kept-trans rule h swept (lease_pending_connections draw ttl now h).0
        (purge-Kept ttl now (record_worker_heartbeat now h))
        (updated_all rule (λ u row. (lease_row (draw u) now u row).0) swept.connections
          (λ u c. rule.step u c (lease_row (draw u) now u c).0 (leases (draw u) now c)))

  pub consume-Kept :
      (nonce : String) (max_age now : ℕ) (h : Host)
      → Kept New P h (consume_worker_nonce nonce max_age now h).0
  unfolding consume_worker_nonce
  consume-Kept nonce max_age now h =
      elim (Bool-cases (is_seen nonce (forget (max_age * worker_nonce_ttl_factor) now h.nonces))) [
        | inl e ↦ rw (e, consume_worker_nonce) (Kept-refl rule h)
        | inr e ↦ rw (e, consume_worker_nonce) (Kept-refl rule h)
      ]
