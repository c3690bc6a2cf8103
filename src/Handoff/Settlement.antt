-- ===== src/Handoff/Settlement.antt =====
-- That the acknowledgement of a delivery settles it, once.
use aistat.Prelude.{
  none, ℕ, ◌+◌, ◌≡◌, ◌<◌, refl, String, false, some, arith, str_eq, eq_refl, leb, ap, ◌∙◌, subst,
  sym, ==_refl,
}
use aistat.Table.{find, find-update}
use aistat.Tenant.{canonical_tenant_id, int}
use aistat.Handoff.State.{Connection, Host, active, worker_lease_seconds}
use aistat.Handoff.Pull.{Pending}
use aistat.Handoff.Acks.{
  Reply, accepted, stale_epoch, activated, stored_reply, settle_stored, stored_found, written,
  ack_connection_stored,
}
use aistat.Handoff.Answer.{IsLeased}

leased_reply :
    (h : Host) (now t : ℕ) (p : Pending) (l : IsLeased h now p)
    → str_eq p.lease_id "" ≡ false
    → t < now + worker_lease_seconds
    → stored_reply p.lease_id p.token_epoch t l.row ≡ accepted active
unfolding stored_reply
leased_reply h now t p l n b =
    let open_lease : leb l.row.lease_expires_at t ≡ false = ground (arith, l.expires) in
    rw
      (
        l.collectable,
        l.same_epoch,
        ==_refl p.token_epoch,
        l.same_lease,
        n,
        eq_refl p.lease_id,
        open_lease,
      )
      refl

-- The acknowledgement of a delivery, as the worker sends it.
abbrev pub settle : Pending → ℕ → Host → Host × Reply
settle p t h = ack_connection_stored (int p.user_id) (some p.lease_id) (some p.token_epoch) t h

settle_opened :
    (h : Host) (t : ℕ) (p : Pending) (row : Connection)
    → canonical_tenant_id (int p.user_id) ≡ some p.user_id
    → str_eq p.lease_id "" ≡ false
    → find p.user_id h.connections ≡ some row
    → settle p t h ≡ settle_stored p.user_id t h (stored_reply p.lease_id p.token_epoch t row)
unfolding ack_connection_stored stored_found
settle_opened h t p row c n f = rw (c, ack_connection_stored, n, f) refl

settled_reply :
    (t t' : ℕ) (lease_id : String) (token_epoch : ℕ) (row : Connection)
    → stored_reply lease_id token_epoch t' (activated t row) ≡ stale_epoch
unfolding stored_reply activated
settled_reply t t' lease_id token_epoch row = refl

-- The acknowledgement of a delivery, as an answer to a pull left it in the database, that arrives
-- before the lease ends, for a canonical user id and with a lease id that is not empty: it is
-- accepted, the row turns active and loses its token and its lease and nothing else of it changes
-- but its date and its error, which is cleared, and the same acknowledgement is stale from
-- then on, at any time.
pub ack_connection_stored_once :
    (h : Host) (now t t' : ℕ) (p : Pending) (l : IsLeased h now p)
    → canonical_tenant_id (int p.user_id) ≡ some p.user_id
    → str_eq p.lease_id "" ≡ false
    → t < now + worker_lease_seconds
    → ((settle p t h).1 ≡ accepted active)
      × (find p.user_id (settle p t h).0.connections
          ≡ some (record l.row {
            token = none;
            status = active;
            updated_at = t;
            lease_id = none;
            lease_expires_at = 0;
            last_sync_error = none;
          }))
      × (settle p t' (settle p t h).0 ≡ ((settle p t h).0, stale_epoch))
unfolding settle_stored activated
ack_connection_stored_once h now t t' p l c n b =
    let done : settle p t h ≡ (written p.user_id (activated t) h, accepted active) =
      settle_opened h t p l.row c n l.found
      ∙ ap (settle_stored p.user_id t h) (leased_reply h now t p l n b) in
    let left : Host = written p.user_id (activated t) h in
    let found : find p.user_id left.connections ≡ some (activated t l.row) =
      rw (find-update, ==_refl, l.found) refl in
    let again : settle p t' left ≡ (left, stale_epoch) =
      settle_opened left t' p (activated t l.row) c n found
      ∙ ap (settle_stored p.user_id t' left) (settled_reply t t' p.lease_id p.token_epoch l.row) in
    subst
      (λ (r : Host × Reply).
        (r.1 ≡ accepted active)
        × (find p.user_id r.0.connections ≡ some (activated t l.row))
        × (settle p t' r.0 ≡ (r.0, stale_epoch)))
      (sym done) (refl, found, again)
