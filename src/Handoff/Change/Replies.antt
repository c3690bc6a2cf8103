-- ===== src/Handoff/Change/Replies.antt =====
-- The acknowledgements, as changes of rows.
use aistat.Prelude.{
  All, sym, ==_iff, ℕ, ltb, length, String, ◌≡◌, refl, inl, inr, Bool, true, false, subst, Option,
  none, some, List, [], ◌∷◌, arith, ◌==◌, Option-cases, Bool-cases, str_eq,
}
use aistat.Table.{find}
use aistat.Tenant.{canonical_tenant_id, Value}
use aistat.Handoff.State.{max_ack_items, Connection, Host, Status, leasable, revocation_pending}
use aistat.Handoff.Acks.{
  activated, confirmed, synced, settle_stored, settle_revoked, stored_reply, sync_found, Reply,
  accepted, invalid_request, written, apply_ack, AckResult, was_stored, was_revoked, sync_ok,
  sync_error, unrecognised, absent, not_text, said, ack_connection_stored, ack_connection_revoked,
  record_connection_sync, apply_item, apply_items, apply_worker_acks, Ack, Message, is_reportable,
}
use aistat.Handoff.Change.{activates, confirms, syncs, Rule, updated, Kept, Kept-refl, Kept-trans}

pub stored_reply-leasable :
    (lease_id : String) (token_epoch now : ℕ) (row : Connection) (s : Status)
    → stored_reply lease_id token_epoch now row ≡ accepted s
    → leasable row.status ≡ true
unfolding stored_reply
stored_reply-leasable lease_id token_epoch now row s h = ground arith

-- What an item acknowledges as deleted, if it acknowledges a deletion.
abbrev pub Backed : (ℕ → ℕ → Type 0) → Option Ack → Type 0
Backed A none = Unit
Backed A (some a) =
    a.result ≡ was_revoked
    → (u e : ℕ) → canonical_tenant_id a.user_id ≡ some u
    → a.token_epoch ≡ some e
    → A u e

module _ {A : ℕ → ℕ → Type 0} {New : ℕ → Connection → Type 0}
    {P : ℕ → Connection → Connection → Type 0} (rule : Rule A New P) where
  written-Kept :
      (u : ℕ) (f : Connection → Connection) (h : Host) (c : Connection)
      → find u h.connections ≡ some c
      → P u c (f c)
      → Kept New P h (written u f h)
  written-Kept u f h c e p = updated rule u f h.connections (λ d k. subst (λ d. P u d (f d)) (cc) p)

  settle-Kept :
      (u now : ℕ) (h : Host) (c : Connection) (reply : Reply)
      → find u h.connections ≡ some c
      → ((s : Status) → reply ≡ accepted s → leasable c.status ≡ true)
      → Kept New P h (settle_stored u now h reply).0
  unfolding settle_stored
  settle-Kept u now h c (accepted s) e k =
      written-Kept u (activated now) h c e
        (rule.step u c (activated now c) (activates now c (k s refl)))
  settle-Kept u now h c _ e k = Kept-refl rule h

  stored-Kept :
      (value : Value) (lease_id : Option String) (token_epoch : Option ℕ) (now : ℕ) (h : Host)
      → Kept New P h (ack_connection_stored value lease_id token_epoch now h).0
  unfolding ack_connection_stored
  stored-Kept value lease_id none now h = Kept-refl rule h
  stored-Kept value none (some epoch) now h = Kept-refl rule h
  stored-Kept value (some lease_id) (some epoch) now h =
      elim (Option-cases (canonical_tenant_id value)) [
        | inl e ↦ rw (e, ack_connection_stored) (Kept-refl rule h)
        | inr (u, e) ↦ elim (Bool-cases (str_eq lease_id "")) [
          | inl b ↦ rw (e, ack_connection_stored, b) (Kept-refl rule h)
          | inr b ↦ elim (Option-cases (find u h.connections)) [
            | inl f ↦ rw (e, ack_connection_stored, b, f) (Kept-refl rule h)
            | inr (c, f) ↦
                rw (e, ack_connection_stored, b, f)
                  (settle-Kept u now h c (stored_reply lease_id epoch now c) f
                    (stored_reply-leasable lease_id epoch now c))
          ]
        ]
      ]

  revoked-Kept :
      (u now : ℕ) (h : Host) (c : Connection) (s : Status)
      → find u h.connections ≡ some c
      → c.status ≡ s
      → A u c.token_epoch
      → Kept New P h (settle_revoked u now h s).0
  unfolding settle_revoked
  revoked-Kept u now h c revocation_pending e k a =
      written-Kept u (confirmed now) h c e (rule.step u c (confirmed now c) (confirms now c k a))
  revoked-Kept u now h c _ e k a = Kept-refl rule h

  ack_revoked-Kept :
      (value : Value) (token_epoch : Option ℕ) (now : ℕ) (h : Host)
      → ((u e : ℕ) → canonical_tenant_id value ≡ some u → token_epoch ≡ some e → A u e)
      → Kept New P h (ack_connection_revoked value token_epoch now h).0
  unfolding ack_connection_revoked
  ack_revoked-Kept value none now h k = Kept-refl rule h
  ack_revoked-Kept value (some epoch) now h k = elim (Option-cases (canonical_tenant_id value)) [
    | inl e ↦ rw (e, ack_connection_revoked) (Kept-refl rule h)
    | inr (u, e) ↦ elim (Option-cases (find u h.connections)) [
      | inl f ↦ rw (e, ack_connection_revoked, f) (Kept-refl rule h)
      | inr (c, f) ↦ elim (Bool-cases (c.token_epoch == epoch)) [
        | inr b ↦ rw (e, ack_connection_revoked, f, b) (Kept-refl rule h)
        | inl b ↦
            rw (e, ack_connection_revoked, f, b)
              (revoked-Kept u now h c c.status f refl
                (subst (A u) (sym ((==_iff c.token_epoch epoch).0 b)) (k u epoch e refl)))
      ]
    ]
  ]

  reported-Kept :
      (value : Value) (epoch : ℕ) (good : Bool) (message : Message) (now : ℕ) (h : Host)
      → Kept New P h
          (elim (canonical_tenant_id value) as (λ _. Host × Reply) [
            | none ↦ (h, invalid_request)
            | some u ↦ sync_found u epoch good message now h (find u h.connections)
          ]).0
  unfolding sync_found
  reported-Kept value epoch good message now h = elim (Option-cases (canonical_tenant_id value)) [
    | inl e ↦ rw e (Kept-refl rule h)
    | inr (u, e) ↦ elim (Option-cases (find u h.connections)) [
      | inl f ↦ rw (e, f) (Kept-refl rule h)
      | inr (c, f) ↦ elim (Bool-cases (c.token_epoch == epoch)) [
        | inr b ↦ rw (e, f, sync_found, b) (Kept-refl rule h)
        | inl b ↦ elim (Bool-cases (is_reportable c.status)) [
          | inr s ↦ rw (e, f, sync_found, b, s) (Kept-refl rule h)
          | inl s ↦
              rw (e, f, sync_found, b, s)
                (written-Kept u (synced good message now) h c f
                  (rule.step u c (synced good message now c) (syncs good message now c s)))
        ]
      ]
    ]
  ]

  sync-Kept :
      (value : Value) (token_epoch : Option ℕ) (good : Bool) (message : Message) (now : ℕ)
      (h : Host)
      → Kept New P h (record_connection_sync value token_epoch good message now h).0
  unfolding record_connection_sync
  sync-Kept value none good message now h = Kept-refl rule h
  sync-Kept value (some epoch) good not_text now h = Kept-refl rule h
  sync-Kept value (some epoch) good absent now h = reported-Kept value epoch good absent now h
  sync-Kept value (some epoch) good (said s) now h = reported-Kept value epoch good (said s) now h

  item-Kept :
      (now : ℕ) (a : Option Ack) (h : Host) → Backed A a → Kept New P h (apply_item now a h).0
  unfolding apply_item
  item-Kept now none h k = Kept-refl rule h
  item-Kept now (some a) h k = go a.result refl
    where
      go : (r : AckResult) → a.result ≡ r → Kept New P h (apply_ack now a r h).0
      go was_stored i = stored-Kept a.user_id a.lease_id a.token_epoch now h
      go was_revoked i = ack_revoked-Kept a.user_id a.token_epoch now h (k i)
      go sync_ok i = sync-Kept a.user_id a.token_epoch true a.error now h
      go sync_error i = sync-Kept a.user_id a.token_epoch false a.error now h
      go unrecognised i = Kept-refl rule h

  items-Kept :
      (now : ℕ) (acks : List (Option Ack)) (h : Host)
      → All (Backed A) acks
      → Kept New P h (apply_items now acks h).0
  unfolding apply_items
  items-Kept now [] h k = Kept-refl rule h
  items-Kept now (a ∷ rest) h k =
      let h' : Host = (apply_item now a h).0 in
      Kept-trans rule h h' (apply_items now rest h').0 (item-Kept now a h k.0)
        (items-Kept now rest h' k.1)

  pub acks-Kept :
      (now : ℕ) (acks : List (Option Ack)) (h : Host)
      → All (Backed A) acks
      → Kept New P h (apply_worker_acks now acks h).0
  unfolding apply_worker_acks
  acks-Kept now acks h k = elim (Bool-cases (ltb max_ack_items (length acks))) [
    | inl e ↦ rw (e, apply_worker_acks) (Kept-refl rule h)
    | inr e ↦ rw (e, apply_worker_acks) (items-Kept now acks h k)
  ]
