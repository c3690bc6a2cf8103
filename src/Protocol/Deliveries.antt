-- ===== src/Protocol/Deliveries.antt =====
-- The worker's cycle and the collector keep the invariant of the protocol.
use aistat.Prelude.{
  String, Bool, true, false, Option, ℕ, ◌≡◌, inl, inr, none, some, List, [], ◌∷◌, map, All, All-map,
  subst, sym,
}
use aistat.Tenant.{canonical_tenant_id-int}
use aistat.Handoff.State.{Host}
use aistat.Handoff.Pull.{Pending, Revocation, Pulled}
use aistat.Handoff.Change.Replies.{Backed}
use aistat.WorkerStore.{Store, Fernet, delete_connection}
use aistat.WorkerStore.Watermark.{delete-Moved}
use aistat.WorkerStore.Revocation.{IsDead}
use aistat.WorkerSync.{SentAck, pull_once, report_sync}
use aistat.WorkerSync.Loop.{
  Confirmed, Admits, AdmitsRevoked, batch, pull_once-Sound, Moved-IsSync, keep_acks, IsSync,
}
use aistat.Protocol.{System, response, received, In, pending_item, revoked_item}
use aistat.Protocol.Invariant.{Issued, AnswerIssued, IsSafe}

same_epoch : (e f : ℕ) → some e ≡ some f → e ≡ f
same_epoch e f h = cc

-- The acknowledgements of a batch that the worker sent name dead epochs.
received-Backed : (w : Store) (a : SentAck) → Confirmed w a → Backed (IsDead w) (received a)
unfolding received
received-Backed w (SentAck.stored u e lease_id) k = λ r v f n m. cc
received-Backed w (SentAck.reported_ok u e) k = λ r v f n m. cc
received-Backed w (SentAck.reported_error u e message) k = λ r v f n m. cc
received-Backed w (SentAck.revoked u e) k = λ r v f n m.
    subst (λ x. IsDead w x f) (sym (canonical_tenant_id-int u v n))
      (subst (λ x. IsDead w u x) (same_epoch e f m) k)

pub batch-Backed :
    (w : Store) (acks : List SentAck)
    → All (Confirmed w) acks
    → All (Backed (IsDead w)) (map received acks)
batch-Backed w [] k = tt
batch-Backed w (a ∷ rest) k = (received-Backed w a k.0, batch-Backed w rest k.1)

pub All-In : {A : Type 0} (P : A → Type 0) (x : A) (xs : List A) → In x xs → All P xs → P x
All-In P x [] i k = absurd i
All-In P x (y ∷ ys) (inl e) k = subst P (sym e) k.0
All-In P x (y ∷ ys) (inr i) k = All-In P x ys i k.1

pending-Admits :
    (h : Host) (ps : List Pending)
    → All (λ (x : Pending). Issued h x.user_id x.token_epoch) ps
    → All (Admits (Issued h)) (map pending_item ps)
unfolding pending_item
pending-Admits h [] k = tt
pending-Admits h (p ∷ ps) k = (k.0, pending-Admits h ps k.1)

revoked-Admits :
    (h : Host) (rs : List Revocation)
    → All (λ (x : Revocation). Issued h x.user_id x.token_epoch) rs
    → All (AdmitsRevoked (Issued h)) (map revoked_item rs)
unfolding revoked_item
revoked-Admits h [] k = tt
revoked-Admits h (p ∷ ps) k = (k.0, revoked-Admits h ps k.1)

reported :
    (w : Store) (u e : ℕ) (good : Bool) (error : Option String)
    → All (Confirmed w) (report_sync u e good error)
unfolding report_sync
reported w u e true error = (tt, tt)
reported w u e false error = (tt, tt)

pub reports-IsSafe :
    (s : System) (u e : ℕ) (good : Bool) (error : Option String)
    → IsSafe s
    → IsSafe (record s { batches = report_sync u e good error ∷ s.batches })
reports-IsSafe s u e good error v = record {
  keyed = v.keyed;
  coherent = v.coherent;
  bounded = v.bounded;
  issued = v.issued;
  acked = (reported s.worker u e good error, v.acked);
  gone = v.gone;
}

-- A step of the worker: its tables, what was dead, and the new acknowledgements.
worker_moves :
    (s : System) (w : Store) (acks : List SentAck)
    → IsSync (Issued s.host) (IsDead s.worker) w acks
    → IsSafe s
    → IsSafe (record s { worker = w; batches = acks ∷ s.batches })
worker_moves s w acks k v = record {
  keyed = v.keyed;
  coherent = k.coherent;
  bounded = k.bounded;
  issued = v.issued;
  acked = (k.confirmed, All-map (keep_acks s.worker w k.dead) s.batches v.acked);
  gone = λ u c e r. k.dead u c.token_epoch (v.gone u c e r);
}

pub syncs-IsSafe :
    (fernet : Fernet) (s : System) (draw : ℕ → ℕ) (now : ℕ) (p : Pulled)
    → In p s.answers
    → IsSafe s
    → IsSafe (record s {
      worker = (pull_once fernet now draw (response p) s.worker).0;
      batches = batch (pull_once fernet now draw (response p) s.worker).1 ∷ s.batches;
    })
unfolding response
syncs-IsSafe fernet s draw now p i v =
    let a : AnswerIssued s.host p = All-In (AnswerIssued s.host) p s.answers i v.issued in
    worker_moves s (pull_once fernet now draw (response p) s.worker).0
      (batch (pull_once fernet now draw (response p) s.worker).1)
      (pull_once-Sound fernet now draw (response p) s.worker (pending-Admits s.host p.pending a.0)
        (revoked-Admits s.host p.revoked a.1) v.coherent v.bounded (λ u e d. d))
      v

pub discards-IsSafe :
    (s : System) (u now : ℕ)
    → IsSafe s
    → IsSafe (record s { worker = (delete_connection u none now s.worker).0 })
discards-IsSafe s u now v =
    let w : Store = (delete_connection u none now s.worker).0 in
    let k : IsSync (Issued s.host) (IsDead s.worker) w [] =
      Moved-IsSync s.worker w [] (delete-Moved u none now s.worker (λ k _ x e. v.bounded k x e))
        (record {
          coherent = v.coherent;
          bounded = v.bounded;
          dead = λ u e d. d;
          confirmed = tt;
        }) in
    let m : IsSafe (record s { worker = w; batches = [] ∷ s.batches }) = worker_moves s w [] k v in
    record {
      keyed = m.keyed;
      coherent = m.coherent;
      bounded = m.bounded;
      issued = m.issued;
      acked = m.acked.1;
      gone = m.gone;
    }
