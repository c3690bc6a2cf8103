-- ===== src/Protocol/Safety.antt =====
-- A revoked connection leaves no credential on the worker, whatever is delayed, repeated or lost.
use aistat.Prelude.{
  ℕ, ◌≡◌, ◌≤◌, refl, inl, inr, false, Option, none, some, List, [], map, All, arith, subst,
}
use aistat.Table.{not-find-nil, find}
use aistat.Handoff.State.{Host, Connection, revoked}
use aistat.Handoff.Acks.{apply_worker_acks}
use aistat.Handoff.Machine.{serve}
use aistat.Handoff.Change.{syncs}
use aistat.Handoff.Change.Replies.{acks-Kept}
use aistat.WorkerStore.{
  Store, Row, Version, Fernet, is_current, is_current-none, revoked as revoked',
}
use aistat.WorkerStore.Watermark.{IsCoherent, Agree}
use aistat.WorkerStore.Revocation.{IsDead}
use aistat.WorkerSync.Loop.{Confirmed}
use aistat.Protocol.Tracking.{track_rule}
use aistat.Protocol.{
  System, Step, serves, answers, syncs, discards, reports, applies, Reach, here, next, received,
}
use aistat.Protocol.Invariant.{Issued, IsSafe, host_moves, serve-Kept, answers-IsSafe}
use aistat.Protocol.Deliveries.{batch-Backed, All-In, syncs-IsSafe, discards-IsSafe, reports-IsSafe}

tombstone_alone : (r : Option Row) (v : Version) → Agree r (some v) → v.state ≡ revoked' → r ≡ none
tombstone_alone none v a h = refl
tombstone_alone (some c) v a h = ground (arith, a.0)

-- A dead epoch that the watermark has not passed is a tombstone, which stands beside no credential.
dead_is_gone :
    (w : Store) (u e : ℕ)
    → IsCoherent w
    → IsDead w u e
    → ((v : Version) → find u w.versions ≡ some v → v.token_epoch ≤ e)
    → find u w.connections ≡ none
dead_is_gone w u e c (v, f, inl p) b = absurd (omega (arith, b v f))
dead_is_gone w u e c (v, f, inr p) b =
    tombstone_alone (find u w.connections) v (subst (λ x. Agree (find u w.connections) x) f (c u))
      p.1

same_row :
    (h : Host) (u e : ℕ) (c : Connection)
    → find u h.connections ≡ some c
    → Issued h u e
    → e ≤ c.token_epoch
same_row h u e c f (d, g, le) =
    let same : d ≡ c = cc in subst (λ (x : Connection). e ≤ x.token_epoch) same le

-- Before the first submission.
abbrev pub initial : List ℕ → System
initial users = record {
  host = record {
    users = users;
    connections = [];
    throttle = [];
    nonces = [];
    last_seen_at = none;
  };
  worker = record { connections = []; versions = [] };
  answers = [];
  batches = [];
}

initial-IsSafe : (users : List ℕ) → IsSafe (initial users)
unfolding find
initial-IsSafe users = record {
  keyed = tt;
  coherent = λ u. tt;
  bounded = λ u v e. absurd (not-find-nil u e);
  issued = tt;
  acked = tt;
  gone = λ u c e. absurd (not-find-nil u e);
}

module _ (fernet : Fernet) where
  pub Step-IsSafe : {s t : System} → Step fernet s t → IsSafe s → IsSafe t
  Step-IsSafe {s} (serves now r l) v =
      host_moves s (serve now r s.host) (serve-Kept s.worker now r s.host l) v
  Step-IsSafe {s} (answers draw ttl now) v = answers-IsSafe s draw ttl now v
  Step-IsSafe {s} (syncs draw now p i) v = syncs-IsSafe fernet s draw now p i v
  Step-IsSafe {s} (discards u now) v = discards-IsSafe s u now v
  Step-IsSafe {s} (reports u e good error) v = reports-IsSafe s u e good error v
  Step-IsSafe {s} (applies now acks i) v =
      host_moves s (apply_worker_acks now (map received acks) s.host).0
        (acks-Kept (track_rule s.worker) now (map received acks) s.host
          (batch-Backed s.worker acks (All-In (All (Confirmed s.worker)) acks s.batches i v.acked)))
        v

  Reach-IsSafe : {s t : System} → Reach fernet s t → IsSafe s → IsSafe t
  Reach-IsSafe here v = v
  Reach-IsSafe (next r k) v = Step-IsSafe k (Reach-IsSafe r v)

  -- In every state that the host, the worker and the collector can reach from an empty database, by
  -- users' requests, pulls, worker cycles, local deletions, reports of collections and
  -- acknowledgements in any order, with messages delayed, repeated or lost: while the host shows a
  -- connection as revoked, the worker holds no credential of that user and takes no epoch of the
  -- user for current.
  pub revoked-gone :
      (users : List ℕ) (t : System)
      → Reach fernet (initial users) t
      → (u : ℕ) (c : Connection) → find u t.host.connections ≡ some c
      → c.status ≡ revoked
      → (find u t.worker.connections ≡ none) × ((e : ℕ) → is_current u e t.worker ≡ false)
  revoked-gone users t r u c f h =
      let v : IsSafe t = Reach-IsSafe r (initial-IsSafe users) in
      let gone : find u t.worker.connections ≡ none =
        dead_is_gone t.worker u c.token_epoch v.coherent (v.gone u c f h)
          (λ w g. same_row t.host u w.token_epoch c f (v.bounded u w g)) in
      (gone, λ e. is_current-none u e t.worker gone)
