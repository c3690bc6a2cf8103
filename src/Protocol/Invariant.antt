-- ===== src/Protocol/Invariant.antt =====
-- The invariant of the protocol, and that the host keeps it.
use aistat.Prelude.{ℕ, ◌≡◌, ◌≤◌, true, String, some, List, ◌∷◌, All, All-map, arith}
use aistat.Table.{find, IsKeyed}
use aistat.Handoff.State.{Host, Connection, revoked}
use aistat.Handoff.Pull.{Pending, Revocation, Pulled, lease_pending_connections}
use aistat.Handoff.Machine.{
  Request, reads, submits, revokes, reserves, pulls, consumes, acknowledges, serve,
}
use aistat.Handoff.Change.{Kept}
use aistat.Handoff.Change.Calls.{
  status-Kept, submit-Kept, revoke-Kept, reserve-Kept, pull-Kept, consume-Kept,
}
use aistat.WorkerStore.{Store}
use aistat.WorkerStore.Watermark.{IsCoherent}
use aistat.WorkerStore.Revocation.{IsDead}
use aistat.WorkerSync.Loop.{IsBounded, Confirmed}
use aistat.Handoff.Answer.{pull-IsLeased}
use aistat.Protocol.Tracking.{Tracks, NewTracks, track_rule, tracked, revoked_tracked}
use aistat.Protocol.{System, is_local}

-- The host has reached an epoch of a user.
abbrev pub Issued : Host → ℕ → ℕ → Type 0
Issued h u e = (c : Connection) × (find u h.connections ≡ some c) × (e ≤ c.token_epoch)

abbrev pub AnswerIssued : Host → Pulled → Type 0
AnswerIssued h p =
    All (λ (x : Pending). Issued h x.user_id x.token_epoch) p.pending
    × All (λ (x : Revocation). Issued h x.user_id x.token_epoch) p.revoked

pub record IsSafe (s : System) : Type 0 where
  pub keyed : IsKeyed s.host.connections
  pub coherent : IsCoherent s.worker
  -- the worker knows no epoch that the host has not reached
  pub bounded : IsBounded (Issued s.host) s.worker
  pub issued : All (AnswerIssued s.host) s.answers
  -- a deletion that was acknowledged has happened
  pub acked : All (All (Confirmed s.worker)) s.batches
  -- a revoked row names an epoch that is dead on the worker
  pub gone :
      (u : ℕ) (c : Connection)
      → find u s.host.connections ≡ some c
      → c.status ≡ revoked
      → IsDead s.worker u c.token_epoch

pub Issued-mono :
    (w : Store) (h h' : Host) (u e : ℕ)
    → Kept (NewTracks w) (Tracks w) h h'
    → Issued h u e
    → Issued h' u e
Issued-mono w h h' u e k (c, f, le) =
    let (d, g, t) = tracked w u (find u h.connections) (find u h'.connections) c (k.0 u) f in
    (d, g, omega (arith, t.monotone))

pub answers_mono :
    (w : Store) (h h' : Host)
    → Kept (NewTracks w) (Tracks w) h h'
    → (ps : List Pulled) → All (AnswerIssued h) ps
    → All (AnswerIssued h') ps
answers_mono w h h' k = All-map (λ p a. (
  All-map (λ (x : Pending). Issued-mono w h h' x.user_id x.token_epoch k) p.pending a.0,
  All-map (λ (x : Revocation). Issued-mono w h h' x.user_id x.token_epoch k) p.revoked a.1,
))

-- A step of the host alone.
pub host_moves :
    (s : System) (h' : Host)
    → Kept (NewTracks s.worker) (Tracks s.worker) s.host h'
    → IsSafe s
    → IsSafe (record s { host = h' })
host_moves s h' k v = record {
  keyed = k.1 v.keyed;
  coherent = v.coherent;
  bounded = λ u w e. Issued-mono s.worker s.host h' u w.token_epoch k (v.bounded u w e);
  issued = answers_mono s.worker s.host h' k s.answers v.issued;
  acked = v.acked;
  gone = λ u.
      revoked_tracked s.worker u (find u s.host.connections) (find u h'.connections) (k.0 u)
        (v.gone u);
}

pub serve-Kept :
    (w : Store) (now : ℕ) (r : Request) (h : Host)
    → is_local r ≡ true
    → Kept (NewTracks w) (Tracks w) h (serve now r h)
unfolding serve
serve-Kept w now (reads value ttl) h l = status-Kept (track_rule w) value ttl now h
serve-Kept w now (submits value url label token) h l =
    submit-Kept (track_rule w) value url label token now h
serve-Kept w now (revokes value) h l = revoke-Kept (track_rule w) value now h
serve-Kept w now (reserves value) h l = reserve-Kept (track_rule w) value now h
serve-Kept w now (consumes nonce max_age) h l = consume-Kept (track_rule w) nonce max_age now h
serve-Kept w now (pulls draw ttl) h l = cc
serve-Kept w now (acknowledges acks) h l = cc

pub answers-IsSafe :
    (s : System) (draw : ℕ → String) (ttl now : ℕ)
    → IsSafe s
    → IsSafe (record s {
      host = (lease_pending_connections draw ttl now s.host).0;
      answers = (lease_pending_connections draw ttl now s.host).1 ∷ s.answers;
    })
answers-IsSafe s draw ttl now v =
    let h' : Host = (lease_pending_connections draw ttl now s.host).0 in
    let m : IsSafe (record s { host = h' }) =
      host_moves s h' (pull-Kept (track_rule s.worker) draw ttl now s.host) v in
    let (p, r) = pull-IsLeased draw ttl now s.host v.keyed in
    record {
      keyed = m.keyed;
      coherent = m.coherent;
      bounded = m.bounded;
      issued = (
        (
          All-map (λ (x : Pending) l. (l.row, l.found, omega (arith, l.same_epoch)))
              (lease_pending_connections draw ttl now s.host).1.pending p,
          All-map (λ (x : Revocation) l. (l.row, l.found, omega (arith, l.same_epoch)))
              (lease_pending_connections draw ttl now s.host).1.revoked r,
        ),
        m.issued,
      );
      acked = m.acked;
      gone = m.gone;
    }
