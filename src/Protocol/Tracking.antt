-- ===== src/Protocol/Tracking.antt =====
-- How the rows of the host move while the store of the worker stands still.
use aistat.Prelude.{ℕ, ◌≡◌, ◌≤◌, refl, true, false, Option, none, some, arith, subst, sym}
use aistat.Handoff.State.{Connection, revoked}
use aistat.Handoff.Intake.{
  purge_row, is_expired, erased, replaced, created, revoke_row, is_revocable,
}
use aistat.Handoff.Pull.{lease_row}
use aistat.Handoff.Acks.{activated, confirmed, synced, is_reportable}
use aistat.Handoff.Change.{
  Change, purges, replaces, erases, leases, activates, confirms, syncs, Rule, Follows,
}
use aistat.WorkerStore.{Store}
use aistat.WorkerStore.Revocation.{IsDead}

-- How a row of the host moves while the worker's store is `w`.
pub record Tracks (w : Store) (u : ℕ) (c d : Connection) : Type 0 where
  pub monotone : c.token_epoch ≤ d.token_epoch
  pub gone :
      (c.status ≡ revoked → IsDead w u c.token_epoch)
      → d.status ≡ revoked
      → IsDead w u d.token_epoch

abbrev pub NewTracks : Store → ℕ → Connection → Type 0
NewTracks w u c = c.status ≡ revoked → IsDead w u c.token_epoch

-- Only a confirmation makes a row revoked that was not, and every epoch but a larger one stays.
stays_revoked :
    (w : Store) (u : ℕ) (c d : Connection)
    → (d.status ≡ revoked → (c.status ≡ revoked) × (d.token_epoch ≡ c.token_epoch))
    → c.token_epoch ≤ d.token_epoch
    → Tracks w u c d
stays_revoked w u c d h le = record {
  monotone = le;
  gone = λ k r. subst (IsDead w u) (sym (h r).1) (k (h r).0);
}

step-Tracks : (w : Store) (u : ℕ) (c d : Connection) → Change (IsDead w) u c d → Tracks w u c d
unfolding purge_row is_expired erased replaced revoke_row is_revocable lease_row activated confirmed
    synced is_reportable
step-Tracks w u c _ (purges ttl now _) =
    stays_revoked w u c (purge_row ttl now c) (λ h. ground arith) (ground arith)
step-Tracks w u c _ (replaces url label token now _) =
    stays_revoked w u c (replaced url label token now c) (λ h. ground arith) (ground arith)
step-Tracks w u c _ (erases now _) =
    stays_revoked w u c (revoke_row now c) (λ h. ground arith) (ground arith)
step-Tracks w u c _ (leases lease_id now _) =
    stays_revoked w u c (lease_row lease_id now u c).0 (λ h. ground arith) (ground arith)
step-Tracks w u c _ (activates now _ e) =
    stays_revoked w u c (activated now c) (λ h. ground arith) (ground arith)
step-Tracks w u c _ (confirms now _ e a) = record { monotone = ground arith; gone = λ _ _. a }
step-Tracks w u c _ (syncs true message now _ e) =
    stays_revoked w u c (synced true message now c) (λ h. ground arith) (ground arith)
step-Tracks w u c _ (syncs false message now _ e) =
    stays_revoked w u c (synced false message now c) (λ h. ground arith) (ground arith)

pub track_rule : (w : Store) → Rule (IsDead w) (NewTracks w) (Tracks w)
unfolding created
track_rule w = record {
  same = λ u c. record { monotone = omega arith; gone = λ k. k };
  chain = λ u c d e p q. record { monotone = omega arith; gone = λ k. q.gone (p.gone k) };
  keeps = λ u c d n p. p.gone n;
  fresh = λ u url label token now r. absurd (ground arith);
  step = step-Tracks w;
}

pub tracked :
    (w : Store) (u : ℕ) (o p : Option Connection) (c : Connection)
    → Follows (NewTracks w u) (Tracks w u) o p
    → o ≡ some c
    → (d : Connection) × (p ≡ some d) × Tracks w u c d
tracked w u none p c f e = cc
tracked w u (some x) none c f e = absurd f
tracked w u (some x) (some d) c f e = (d, refl, subst (λ y. Tracks w u y d) (cc) f)

pub revoked_tracked :
    (w : Store) (u : ℕ) (o p : Option Connection)
    → Follows (NewTracks w u) (Tracks w u) o p
    → ((c : Connection) → o ≡ some c → NewTracks w u c)
    → (d : Connection) → p ≡ some d
    → NewTracks w u d
revoked_tracked w u none none f k d e = cc
revoked_tracked w u none (some x) f k d e = let same : x ≡ d = cc in subst (NewTracks w u) same f
revoked_tracked w u (some c) none f k d e = absurd f
revoked_tracked w u (some c) (some x) f k d e =
    let same : x ≡ d = cc in subst (NewTracks w u) same (f.gone (k c refl))
