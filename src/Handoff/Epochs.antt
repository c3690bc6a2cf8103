-- ===== src/Handoff/Epochs.antt =====
-- What an epoch of a connection identifies.
use aistat.Prelude.{ℕ, ◌≤◌, ◌<◌, ◌≡◌, refl, ◌⊎◌, Option, none, some, List, arith, subst, ◌∙◌}
use aistat.Table.{find}
use aistat.Handoff.State.{revoked, Connection, Host}
use aistat.Handoff.Intake.{
  purge_row, is_expired, erased, replaced, created, revoke_row, is_revocable,
}
use aistat.Handoff.Pull.{lease_row}
use aistat.Handoff.Acks.{activated, confirmed, synced, is_reportable}
use aistat.Handoff.Machine.{Request, run}
use aistat.Handoff.Change.{
  Change, purges, replaces, erases, leases, activates, confirms, syncs, Rule, Follows,
}
use aistat.Handoff.History.{run-Kept, unconditional}

-- `d` is a later state of the row `c`.
pub record Advances (c d : Connection) : Type 0 where
  pub monotone : c.token_epoch ≤ d.token_epoch
  -- the token of an epoch never changes: it is only erased
  pub one_token : c.token_epoch ≡ d.token_epoch → (d.token ≡ c.token) ⊎ (d.token ≡ none)
  -- a terminal row needs a new epoch to live again
  pub terminal : c.token_epoch ≡ d.token_epoch → c.status ≡ revoked → d.status ≡ revoked
  pub since : d.created_at ≡ c.created_at

step-Advances : (u : ℕ) (c d : Connection) → Change (λ _ _. Unit) u c d → Advances c d
unfolding purge_row is_expired erased replaced revoke_row is_revocable lease_row activated confirmed
    synced is_reportable
step-Advances u c _ (purges ttl now _) = ground arith
step-Advances u c _ (replaces url label token now _) = ground arith
step-Advances u c _ (erases now _) = ground arith
step-Advances u c _ (leases lease_id now _) = ground arith
step-Advances u c _ (activates now _ e) = ground arith
step-Advances u c _ (confirms now _ e _) = ground arith
step-Advances u c _ (syncs good message now _ e) = ground arith

Advances-trans : (c d e : Connection) → Advances c d → Advances d e → Advances c e
Advances-trans c d e p q = record {
  monotone = omega arith;
  one_token = λ h. ground (arith, p.one_token (omega arith), q.one_token (omega arith));
  terminal = λ h s. q.terminal (omega arith) (p.terminal (omega arith) s);
  since = q.since ∙ p.since;
}

advance_rule : Rule (λ _ _. Unit) (λ _ c. 0 < c.token_epoch) (λ _. Advances)
unfolding created
advance_rule = record {
  same = λ u c. ground arith;
  chain = λ u. Advances-trans;
  keeps = λ u c d n p. omega arith;
  fresh = λ u url label token now. omega arith;
  step = step-Advances;
}

-- No history of requests deletes a row. Its epoch never decreases, an epoch never names a second
-- token, a revoked row stays revoked within its epoch, and the date of creation stays.
pub run-Advances :
    (rs : List (ℕ × Request)) (h : Host) (u : ℕ) (c : Connection)
    → find u h.connections ≡ some c
    → (d : Connection) × (find u (run rs h).connections ≡ some d) × Advances c d
run-Advances rs h u c e =
    go (find u h.connections) (find u (run rs h).connections)
      ((run-Kept advance_rule unconditional rs h).0 u) e refl
  where
    go :
        (o p : Option Connection)
        → Follows (λ c. 0 < c.token_epoch) Advances o p
        → o ≡ some c
        → find u (run rs h).connections ≡ p
        → (d : Connection) × (find u (run rs h).connections ≡ some d) × Advances c d
    go none p f k l = cc
    go (some c') none f k l = absurd f
    go (some c') (some d) f k l = (d, l, subst (λ x. Advances x d) (cc) f)
