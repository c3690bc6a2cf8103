-- ===== src/Handoff/Plaintext.antt =====
-- Where a plaintext token can stand on the public host.
use aistat.Prelude.{
  ℕ, ◌≡◌, refl, Bool, true, false, Option, none, some, List, ◌<◌, String, arith, is_some, subst,
}
use aistat.Table.{find, Rows}
use aistat.Handoff.State.{Status, revoked, leasable, Connection, Host}
use aistat.Handoff.Validation.{
  is_safe, safe_sync_error-is_safe, expired-is_safe, unsupported-is_safe, default_sync_error,
}
use aistat.Handoff.Intake.{
  purge_row, is_expired, erased, replaced, created, revoke_row, is_revocable,
}
use aistat.Handoff.Pull.{lease_row}
use aistat.Handoff.Acks.{activated, confirmed, synced, is_reportable, message_text}
use aistat.Handoff.Machine.{Request, run}
use aistat.Handoff.Change.{
  Change, purges, replaces, erases, leases, activates, confirms, syncs, Rule, Follows,
}
use aistat.Handoff.History.{run-Kept, unconditional}

abbrev pub is_revoked : Status → Bool
is_revoked revoked = true
is_revoked _ = false

abbrev pub error_is_safe : Option String → Bool
error_is_safe none = true
error_is_safe (some message) = is_safe message

-- A row of `connections` is well formed.
pub record IsSound (c : Connection) : Type 0 where
  -- a plaintext token stands exactly in the two leasable states
  pub plaintext : is_some c.token ≡ leasable c.status
  pub leased : is_some c.lease_id ≡ true → leasable c.status ≡ true
  -- `revoke_acked_at` is set exactly in the terminal state
  pub acked : is_some c.revoke_acked_at ≡ is_revoked c.status
  pub issued : 0 < c.token_epoch
  pub reported : error_is_safe c.last_sync_error ≡ true

step-IsSound : (u : ℕ) (c d : Connection) → Change (λ _ _. Unit) u c d → IsSound c → IsSound d
unfolding purge_row is_expired erased replaced revoke_row is_revocable lease_row activated confirmed
    synced is_reportable
step-IsSound u _ _ (purges ttl now c) s = ground (arith, expired-is_safe)
step-IsSound u _ _ (replaces url label token now c) s = ground arith
step-IsSound u _ _ (erases now c) s = ground arith
step-IsSound u _ _ (leases lease_id now c) s = ground (arith, unsupported-is_safe)
step-IsSound u _ _ (activates now c e) s = ground arith
step-IsSound u _ _ (confirms now c e _) s = ground arith
step-IsSound u _ _ (syncs true message now c e) s = ground arith
step-IsSound u _ _ (syncs false message now c e) s =
    ground (arith, safe_sync_error-is_safe (message_text message) default_sync_error)

IsSound-rule : Rule (λ _ _. Unit) (λ _. IsSound) (λ _ c d. IsSound c → IsSound d)
unfolding created
IsSound-rule = record {
  same = λ u c s. s;
  chain = λ u c d e p q s. q (p s);
  keeps = λ u c d s p. p s;
  fresh = λ u url label token now. ground arith;
  step = step-IsSound;
}

abbrev pub IsSoundHost : Host → Type 0
IsSoundHost h = Rows (λ _ c. IsSound c) h.connections

follow :
    (o p : Option Connection)
    → Follows IsSound (λ c d. IsSound c → IsSound d) o p
    → ((c : Connection) → o ≡ some c → IsSound c)
    → (d : Connection) → p ≡ some d
    → IsSound d
follow none none f h d e = cc
follow none (some c) f h d e = subst IsSound (cc) f
follow (some c) none f h d e = absurd f
follow (some c) (some d') f h d e = subst IsSound (cc) (f (h c refl))

-- After any history of requests, in any order and at any times, every row is well formed if it was
-- at the start: a plaintext token stands exactly in a leasable row, a lease too stands in such rows
-- only, the terminal state is exactly the acknowledged one, and every stored message is one of the
-- allowlist.
pub run-IsSound : (rs : List (ℕ × Request)) (h : Host) → IsSoundHost h → IsSoundHost (run rs h)
run-IsSound rs h s u =
    follow (find u h.connections) (find u (run rs h).connections)
      ((run-Kept IsSound-rule unconditional rs h).0 u) (s u)
