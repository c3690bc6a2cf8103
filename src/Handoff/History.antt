-- ===== src/Handoff/History.antt =====
-- A rule for the changes of a row holds over any history of requests.
use aistat.Prelude.{ℕ, Option, none, some, List, [], ◌∷◌, All-intro}
use aistat.Handoff.Acks.{Ack}
use aistat.Handoff.State.{Connection, Host}
use aistat.Handoff.Machine.{
  Request, reads, submits, revokes, reserves, pulls, consumes, acknowledges, serve, run,
}
use aistat.Handoff.Change.{Rule, Kept, Kept-refl, Kept-trans}
use aistat.Handoff.Change.Calls.{
  status-Kept, submit-Kept, revoke-Kept, reserve-Kept, pull-Kept, consume-Kept,
}
use aistat.Handoff.Change.Replies.{acks-Kept, Backed}

-- A rule that asks nothing of the acknowledgements.
pub unconditional : (a : Option Ack) → Backed (λ _ _. Unit) a
unconditional none = tt
unconditional (some a) = λ _ u e _ _. tt

module _ {A : ℕ → ℕ → Type 0} {New : ℕ → Connection → Type 0}
    {P : ℕ → Connection → Connection → Type 0} (rule : Rule A New P)
    (every : (a : Option Ack) → Backed A a) where
  pub serve-Kept : (now : ℕ) (r : Request) (h : Host) → Kept New P h (serve now r h)
  unfolding serve
  serve-Kept now (reads value ttl) h = status-Kept rule value ttl now h
  serve-Kept now (submits value url label token) h = submit-Kept rule value url label token now h
  serve-Kept now (revokes value) h = revoke-Kept rule value now h
  serve-Kept now (reserves value) h = reserve-Kept rule value now h
  serve-Kept now (pulls draw ttl) h = pull-Kept rule draw ttl now h
  serve-Kept now (consumes nonce max_age) h = consume-Kept rule nonce max_age now h
  serve-Kept now (acknowledges acks) h = acks-Kept rule now acks h (All-intro every acks)

  pub run-Kept : (rs : List (ℕ × Request)) (h : Host) → Kept New P h (run rs h)
  unfolding run
  run-Kept [] h = Kept-refl rule h
  run-Kept ((now, r) ∷ rest) h =
      Kept-trans rule h (serve now r h) (run rest (serve now r h)) (serve-Kept now r h)
        (run-Kept rest (serve now r h))
