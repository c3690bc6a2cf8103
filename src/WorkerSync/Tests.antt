-- ===== src/WorkerSync/Tests.antt =====
-- One cycle of the worker on a concrete response.
use aistat.Prelude.{refl, none, some, [], ◌∷◌}
use aistat.Table.{find}
use aistat.Handoff.State.{official_multica_url}
use aistat.WorkerStore.{Fernet, Store}
use aistat.WorkerSync.{Response, pull_once}
use aistat.WorkerSync.Loop.{Sound, pull_once-Sound}
use aistat.WorkerStore.Watermark.{IsCoherent}

abbrev plain : Fernet
plain = record {
  encrypt = λ seed token. token;
  decrypt = λ c. some c;
  decrypt-encrypt = λ seed token. refl;
}

abbrev empty : Store
empty = record { connections = []; versions = [] }

empty-IsCoherent : IsCoherent empty
unfolding find
empty-IsCoherent u = tt

abbrev answer : Response
answer = record {
  pending =
      some (record {
        user_id = 7;
        server_url = official_multica_url;
        workspace_label = none;
        token = "token-12345678";
        token_epoch = 3;
        lease_id = some "lease";
      })
      ∷ [];
  revoked = some (record { user_id = 8; token_epoch = 2 }) ∷ [];
}

pull_once-Sound_example : Sound (λ u e. Unit) (λ u e. ⊥) (pull_once plain 60 (λ u. 0) answer empty)
pull_once-Sound_example =
    pull_once-Sound plain 60 (λ u. 0) answer empty (tt, tt) (tt, tt) empty-IsCoherent (λ u v e. tt)
      (λ u e b. absurd b)
