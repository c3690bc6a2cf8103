-- ===== src/Accounts/Tests.antt =====
-- The accounts on concrete calls: an owner, two registrations and a deletion.
use aistat.Prelude.{
  ℕ, ◌≡◌, ◌≢◌, ◌↔◌, refl, String, true, false, none, some, [], ◌∷◌, List, is_some, ◌==◌,
}
use aistat.Table.{find, upsert, scan}
use aistat.Tenant.{canonical_tenant_id, int, in_range}
use aistat.Snapshots.Tenants.{record_tenant_snapshot}
use aistat.Accounts.{
  Accounts, identity_of, is_admin_row, delete_user, owner_user_id, done, failed, owner_protected,
  teardown_of, path_of, admins, ensure_owner_user, owner_among, owner_by_email, email_matches,
  register_or_link_identity, register_ordinary, owner_for, is_barred, with_tenant, created_identity,
}
use aistat.Accounts.Invariant.{IsValid}
use aistat.Accounts.Calls.{Call, ensure_owner, register, run, perform}
use aistat.Accounts.Registry.{run-IsValid, run-replay, replay, answers}
use aistat.Accounts.Roles.{run-is_admin_row, owner_user_id-is_admin_row}
use aistat.Accounts.Deletion.{delete_user-Erased, Erased, Untouched}
use aistat.Accounts.Afterwards.{run-delete_user}

abbrev empty : Accounts
empty = record {
  users = [];
  last_user_id = 0;
  identities = [];
  sessions = [];
  tenants = [];
  journal = [];
  connections = [];
  throttle = [];
  billing = [];
  statistics = [];
}

nothing {ℓ} : {V : Type ℓ} (k : ℕ) → find {V = V} k [] ≡ none
unfolding find
nothing k = refl

empty-IsValid : IsValid empty
unfolding find identity_of
empty-IsValid = record {
  users_issued = λ u _. refl;
  tenants_issued = λ u _. refl;
  connections_issued = λ u _. refl;
  owned = λ p s u h. cc;
  keyed = tt;
  unique = tt;
  one_admin = λ u v g h. cc;
}

-- A stand-in for the case conversions.
abbrev plain : String → String
plain s = s

abbrev signup : Call
signup = register "github" "ada" (some "ada@x") none (some "root@x") [] (some 1) 20

abbrev calls : List Call
calls = ensure_owner "root" (some "root@x") 10 ∷ signup ∷ []

abbrev start : Accounts
start = run plain plain calls empty

start-IsValid : IsValid start
start-IsValid = run-IsValid plain plain calls empty empty-IsValid

run-IsValid_example : IsValid (run plain plain calls empty)
run-IsValid_example = run-IsValid plain plain calls empty empty-IsValid

run-replay_example :
    identity_of "github" "ada" (run plain plain calls empty).identities
    ≡ replay (answers plain plain calls empty) "github" "ada" (identity_of "github" "ada" [])
run-replay_example = run-replay plain plain calls empty "github" "ada" empty-IsValid

run-is_admin_row_example :
    is_admin_row (find 2 (run plain plain (signup ∷ []) start).users)
    ≡ is_admin_row (find 2 start.users)
run-is_admin_row_example =
    run-is_admin_row plain plain (signup ∷ []) start 2 (refl, tt) start-IsValid

owner_user_id-is_admin_row_example :
    (owner_user_id start ≡ done (some 1)) ↔ (is_admin_row (find 1 start.users) ≡ true)
owner_user_id-is_admin_row_example = owner_user_id-is_admin_row start 1 start-IsValid

two : canonical_tenant_id (int 2) ≡ some 2
unfolding canonical_tenant_id in_range
two = refl

two_is_there : is_some (find 2 start.users) ≡ true
unfolding run perform ensure_owner_user admins scan owner_among owner_by_email email_matches find
    upsert register_or_link_identity identity_of owner_for register_ordinary is_barred with_tenant
    created_identity
two_is_there = refl

two_is_ordinary : is_admin_row (find 2 start.users) ≡ false
unfolding run perform ensure_owner_user admins scan owner_among owner_by_email email_matches find
    upsert register_or_link_identity identity_of owner_for register_ordinary is_barred with_tenant
    created_identity
two_is_ordinary = refl

-- The accounts with rows of billing and of statistics.
abbrev billed : Accounts
billed = record start { billing = 2 ∷ 1 ∷ 2 ∷ []; statistics = 1 ∷ 2 ∷ [] }

billed-IsValid : IsValid billed
billed-IsValid = record {
  users_issued = start-IsValid.users_issued;
  tenants_issued = start-IsValid.tenants_issued;
  connections_issued = start-IsValid.connections_issued;
  owned = start-IsValid.owned;
  keyed = start-IsValid.keyed;
  unique = start-IsValid.unique;
  one_admin = start-IsValid.one_admin;
}

delete_user-Erased_example :
    (is_admin_row (find 2 billed.users) ≡ true
      → delete_user 2 30 billed ≡ (billed, failed owner_protected))
    × (is_admin_row (find 2 billed.users) ≡ false
        → ((delete_user 2 30 billed).1
            ≡ done (record {
              existed = is_some (find 2 billed.users);
              connection_teardown = teardown_of (find 2 billed.connections);
              staged_path = path_of (find 2 billed.journal);
            }))
          × Erased 2 (delete_user 2 30 billed).0
          × ((v : ℕ) → (2 == v) ≡ false → Untouched v billed (delete_user 2 30 billed).0))
delete_user-Erased_example = delete_user-Erased 2 30 billed two billed-IsValid

abbrev after_deletion : Accounts
after_deletion = run plain plain (signup ∷ []) (delete_user 2 30 start).0

run-delete_user_example :
    (find 2 after_deletion.users ≡ none)
    × ((p s : String) → identity_of p s after_deletion.identities ≢ some 2)
    × ((timestamp snapshot_at : ℕ) (sha256 : String)
        → record_tenant_snapshot 2 timestamp sha256 snapshot_at after_deletion.tenants
          ≡ some (after_deletion.tenants, false))
run-delete_user_example =
    run-delete_user plain plain 2 30 start (signup ∷ []) two two_is_ordinary two_is_there
      start-IsValid
