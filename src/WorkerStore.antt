-- ===== src/WorkerStore.antt =====
-- The encrypted credential store of the trusted worker (aistat/worker_store.py): two tables, the
-- ciphertexts and the durable version watermarks. A call runs under the tenant's version fence, so
-- it is one step; where it raises, its transaction is closed without a commit and the store stays.
pub mod Watermark
pub mod Laws
pub mod Revocation
mod Tests
use aistat.Prelude.{
  ℕ, ◌≡◌, refl, String, Bool, true, false, ◌&&◌, Option, none, some, List, [], ◌∷◌, ltb, ◌==◌,
  if◌then◌else◌, str_eq,
}
use aistat.Table.{Table, find, upsert, delete}
use aistat.Tenant.{canonical_tenant_id, Value, int}
use aistat.Handoff.State.{Result, ok, raised, official_multica_url}
use aistat.Handoff.Validation.{normalize_official_server_url}

-- A row of `worker_connections`.
pub record Row : Type 0 where
  pub server_url : String
  pub workspace_label : Option String
  pub token_ciphertext : String
  pub token_epoch : ℕ
  pub updated_at : ℕ

pub data State : Type 0 where
  stored revoked : State

-- A row of `worker_connection_versions`.
pub record Version : Type 0 where
  pub token_epoch : ℕ
  pub state : State
  pub updated_at : ℕ

pub record Store : Type 0 where
  pub connections : Table Row
  pub versions : Table Version

-- The `cryptography` package: authenticated encryption under the worker's key. `encrypt` takes the
-- random bytes that it draws; `decrypt` answers `none` for InvalidToken.
pub record Fernet : Type 0 where
  pub encrypt : ℕ → String → String
  pub decrypt : String → Option String
  pub decrypt-encrypt : (seed : ℕ) (token : String) → decrypt (encrypt seed token) ≡ some token

pub record WorkerCredential : Type 0 where
  pub user_id : ℕ
  pub server_url : String
  pub workspace_label : Option String
  pub token_epoch : ℕ
  pub token : String

pub data StoreError : Type 0 where
  -- ValueError
  unsupported_server invalid_tenant_id : StoreError
  -- WorkerStoreError
  conflicting_data cannot_decrypt : StoreError

pub data Outcome {ℓ} (A : Type ℓ) : Type ℓ where
  returned : A → Outcome A
  failed : StoreError → Outcome A

-- `workspace_label` is a text or None.
abbrev pub label_eq : Option String → Option String → Bool
label_eq none none = true
label_eq (some a) (some b) = str_eq a b
label_eq _ _ = false

-- The comparison with the credential of the same epoch.
unfoldable pub same_data :
    String → Option String → String → Outcome (Option WorkerCredential) → Outcome Bool
same_data url label token (failed e) = failed e
same_data url label token (returned none) = failed conflicting_data
same_data url label token (returned (some c)) =
    if str_eq c.server_url url && label_eq c.workspace_label label && str_eq c.token token
    then returned true
    else failed conflicting_data

abbrev pub version_row : ℕ → State → ℕ → Version
version_row epoch state now = record { token_epoch = epoch; state = state; updated_at = now }

module _ (fernet : Fernet) where
  abbrev pub credential_row : ℕ → String → Option String → String → ℕ → ℕ → Row
  credential_row seed url label token epoch now = record {
    server_url = url;
    workspace_label = label;
    token_ciphertext = fernet.encrypt seed token;
    token_epoch = epoch;
    updated_at = now;
  }

  decrypted : ℕ → Row → Option String → Outcome (Option WorkerCredential)
  decrypted user_id row none = failed cannot_decrypt
  decrypted user_id row (some token) = returned (
      some (record {
        user_id = user_id;
        server_url = row.server_url;
        workspace_label = row.workspace_label;
        token_epoch = row.token_epoch;
        token = token;
      }))

  read_row : ℕ → Option Row → Outcome (Option WorkerCredential)
  unfolding decrypted
  read_row user_id none = returned none
  read_row user_id (some row) = decrypted user_id row (fernet.decrypt row.token_ciphertext)

  -- _get_credential_from_connection
  unfoldable pub get_credential : ℕ → Store → Outcome (Option WorkerCredential)
  unfolding read_row
  get_credential user_id s = read_row user_id (find user_id s.connections)

  -- The two INSERT OR REPLACE statements.
  unfoldable pub write_credential : ℕ → ℕ → String → Option String → String → ℕ → ℕ → Store → Store
  write_credential seed user_id url label token epoch now s = record {
    connections = upsert user_id (credential_row seed url label token epoch now) s.connections;
    versions = upsert user_id (version_row epoch stored now) s.versions;
  }

  same_epoch : ℕ → String → Option String → String → Store → State → Outcome Bool
  unfolding same_data
  same_epoch user_id url label token s revoked = returned false
  same_epoch user_id url label token s stored = same_data url label token (get_credential user_id s)

  -- The branches on the version row.
  unfoldable pub store_version :
      ℕ
      → ℕ
      → String
      → Option String
      → String
      → ℕ
      → ℕ
      → Store
      → Option Version
      → Store × Outcome Bool
  unfolding same_epoch write_credential
  store_version seed user_id url label token epoch now s none =
      (write_credential seed user_id url label token epoch now s, returned true)
  store_version seed user_id url label token epoch now s (some version) =
      if ltb epoch version.token_epoch
      then (s, returned false)
      else if epoch == version.token_epoch
      then (s, same_epoch user_id url label token s version.state)
      else (write_credential seed user_id url label token epoch now s, returned true)

  unfoldable pub store_token :
      ℕ → ℕ → String → Option String → String → ℕ → ℕ → Store → Store × Outcome Bool
  unfolding store_version
  store_token seed user_id server_url label token epoch now s =
      elim (normalize_official_server_url (some server_url) official_multica_url) [
        | raised e ↦ (s, failed unsupported_server)
        | ok url ↦ elim (canonical_tenant_id (int user_id)) [
          | none ↦ (s, failed invalid_tenant_id)
          | some u ↦ store_version seed u url label token epoch now s (find u s.versions)
        ]
      ]

-- The DELETE and the tombstone.
unfoldable pub write_tombstone : ℕ → ℕ → ℕ → Store → Store
write_tombstone user_id epoch now s = record {
  connections = delete user_id s.connections;
  versions = upsert user_id (version_row epoch revoked now) s.versions;
}

-- An explicit epoch that equals the current one.
delete_same : State → Store → Store × Bool
delete_same revoked s = (s, true)
delete_same stored s = (s, false)

delete_explicit : ℕ → ℕ → ℕ → Store → Option Version → Store × Bool
unfolding delete_same write_tombstone
delete_explicit user_id epoch now s none = (write_tombstone user_id epoch now s, true)
delete_explicit user_id epoch now s (some version) =
    if ltb epoch version.token_epoch
    then (s, false)
    else if epoch == version.token_epoch
    then delete_same version.state s
    else (write_tombstone user_id epoch now s, true)

-- Without an epoch the current one is revoked; a second call returns False.
delete_current : ℕ → ℕ → Store → State → ℕ → Store × Bool
unfolding write_tombstone
delete_current user_id now s revoked epoch = (s, false)
delete_current user_id now s stored epoch = (write_tombstone user_id epoch now s, true)

delete_implicit : ℕ → ℕ → Store → Option Version → Store × Bool
unfolding delete_current
delete_implicit user_id now s none = (s, false)
delete_implicit user_id now s (some version) =
    delete_current user_id now s version.state version.token_epoch

delete_version : ℕ → Option ℕ → ℕ → Store → Store × Bool
unfolding delete_explicit delete_implicit
delete_version user_id none now s = delete_implicit user_id now s (find user_id s.versions)
delete_version user_id (some epoch) now s =
    delete_explicit user_id epoch now s (find user_id s.versions)

finish : Store × Bool → Store × Outcome Bool
finish (s, done) = (s, returned done)

unfoldable pub delete_connection : ℕ → Option ℕ → ℕ → Store → Store × Outcome Bool
unfolding delete_version finish
delete_connection user_id epoch now s = elim (canonical_tenant_id (int user_id)) [
  | none ↦ (s, failed invalid_tenant_id)
  | some u ↦ finish (delete_version u epoch now s)
]

is_stored : State → Bool
is_stored stored = true
is_stored revoked = false

joined : ℕ → Option Version → Option Row → Bool
unfolding is_stored
joined epoch (some v) (some c) =
    c.token_epoch == v.token_epoch && is_stored v.state && v.token_epoch == epoch
joined epoch _ _ = false

-- _is_current_unlocked: the JOIN of the two tables at the user.
unfoldable pub is_current : ℕ → ℕ → Store → Bool
unfolding joined
is_current user_id epoch s = joined epoch (find user_id s.versions) (find user_id s.connections)

joined-none : (epoch : ℕ) (v : Option Version) → joined epoch v none ≡ false
unfolding joined
joined-none epoch none = refl
joined-none epoch (some v) = refl

pub is_current-none :
    (user_id epoch : ℕ) (s : Store)
    → find user_id s.connections ≡ none
    → is_current user_id epoch s ≡ false
unfolding is_current
is_current-none user_id epoch s e = rw (e, is_current) (joined-none epoch (find user_id s.versions))

migrate_row : ℕ → Row → Option Version → Table Version → Table Version
migrate_row user_id row none versions =
    upsert user_id (version_row row.token_epoch stored row.updated_at) versions
migrate_row user_id row (some version) versions =
    if ltb version.token_epoch row.token_epoch
    then upsert user_id (version_row row.token_epoch stored row.updated_at) versions
    else versions

-- The one-time migration of `_init_store`, row by row of the SELECT.
unfoldable pub migrate : Table Row → Table Version → Table Version
unfolding migrate_row
migrate [] versions = versions
migrate ((u, row) ∷ rows) versions = migrate rows (migrate_row u row (find u versions) versions)

unfoldable pub init_store : Store → Store
init_store s = record s { versions = migrate s.connections s.versions }
