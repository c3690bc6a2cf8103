-- ===== src/Accounts.antt =====
-- Accounts of the public host (aistat/security.py): the owner, external identities, registration and
-- the deletion of an account with all its rows. A call runs in one transaction: where it raises, the
-- tables stay as they were.
pub mod Identities
pub mod Invariant
pub mod Calls
pub mod Steps
pub mod Registry
pub mod Roles
pub mod Deletion
pub mod Afterwards
mod Tests
use aistat.Prelude.{
  ℕ, ◌+◌, String, Bool, true, false, ◌&&◌, not, Option, none, some, List, [], ◌∷◌, ◌==◌, str_eq,
  if◌then◌else◌, is_some, member,
}
use aistat.Table.{Table, find, upsert, update, delete, scan}
use aistat.Tenant.{canonical_tenant_id, int}
use aistat.Handoff.State.{Connection, Throttle, Status, revoked, revocation_pending}
use aistat.Security.{Session}
use aistat.Security.Rows.{Keyed, drop_where}
use aistat.Snapshots.{Watermark, Intent}
use aistat.Snapshots.Tenants.{new_tenant}

pub record User : Type 0 where
  pub created_at : ℕ
  pub display_name : Option String
  pub email : Option String
  pub is_admin : Bool

-- A row of `oauth_identities`; its key is the provider with the subject.
pub record Identity : Type 0 where
  pub provider : String
  pub subject : String
  pub user_id : ℕ
  pub email : Option String
  pub linked_at : ℕ

pub record Accounts : Type 0 where
  pub users : Table User
  -- the AUTOINCREMENT counter of `users`
  pub last_user_id : ℕ
  pub identities : List Identity
  pub sessions : Keyed Session
  pub tenants : Table Watermark
  pub journal : Table Intent
  pub connections : Table Connection
  pub throttle : Table Throttle
  -- the user of each row of `billing_reconciliation`, and the tenant of each row of the statistics
  pub billing : List ℕ
  pub statistics : List ℕ

-- SecurityConfigError, ValueError of an id, and IntegrityError.
pub data AccountError : Type 0 where
  multiple_admins ambiguous_email owner_protected owner_missing non_owner_identity : AccountError
  invalid_tenant_id taken : AccountError

pub data Answer {ℓ} (A : Type ℓ) : Type ℓ where
  done : A → Answer A
  failed : AccountError → Answer A

-- SELECT user_id FROM oauth_identities WHERE provider = ? AND subject = ?
unfoldable pub identity_of : String → String → List Identity → Option ℕ
identity_of provider subject [] = none
identity_of provider subject (i ∷ rest) =
    if str_eq i.provider provider && str_eq i.subject subject
    then some i.user_id
    else identity_of provider subject rest

-- DELETE FROM oauth_identities WHERE user_id = ?
unfoldable pub without_user : ℕ → List Identity → List Identity
without_user u [] = []
without_user u (i ∷ rest) =
    let kept = without_user u rest in if i.user_id == u then kept else i ∷ kept

unfoldable pub without : ℕ → List ℕ → List ℕ
without u [] = []
without u (v ∷ rest) = let kept = without u rest in if v == u then kept else v ∷ kept

abbrev pub admin_id : ℕ → User → Option ℕ
admin_id u user = if user.is_admin then some u else none

-- SELECT id FROM users WHERE is_admin = 1 ORDER BY id
unfoldable pub admins : Table User → List ℕ
admins users = scan admin_id users

abbrev pub is_admin_row : Option User → Bool
is_admin_row none = false
is_admin_row (some user) = user.is_admin

abbrev pub linked : String → String → ℕ → Option String → ℕ → Accounts → Accounts
linked provider subject user_id email now a = record a {
  identities =
      record {
        provider = provider;
        subject = subject;
        user_id = user_id;
        email = email;
        linked_at = now;
      }
      ∷ a.identities;
}

-- INSERT INTO users; the new id is `last_user_id` of the result.
abbrev pub inserted_user : ℕ → Option String → Option String → Bool → Accounts → Accounts
inserted_user now display_name email is_admin a = record a {
  users =
      upsert (a.last_user_id + 1)
        (record {
          created_at = now;
          display_name = display_name;
          email = email;
          is_admin = is_admin;
        })
        a.users;
  last_user_id = a.last_user_id + 1;
}

abbrev pub promoted : User → User
promoted user = record user { is_admin = true }

-- `strip_lower` is str.strip().lower() of Python, `sql_lower` the lower() of SQLite.
module _ (strip_lower sql_lower : String → String) where
  -- `email.strip().lower() if email else None`
  abbrev pub normalized_email : Option String → Option String
  normalized_email none = none
  normalized_email (some email) = if str_eq email "" then none else some (strip_lower email)

  abbrev has_email : String → Option String → Bool
  has_email email none = false
  has_email email (some own) = str_eq (sql_lower own) email

  abbrev pub matching_id : String → ℕ → User → Option ℕ
  matching_id email u user = if has_email email user.email then some u else none

  -- SELECT id FROM users WHERE email IS NOT NULL AND lower(email) = ? ORDER BY id, which is not run
  -- for an empty email
  unfoldable pub email_matches : Option String → Table User → List ℕ
  email_matches none users = []
  email_matches (some email) users = if str_eq email "" then [] else scan (matching_id email) users

  -- No admin is there: promote the one user with the email, or create the owner.
  unfoldable pub owner_by_email :
      String → Option String → ℕ → Accounts → List ℕ → Accounts × Answer ℕ
  owner_by_email username email now a (u ∷ v ∷ rest) = (a, failed ambiguous_email)
  owner_by_email username email now a (u ∷ []) =
      (record a { users = update u promoted a.users }, done u)
  owner_by_email username email now a [] =
      (inserted_user now (some username) email true a, done (a.last_user_id + 1))

  unfoldable pub owner_among : String → Option String → ℕ → Accounts → List ℕ → Accounts × Answer ℕ
  owner_among username email now a (u ∷ v ∷ rest) = (a, failed multiple_admins)
  owner_among username email now a (u ∷ []) = (a, done u)
  owner_among username email now a [] =
      owner_by_email username (normalized_email email) now a
        (email_matches (normalized_email email) a.users)

  unfoldable pub ensure_owner_user : String → Option String → ℕ → Accounts → Accounts × Answer ℕ
  ensure_owner_user username email now a = owner_among username email now a (admins a.users)

-- `owner_user_id`
unfoldable pub owner_of : List ℕ → Answer (Option ℕ)
owner_of [] = done none
owner_of (u ∷ []) = done (some u)
owner_of (u ∷ v ∷ rest) = failed multiple_admins

unfoldable pub owner_user_id : Accounts → Answer (Option ℕ)
owner_user_id a = owner_of (admins a.users)

unfoldable pub created_identity :
    String → String → Option String → Option String → ℕ → Accounts → Accounts
created_identity provider subject email display_name now a =
    linked provider subject (a.last_user_id + 1) email now
      (inserted_user now display_name email false a)

unfoldable pub find_or_create_user_by_identity :
    String → String → Option String → Option String → ℕ → Accounts → Accounts × Answer ℕ
find_or_create_user_by_identity provider subject email display_name now a =
    elim (identity_of provider subject a.identities) [
      | some u ↦ (a, done u)
      | none ↦
          (created_identity provider subject email display_name now a, done (a.last_user_id + 1))
    ]

-- Attach a new subject to an owner that is an admin.
unfoldable pub attach_owner :
    String → String → ℕ → Option String → ℕ → Accounts → Accounts × Answer ℕ
attach_owner provider subject owner email now a =
    if is_admin_row (find owner a.users)
    then (linked provider subject owner email now a, done owner)
    else (a, failed owner_missing)

unfoldable pub link_identity_to_owner :
    String → String → ℕ → Option String → ℕ → Accounts → Accounts × Answer ℕ
link_identity_to_owner provider subject owner email now a =
    elim (identity_of provider subject a.identities) [
      | some u ↦ if u == owner then (a, done owner) else (a, failed non_owner_identity)
      | none ↦ attach_owner provider subject owner email now a
    ]

pub data RegisterOutcome : Type 0 where
  existing linked_owner created denied : RegisterOutcome

pub record Registered : Type 0 where
  pub user_id : Option ℕ
  pub outcome : RegisterOutcome

abbrev pub as_owner : Accounts × Answer ℕ → Accounts × Answer Registered
as_owner (a, done u) = (a, done (record { user_id = some u; outcome = linked_owner }))
as_owner (a, failed e) = (a, failed e)

-- INSERT INTO tenants; a row that is there already is an IntegrityError, which rolls back.
unfoldable pub with_tenant : ℕ → ℕ → Accounts → Accounts → Accounts × Answer Registered
with_tenant u now before a = elim (find u a.tenants) [
  | some row ↦ (before, failed taken)
  | none ↦ (
    record a { tenants = upsert u (new_tenant now 0) a.tenants },
    done (record { user_id = some u; outcome = created }),
  )
]

-- The allow list bars a new subject; an empty one bars nobody.
unfoldable pub is_barred : Option String → List String → Bool
is_barred email [] = false
is_barred none (e ∷ rest) = true
is_barred (some email) (e ∷ rest) = not (member email (e ∷ rest))

unfoldable pub register_ordinary :
    String
    → String
    → Option String
    → Option String
    → Option String
    → List String
    → ℕ
    → Accounts
    → Accounts × Answer Registered
register_ordinary provider subject email normalized display_name allowed now a =
    if is_barred normalized allowed
    then (a, done (record { user_id = none; outcome = denied }))
    else with_tenant (a.last_user_id + 1) now a
        (created_identity provider subject email display_name now a)

-- Whether the email of a new subject is the admin email, and an owner is configured: its id, with
-- an id of 0 for none as Python's truth has it.
unfoldable pub owner_for : Option String → String → Option ℕ → Option ℕ
owner_for none admin_email owner = none
owner_for (some email) admin_email none = none
owner_for (some email) admin_email (some owner) =
    if str_eq admin_email ""
    then none
    else if owner == 0
    then none
    else if str_eq email admin_email
    then some owner
    else none

module _ (strip_lower sql_lower : String → String) where
  -- `(admin_email or "").strip().lower()`
  abbrev pub owner_email : Option String → String
  owner_email none = ""
  owner_email (some email) = strip_lower email

  unfoldable pub register_or_link_identity :
      String
      → String
      → Option String
      → Option String
      → Option String
      → List String
      → Option ℕ
      → ℕ
      → Accounts
      → Accounts × Answer Registered
  register_or_link_identity provider subject email display_name admin_email allowed owner now a =
      elim (identity_of provider subject a.identities) [
        | some u ↦ (a, done (record { user_id = some u; outcome = existing }))
        | none ↦
            let normalized = normalized_email strip_lower sql_lower email in
            elim (owner_for normalized (owner_email admin_email) owner) [
              | some o ↦ as_owner (attach_owner provider subject o email now a)
              | none ↦
                  register_ordinary provider subject email normalized display_name allowed now a
            ]
      ]

pub data Teardown : Type 0 where
  no_connection was_revoked pending : Teardown

pub record Deleted : Type 0 where
  pub existed : Bool
  pub connection_teardown : Teardown
  pub staged_path : Option String

-- The UPDATE that leaves a token-free tombstone of a connection.
abbrev pub tombstone : ℕ → Connection → Connection
tombstone now row = record row {
  token = none;
  status = revocation_pending;
  token_epoch = row.token_epoch + 1;
  updated_at = now;
  lease_id = none;
  lease_expires_at = 0;
  revoke_acked_at = none;
  last_sync_error = none;
}

abbrev pub teardown_of_status : Status → Teardown
teardown_of_status revoked = was_revoked
teardown_of_status _ = pending

unfoldable pub teardown_of : Option Connection → Teardown
teardown_of none = no_connection
teardown_of (some row) = teardown_of_status row.status

unfoldable pub torn_down : ℕ → ℕ → Teardown → Table Connection → Table Connection
torn_down u now pending connections = update u (tombstone now) connections
torn_down u now _ connections = delete u connections

abbrev pub path_of : Option Intent → Option String
path_of none = none
path_of (some i) = some i.staged_path

unfoldable pub purged : ℕ → ℕ → Accounts → Accounts
purged u now a = record {
  users = delete u a.users;
  last_user_id = a.last_user_id;
  identities = without_user u a.identities;
  sessions = drop_where (λ s. s.user_id == u) a.sessions;
  tenants = delete u a.tenants;
  journal = delete u a.journal;
  connections = torn_down u now (teardown_of (find u a.connections)) a.connections;
  throttle = delete u a.throttle;
  billing = without u a.billing;
  statistics = without u a.statistics;
}

unfoldable pub delete_found : ℕ → ℕ → Accounts → Accounts × Answer Deleted
delete_found u now a = if is_admin_row (find u a.users) then (a, failed owner_protected) else (
  purged u now a,
  done (record {
    existed = is_some (find u a.users);
    connection_teardown = teardown_of (find u a.connections);
    staged_path = path_of (find u a.journal);
  }),
)

unfoldable pub delete_user : ℕ → ℕ → Accounts → Accounts × Answer Deleted
delete_user user_id now a = elim (canonical_tenant_id (int user_id)) [
  | none ↦ (a, failed invalid_tenant_id)
  | some u ↦ delete_found u now a
]
