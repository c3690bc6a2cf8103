-- ===== src/Accounts/Calls.antt =====
-- The calls on the accounts as one step function, and what each keeps.
use aistat.Prelude.{ℕ, ◌+◌, ◌≡◌, String, Bool, true, false, Option, none, some, List, [], ◌∷◌}
use aistat.Table.{find, upsert, update}
use aistat.Snapshots.Tenants.{new_tenant}
use aistat.Accounts.{
  Accounts, Answer, done, failed, identity_of, is_admin_row, linked, inserted_user, promoted,
  purged, ensure_owner_user, created_identity, find_or_create_user_by_identity,
  link_identity_to_owner, Registered, register_or_link_identity, delete_user, Deleted,
}

pub data Call : Type 0 where
  ensure_owner : String → Option String → ℕ → Call
  find_or_create : String → String → Option String → Option String → ℕ → Call
  link_to_owner : String → String → ℕ → Option String → ℕ → Call
  register :
      String
      → String
      → Option String
      → Option String
      → Option String
      → List String
      → Option ℕ
      → ℕ
      → Call
  delete_account : ℕ → ℕ → Call

-- The user that a call answers with; `none` where it raises or denies.
abbrev pub user_of : Answer ℕ → Option ℕ
user_of (done u) = some u
user_of (failed e) = none

abbrev pub registered_of : Answer Registered → Option ℕ
registered_of (done r) = r.user_id
registered_of (failed e) = none

abbrev pub deleted_of : ℕ → Answer Deleted → Option ℕ
deleted_of u (done d) = some u
deleted_of u (failed e) = none

abbrev pub with_row : ℕ → ℕ → Accounts → Accounts
with_row u now a = record a { tenants = upsert u (new_tenant now 0) a.tenants }

module _ (strip_lower sql_lower : String → String) where
  unfoldable pub perform : Call → Accounts → Accounts × Option ℕ
  perform (ensure_owner username email now) a =
      let r = ensure_owner_user strip_lower sql_lower username email now a in (r.0, user_of r.1)
  perform (find_or_create p s email name now) a =
      let r = find_or_create_user_by_identity p s email name now a in (r.0, user_of r.1)
  perform (link_to_owner p s owner email now) a =
      let r = link_identity_to_owner p s owner email now a in (r.0, user_of r.1)
  perform (register p s email name admin_email allowed owner now) a =
      let r =
        register_or_link_identity strip_lower sql_lower p s email name admin_email allowed owner now
          a in
      (r.0, registered_of r.1)
  perform (delete_account u now) a = let r = delete_user u now a in (r.0, deleted_of u r.1)

  unfoldable pub run : List Call → Accounts → Accounts
  run [] a = a
  run (c ∷ rest) a = run rest (perform c a).0

-- The external identity that a call is about.
abbrev pub subject_of : Call → Option (String × String)
subject_of (find_or_create p s email name now) = some (p, s)
subject_of (link_to_owner p s owner email now) = some (p, s)
subject_of (register p s email name admin_email allowed owner now) = some (p, s)
subject_of _ = none

abbrev pub deletes : Call → Option ℕ
deletes (delete_account u now) = some u
deletes _ = none

abbrev pub is_ensure_owner : Call → Bool
is_ensure_owner (ensure_owner username email now) = true
is_ensure_owner _ = false

abbrev pub NoAdmin : Accounts → Type 0
NoAdmin a = (u : ℕ) → is_admin_row (find u a.users) ≡ false

-- The ways in which a call leaves the accounts, with its answer.
pub data Step (c : Call) (a : Accounts) : Accounts → Option ℕ → Type 0 where
  refused : Step c a a none
  known :
      (p s : String) (u : ℕ)
      → subject_of c ≡ some (p, s)
      → identity_of p s a.identities ≡ some u
      → Step c a a (some u)
  created :
      (p s : String) (email name : Option String) (now : ℕ)
      → subject_of c ≡ some (p, s)
      → identity_of p s a.identities ≡ none
      → Step c a (created_identity p s email name now a) (some (a.last_user_id + 1))
  registered :
      (p s : String) (email name : Option String) (now : ℕ)
      → subject_of c ≡ some (p, s)
      → identity_of p s a.identities ≡ none
      → Step c a
          (with_row (a.last_user_id + 1) now (created_identity p s email name now a))
          (some (a.last_user_id + 1))
  attached :
      (p s : String) (owner : ℕ) (email : Option String) (now : ℕ)
      → subject_of c ≡ some (p, s)
      → identity_of p s a.identities ≡ none
      → is_admin_row (find owner a.users) ≡ true
      → Step c a (linked p s owner email now a) (some owner)
  owner_known : (u : ℕ) → is_ensure_owner c ≡ true → Step c a a (some u)
  promotes :
      (u : ℕ)
      → is_ensure_owner c ≡ true
      → NoAdmin a
      → Step c a (record a { users = update u promoted a.users }) (some u)
  founds :
      (name email : Option String) (now : ℕ)
      → is_ensure_owner c ≡ true
      → NoAdmin a
      → Step c a (inserted_user now name email true a) (some (a.last_user_id + 1))
  deleted :
      (u now : ℕ)
      → deletes c ≡ some u
      → is_admin_row (find u a.users) ≡ false
      → Step c a (purged u now a) (some u)
