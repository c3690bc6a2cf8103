-- ===== src/Accounts/Registry.antt =====
-- What runs of calls keep and change, over the steps.
use aistat.Prelude.{
  ℕ, ◌+◌, ◌≡◌, refl, String, str_eq, ◌&&◌, true, false, Option, none, some, List, [], ◌∷◌, ==_refl,
  if◌then◌else◌, Bool-cases, inl, inr, arith, ap, ◌∙◌, is_some,
}
use aistat.Table.{find, find-upsert}
use aistat.Accounts.{
  User, Accounts, identity_of, is_admin_row, created_identity, inserted_user, purged,
}
use aistat.Accounts.Identities.{unless, same_subject, identity_of-without_user, identity_of-link}
use aistat.Accounts.Invariant.{
  IsValid, linked-IsValid, inserted_user-IsValid, promoted-IsValid, with_tenant-IsValid,
  purged-IsValid,
}
use aistat.Accounts.Calls.{
  Call, ensure_owner, find_or_create, link_to_owner, register, delete_account, perform, run,
  subject_of, deletes, is_ensure_owner, Step, refused, known, created, registered, attached,
  owner_known, promotes, founds, deleted,
}
use aistat.Accounts.Steps.{perform-Step}

newest_is_some :
    (now : ℕ) (name email : Option String) (a : Accounts)
    → is_some (find (a.last_user_id + 1) (inserted_user now name email false a).users) ≡ true
newest_is_some now name email a = rw (find-upsert, ==_refl) refl

created-IsValid :
    (p s : String) (email name : Option String) (now : ℕ) (a : Accounts)
    → identity_of p s a.identities ≡ none
    → IsValid a
    → IsValid (created_identity p s email name now a)
unfolding created_identity
created-IsValid p s email name now a e v =
    linked-IsValid p s (a.last_user_id + 1) email now (inserted_user now name email false a) e
      (newest_is_some now name email a) (inserted_user-IsValid now name email false a (λ h. cc) v)

is_admin_row-is_some : (o : Option User) → is_admin_row o ≡ true → is_some o ≡ true
is_admin_row-is_some none h = cc
is_admin_row-is_some (some u) h = refl

pub Step-IsValid :
    (c : Call) (a a' : Accounts) (r : Option ℕ) → Step c a a' r → IsValid a → IsValid a'
unfolding created_identity
Step-IsValid c a a' r refused v = v
Step-IsValid c a a' r (known p s u h e) v = v
Step-IsValid c a a' r (created p s email name now h e) v = created-IsValid p s email name now a e v
Step-IsValid c a a' r (registered p s email name now h e) v =
    with_tenant-IsValid (a.last_user_id + 1) _ (created_identity p s email name now a) (omega arith)
      (created-IsValid p s email name now a e v)
Step-IsValid c a a' r (attached p s owner email now h e t) v =
    linked-IsValid p s owner email now a e (is_admin_row-is_some (find owner a.users) t) v
Step-IsValid c a a' r (owner_known u h) v = v
Step-IsValid c a a' r (promotes u h k) v = promoted-IsValid u a k v
Step-IsValid c a a' r (founds name email now h k) v =
    inserted_user-IsValid now name email true a (λ _. k) v
Step-IsValid c a a' r (deleted u now h f) v = purged-IsValid u now a v

module _ (strip_lower sql_lower : String → String) where
  -- Every run of calls keeps the invariant of the accounts: at most one admin, every external
  -- identity once and leading to a user, and no row of a user, tenant or connection beyond the
  -- counter of the ids.
  pub run-IsValid :
      (cs : List Call) (a : Accounts) → IsValid a → IsValid (run strip_lower sql_lower cs a)
  unfolding run
  run-IsValid [] a v = v
  run-IsValid (c ∷ rest) a v =
      run-IsValid rest _ (Step-IsValid c a _ _ (perform-Step strip_lower sql_lower c a) v)

-- The abstract book of external identities: what a subject leads to after a call and its answer.
-- Only an answered call changes it: it binds its subject to the answer, or a deletion frees the
-- subjects of the deleted user.
abbrev pub rebound : Option (String × String) → Option ℕ → ℕ → String → String → Option ℕ → Option ℕ
rebound (some (p, s)) d u q t o = if str_eq p q && str_eq s t then some u else o
rebound none (some d) u q t o = unless d o
rebound none none u q t o = o

abbrev pub after : Call → Option ℕ → String → String → Option ℕ → Option ℕ
after c none q t o = o
after c (some u) q t o = rebound (subject_of c) (deletes c) u q t o

rebound_same :
    (p s q t : String) (u : ℕ) (a : Accounts)
    → identity_of p s a.identities ≡ some u
    → identity_of q t a.identities
      ≡ (if str_eq p q && str_eq s t then some u else identity_of q t a.identities)
rebound_same p s q t u a e = elim (Bool-cases (str_eq p q && str_eq s t)) [
  | inl b ↦ rw b (same_subject p s q t a.identities b ∙ e)
  | inr b ↦ rw b refl
]

not-deletes : (c : Call) → is_ensure_owner c ≡ true → (subject_of c ≡ none) × (deletes c ≡ none)
not-deletes (ensure_owner username email now) h = (refl, refl)
not-deletes (find_or_create p s email name now) h = cc
not-deletes (link_to_owner p s owner email now) h = cc
not-deletes (register p s email name admin_email allowed owner now) h = cc
not-deletes (delete_account u now) h = cc

not-subject : (c : Call) (u : ℕ) → deletes c ≡ some u → subject_of c ≡ none
not-subject (ensure_owner username email now) u h = cc
not-subject (find_or_create p s email name now) u h = cc
not-subject (link_to_owner p s owner email now) u h = cc
not-subject (register p s email name admin_email allowed owner now) u h = cc
not-subject (delete_account v now) u h = refl

pub Step-after :
    (c : Call) (a a' : Accounts) (r : Option ℕ)
    → Step c a a' r
    → IsValid a
    → (q t : String) → identity_of q t a'.identities ≡ after c r q t (identity_of q t a.identities)
unfolding created_identity purged
Step-after c a a' r refused v q t = refl
Step-after c a a' r (known p s u h e) v q t = rw h (rebound_same p s q t u a e)
Step-after c a a' r (created p s email name now h e) v q t =
    rw h (identity_of-link q t _ a.identities)
Step-after c a a' r (registered p s email name now h e) v q t =
    rw h (identity_of-link q t _ a.identities)
Step-after c a a' r (attached p s owner email now h e _) v q t =
    rw h (identity_of-link q t _ a.identities)
Step-after c a a' r (owner_known u h) v q t = let (k, l) = not-deletes c h in rw (k, l) refl
Step-after c a a' r (promotes u h _) v q t = let (k, l) = not-deletes c h in rw (k, l) refl
Step-after c a a' r (founds name email now h _) v q t =
    let (k, l) = not-deletes c h in rw (k, l) refl
Step-after c a a' r (deleted u now h f) v q t =
    rw (not-subject c u h, h) (identity_of-without_user q t u a.identities v.unique)

abbrev pub replay : List (Call × Option ℕ) → String → String → Option ℕ → Option ℕ
replay [] q t o = o
replay ((c, r) ∷ rest) q t o = replay rest q t (after c r q t o)

module _ (strip_lower sql_lower : String → String) where
  -- The calls of a run with their answers.
  unfoldable pub answers : List Call → Accounts → List (Call × Option ℕ)
  answers [] a = []
  answers (c ∷ rest) a = let r = perform strip_lower sql_lower c a in (c, r.1) ∷ answers rest r.0

  -- The table of identities that a run leaves is the replay of its answers on the abstract book.
  pub run-replay :
      (cs : List Call) (a : Accounts) (q t : String)
      → IsValid a
      → identity_of q t (run strip_lower sql_lower cs a).identities
        ≡ replay (answers cs a) q t (identity_of q t a.identities)
  unfolding run answers
  run-replay [] a q t v = refl
  run-replay (c ∷ rest) a q t v =
      let k = perform-Step strip_lower sql_lower c a in
      run-replay rest _ q t (Step-IsValid c a _ _ k v)
      ∙ ap (replay (answers rest _) q t) (Step-after c a _ _ k v q t)
