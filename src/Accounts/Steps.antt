-- ===== src/Accounts/Steps.antt =====
-- Each call on the accounts is one of the steps.
use aistat.Prelude.{
  ℕ, ◌+◌, ◌≡◌, refl, String, Bool, true, false, Option, none, some, List, [], ◌∷◌, ◌==◌, ==_iff,
  if◌then◌else◌, arith, subst, sym, ap, ◌∙◌,
}
use aistat.Table.{find, scan-none}
use aistat.Tenant.{canonical_tenant_id, int, canonical_tenant_id-int}
use aistat.Accounts.{
  User, Accounts, Answer, done, failed, identity_of, admins, admin_id, is_admin_row,
  normalized_email, email_matches, owner_by_email, owner_among, ensure_owner_user, created_identity,
  find_or_create_user_by_identity, attach_owner, link_identity_to_owner, as_owner, with_tenant,
  is_barred, register_ordinary, owner_for, owner_email, register_or_link_identity, delete_found,
  delete_user,
}
use aistat.Accounts.Calls.{
  Call, ensure_owner, find_or_create, link_to_owner, register, delete_account, user_of,
  registered_of, deleted_of, perform, subject_of, is_ensure_owner, NoAdmin, Step, refused, known,
  created, registered, attached, owner_known, promotes, founds, deleted,
}

-- What a call answered, as a step.
abbrev StepAs {ℓ} :
    {A : Type ℓ} → (Answer A → Option ℕ) → Call → Accounts → Accounts × Answer A → Type 0
StepAs f c a r = Step c a r.0 (f r.1)

module _ {ℓ} {A : Type ℓ} (f : Answer A → Option ℕ) (c : Call) (a : Accounts) where
  -- What a lookup found, on both sides.
  step_case {κ} :
      {X : Type κ} (o : Option X) (r : Accounts × Answer A) (k : X → Accounts × Answer A)
      → (o ≡ none → StepAs f c a r)
      → ((x : X) → o ≡ some x → StepAs f c a (k x))
      → StepAs f c a (elim o [ none ↦ r | some x ↦ k x ])
  step_case none r k g h = g refl
  step_case (some x) r k g h = h x refl

  -- A test that a call makes, on both sides.
  step_if :
      (b : Bool) (r r' : Accounts × Answer A)
      → (b ≡ true → StepAs f c a r)
      → (b ≡ false → StepAs f c a r')
      → StepAs f c a (if b then r else r')
  step_if true r r' k l = k refl
  step_if false r r' k l = l refl

find_or_create-Step :
    (p s : String) (email name : Option String) (now : ℕ) (a : Accounts)
    → StepAs user_of
        (find_or_create p s email name now)
        a
        (find_or_create_user_by_identity p s email name now a)
unfolding find_or_create_user_by_identity
find_or_create-Step p s email name now a =
    step_case user_of (find_or_create p s email name now) a (identity_of p s a.identities) _ _
      (created p s email name now refl) (λ u. known p s u refl)

attach-Step :
    (c : Call) (p s : String) (owner : ℕ) (email : Option String) (now : ℕ) (a : Accounts)
    → subject_of c ≡ some (p, s)
    → identity_of p s a.identities ≡ none
    → StepAs user_of c a (attach_owner p s owner email now a)
unfolding attach_owner
attach-Step c p s owner email now a h e =
    step_if user_of c a (is_admin_row (find owner a.users)) _ _ (attached p s owner email now h e)
      (λ f. refused)

link-Step :
    (p s : String) (owner : ℕ) (email : Option String) (now : ℕ) (a : Accounts)
    → StepAs user_of
        (link_to_owner p s owner email now)
        a
        (link_identity_to_owner p s owner email now a)
unfolding link_identity_to_owner
link-Step p s owner email now a =
    step_case user_of (link_to_owner p s owner email now) a (identity_of p s a.identities) _ _
      (attach-Step (link_to_owner p s owner email now) p s owner email now a refl)
      (λ u e.
        step_if user_of (link_to_owner p s owner email now) a (u == owner) _ _
          (λ t. known p s owner refl (e ∙ ap some ((==_iff u owner).0 t))) (λ f. refused))

as_owner-Step :
    (c : Call) (a : Accounts) (r : Accounts × Answer ℕ)
    → StepAs user_of c a r
    → StepAs registered_of c a (as_owner r)
as_owner-Step c a (a', done u) h = h
as_owner-Step c a (a', failed e) h = h

register_ordinary-Step :
    (c : Call) (p s : String) (email normalized name : Option String) (allowed : List String)
    (now : ℕ) (a : Accounts)
    → subject_of c ≡ some (p, s)
    → identity_of p s a.identities ≡ none
    → StepAs registered_of c a (register_ordinary p s email normalized name allowed now a)
unfolding register_ordinary with_tenant
register_ordinary-Step c p s email normalized name allowed now a h e =
    step_if registered_of c a (is_barred normalized allowed) _ _ (λ t. refused)
      (λ f.
        step_case registered_of c a
          (find (a.last_user_id + 1) (created_identity p s email name now a).tenants) _ _
          (λ _. registered p s email name now h e) (λ w _. refused))

delete-Step :
    (u now : ℕ) (a : Accounts)
    → StepAs (deleted_of u) (delete_account u now) a (delete_user u now a)
unfolding delete_user delete_found
delete-Step u now a =
    step_case (deleted_of u) (delete_account u now) a (canonical_tenant_id (int u)) _ _
      (λ _. refused)
      (λ k e.
        subst (λ x. StepAs (deleted_of u) (delete_account u now) a (delete_found x now a))
          (sym (canonical_tenant_id-int u k e))
          (step_if (deleted_of u) (delete_account u now) a (is_admin_row (find u a.users)) _ _
            (λ t. refused) (λ f. deleted u now refl f)))

is_admin-none : (u : ℕ) (w : User) → admin_id u w ≡ none → w.is_admin ≡ false
is_admin-none u w h = ground arith

pub NoAdmin-nil : (a : Accounts) → admins a.users ≡ [] → NoAdmin a
unfolding admins
NoAdmin-nil a e u = nobody (find u a.users) refl
  where
    nobody : (o : Option User) → find u a.users ≡ o → is_admin_row o ≡ false
    nobody none h = refl
    nobody (some w) h = is_admin-none u w (scan-none admin_id a.users e u w h)

module _ (strip_lower sql_lower : String → String) where
  register-Step :
      (p s : String) (email name admin_email : Option String) (allowed : List String)
      (owner : Option ℕ) (now : ℕ) (a : Accounts)
      → StepAs registered_of (register p s email name admin_email allowed owner now) a (
          register_or_link_identity strip_lower sql_lower p s email name admin_email allowed owner
            now a)
  unfolding register_or_link_identity
  register-Step p s email name admin_email allowed owner now a =
      let c = register p s email name admin_email allowed owner now in
      let normalized = normalized_email strip_lower sql_lower email in
      step_case registered_of c a (identity_of p s a.identities) _ _
        (λ e.
          step_case registered_of c a
            (owner_for normalized (owner_email strip_lower sql_lower admin_email) owner) _ _
            (λ _. register_ordinary-Step c p s email normalized name allowed now a refl e)
            (λ o _. as_owner-Step c a _ (attach-Step c p s o email now a refl e)))
        (λ u. known p s u refl)

  owner_by_email-Step :
      (username : String) (email : Option String) (now : ℕ) (a : Accounts) (l : List ℕ)
      → (c : Call) → is_ensure_owner c ≡ true
      → NoAdmin a
      → StepAs user_of c a (owner_by_email strip_lower sql_lower username email now a l)
  unfolding owner_by_email
  owner_by_email-Step username email now a [] c h k = founds (some username) email now h k
  owner_by_email-Step username email now a (u ∷ []) c h k = promotes u h k
  owner_by_email-Step username email now a (u ∷ v ∷ rest) c h k = refused

  owner_among-Step :
      (username : String) (email : Option String) (now : ℕ) (a : Accounts) (l : List ℕ)
      → admins a.users ≡ l
      → StepAs user_of
          (ensure_owner username email now)
          a
          (owner_among strip_lower sql_lower username email now a l)
  unfolding owner_among
  owner_among-Step username email now a [] e =
      owner_by_email-Step username (normalized_email strip_lower sql_lower email) now a
        (email_matches strip_lower sql_lower (normalized_email strip_lower sql_lower email) a.users)
        (ensure_owner username email now) refl (NoAdmin-nil a e)
  owner_among-Step username email now a (u ∷ []) e = owner_known u refl
  owner_among-Step username email now a (u ∷ v ∷ rest) e = refused

  -- Every call is one of the steps.
  pub perform-Step :
      (c : Call) (a : Accounts)
      → Step c a (perform strip_lower sql_lower c a).0 (perform strip_lower sql_lower c a).1
  unfolding perform ensure_owner_user
  perform-Step (ensure_owner username email now) a =
      owner_among-Step username email now a (admins a.users) refl
  perform-Step (find_or_create p s email name now) a = find_or_create-Step p s email name now a
  perform-Step (link_to_owner p s owner email now) a = link-Step p s owner email now a
  perform-Step (register p s email name admin_email allowed owner now) a =
      register-Step p s email name admin_email allowed owner now a
  perform-Step (delete_account u now) a = delete-Step u now a
