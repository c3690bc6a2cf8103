-- ===== src/Oauth/Registration.antt =====
-- The policy of open registration: whom it lets in, and what it leaves.
use aistat.Prelude.{
  ℕ, ◌≡◌, refl, String, Bool, true, false, Option, none, some, List, eq_refl, if◌then◌else◌, ap,
  ◌∙◌,
}
use aistat.Table.{find}
use aistat.Accounts.{
  Accounts, Answer, done, failed, Registered, identity_of, is_admin_row, register_or_link_identity,
}
use aistat.Accounts.Invariant.{IsValid}
use aistat.Accounts.Calls.{
  Call, register, subject_of, registered_of, perform, Step, refused, known, created, registered,
  attached, owner_known, promotes, founds, deleted,
}
use aistat.Accounts.Steps.{perform-Step}
use aistat.Accounts.Registry.{Step-after, after}
use aistat.Accounts.Roles.{Step-is_admin_row}
use aistat.Oauth.Identity.{
  Outside, Claims, Result, ok, error, OauthError, registration_closed, no_usable_email,
  email_not_verified, text_value,
}
use aistat.Oauth.{registration, open_registration_identity}
use aistat.Oauth.Email.{normalize_email}

-- A call without an answer changes nothing.
Step-none : (c : Call) (a a' : Accounts) (r : Option ℕ) → Step c a a' r → r ≡ none → a' ≡ a
Step-none c a a' r refused e = refl
Step-none c a a' r (known p s u h k) e = refl
Step-none c a a' r (created p s email name now h k) e = cc
Step-none c a a' r (registered p s email name now h k) e = cc
Step-none c a a' r (attached p s owner email now h k t) e = cc
Step-none c a a' r (owner_known u h) e = cc
Step-none c a a' r (promotes u h k) e = cc
Step-none c a a' r (founds name email now h k) e = cc
Step-none c a a' r (deleted u now h f) e = cc

-- What a callback leaves: nothing new where it fails; where it answers a user, the email is
-- verified and usable and the subject leads to this user; and no one's role differs.
abbrev pub IsProper : String → Claims → Accounts → Accounts × Result ℕ → Type 0
IsProper provider claims a r =
    ((e : OauthError) → r.1 ≡ error e → r.0 ≡ a)
    × ((u : ℕ)
        → r.1 ≡ ok u
        → (claims.email_verified ≡ true)
          × ((t : String) × (normalize_email (text_value claims.email) ≡ some t))
          × (identity_of provider claims.subject r.0.identities ≡ some u))
    × ((v : ℕ) → is_admin_row (find v r.0.users) ≡ is_admin_row (find v a.users))

-- A refusal that changes nothing.
refusal :
    (provider : String) (claims : Claims) (a : Accounts) (e : OauthError)
    → IsProper provider claims a (a, error e)
refusal provider claims a e = (λ _ _. refl, λ u h. cc, λ v. refl)

-- The two answers of a registration, read back.
unanswered :
    (o : Option ℕ) {e : OauthError}
    → (elim o [ none ↦ error registration_closed | some u ↦ ok u ]) ≡ error e
    → o ≡ none
unanswered none h = refl
unanswered (some u) h = cc

answered :
    (o : Option ℕ) {u : ℕ}
    → (elim o [ none ↦ error registration_closed | some v ↦ ok v ]) ≡ ok u
    → o ≡ some u
answered none h = cc
answered (some v) h = (let e : v ≡ _ = cc in ap some e)

registration-error :
    (r : Accounts × Answer Registered) (e : OauthError)
    → (registration r).1 ≡ error e
    → (registered_of r.1 ≡ none)
registration-error (a, failed f) e h = refl
registration-error (a, done r) e h = unanswered r.user_id h

registration-ok :
    (r : Accounts × Answer Registered) (u : ℕ)
    → (registration r).1 ≡ ok u
    → registered_of r.1 ≡ some u
registration-ok (a, failed f) u h = cc
registration-ok (a, done r) u h = answered r.user_id h

registration_tables : (r : Accounts × Answer Registered) → (registration r).0 ≡ r.0
registration_tables (a, failed f) = refl
registration_tables (a, done r) = refl

module _ (provider : String) (claims : Claims) (a : Accounts) where
  policy_case :
      (o : Option String) (r : Accounts × Result ℕ) (k : String → Accounts × Result ℕ)
      → IsProper provider claims a r
      → ((t : String) → o ≡ some t → IsProper provider claims a (k t))
      → IsProper provider claims a (elim o [ none ↦ r | some t ↦ k t ])
  policy_case none r k g h = g
  policy_case (some t) r k g h = h t refl

  policy_if :
      (b : Bool) (r r' : Accounts × Result ℕ)
      → (b ≡ true → IsProper provider claims a r)
      → (b ≡ false → IsProper provider claims a r')
      → IsProper provider claims a (if b then r else r')
  policy_if true r r' g h = g refl
  policy_if false r r' g h = h refl

bound :
    (p s : String) (u : ℕ) (r : Option ℕ) (c : Call) (a : Accounts)
    → subject_of c ≡ some (p, s)
    → r ≡ some u
    → after c r p s (identity_of p s a.identities) ≡ some u
bound p s u r c a h e = rw (e, h, eq_refl p, eq_refl s) refl

module _ (out : Outside) where
  -- The call of a registration with a usable email, as a step on the accounts.
  registered-IsProper :
      (provider : String) (claims : Claims) (t : String) (name admin_email : Option String)
      (allowed : List String) (owner : Option ℕ) (now : ℕ) (a : Accounts)
      → IsValid a
      → claims.email_verified ≡ true
      → normalize_email (text_value claims.email) ≡ some t
      → IsProper provider claims a (
          registration (
            register_or_link_identity out.strip_lower out.sql_lower provider claims.subject
              (some t)
              name
              admin_email
              allowed
              owner
              now
              a))
  unfolding perform
  registered-IsProper provider claims t name admin_email allowed owner now a v verified usable =
      let c = register provider claims.subject (some t) name admin_email allowed owner now in
      let r =
        register_or_link_identity out.strip_lower out.sql_lower provider claims.subject (some t)
          name admin_email allowed owner now a in
      let k : Step c a r.0 (registered_of r.1) = perform-Step out.strip_lower out.sql_lower c a in
      (
        λ e h. registration_tables r ∙ Step-none c a r.0 _ k (registration-error r e h),
        λ u h. (
          verified,
          (t, usable),
          ap (λ x. identity_of provider claims.subject x.identities) (registration_tables r)
              ∙ Step-after c a r.0 (registered_of r.1) k v provider claims.subject
              ∙ bound provider claims.subject u (registered_of r.1) c a refl
                  (registration-ok r u h),
        ),
        λ w.
            ap (λ x. is_admin_row (find w x.users)) (registration_tables r)
            ∙ Step-is_admin_row c a r.0 _ k refl v w,
      )

  -- For valid accounts, a callback under open registration: where it fails the accounts are as they
  -- were; where it answers a user, the email is verified and usable and the subject leads to this
  -- user; and nobody becomes an admin or ceases to be one.
  pub open_registration_identity-IsProper :
      (provider : String) (allowed : List String) (admin_email : Option String) (owner : Option ℕ)
      (now : ℕ) (claims : Claims) (a : Accounts)
      → IsValid a
      → IsProper provider claims a
          (open_registration_identity out provider allowed admin_email owner now claims a)
  unfolding open_registration_identity
  open_registration_identity-IsProper provider allowed admin_email owner now claims a v =
      policy_case provider claims a (normalize_email (text_value claims.email)) _ _
        (refusal provider claims a no_usable_email)
        (λ t usable.
          policy_if provider claims a claims.email_verified _ _
            (λ verified.
              registered-IsProper provider claims t (out.display claims.display_name) admin_email
                allowed owner now a v verified usable)
            (λ _. refusal provider claims a email_not_verified))
