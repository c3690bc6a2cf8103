-- ===== src/Oauth/Bound.antt =====
-- A login is finished in the browser that began it, over every history.
use aistat.Prelude.{
  ℕ, ◌+◌, ◌<◌, ◌≡◌, refl, String, true, Option, none, some, List, [], str_eq, eq_iff, Bool-cases,
  inl, inr, arith, ap, ◌∙◌, sym, subst, Option-cases,
}
use aistat.Security.Kept.{All-look}
use aistat.Security.Oauth.{take_oauth_state-look}
use aistat.Security.{TakenState, take_oauth_state, oauth_state_ttl_seconds}
use aistat.Accounts.{Accounts}
use aistat.Oauth.Identity.{Provider, Outside, ok, error, OauthError}
use aistat.Oauth.{
  Store, Params, Login, Policy, present, finish, callback, finish_taken, with_code, token_matches,
  has_text,
}
use aistat.Oauth.History.{Event, run, HasBegun, RowBegun}
use aistat.Oauth.Browser.{run-rows, finish_without, finish_at, present-some}

same_some : {a b : String} → some a ≡ some b → a ≡ b
same_some h = cc

not_ok {ℓ κ} : {A : Type ℓ} {B : Type κ} {e : OauthError} {a : A} → error e ≡ ok a → B
not_ok h = cc

module _ (out : Outside) where
  -- An accepted callback took a state of its provider and has the token of its browser.
  IsBound : Provider → Option String → Option TakenState → Type 0
  IsBound p client_token taken =
      (t : TakenState) × (taken ≡ some t)
      × (t.provider ≡ p.name)
      × (own : String) × (client_token ≡ some own)
      × (t.client_hash ≡ some (out.hash own))

  token_matches-some :
      (hash client_token : Option String)
      → token_matches out hash client_token ≡ true
      → (own : String) × (client_token ≡ some own) × (hash ≡ some (out.hash own))
  token_matches-some none client_token h = cc
  token_matches-some (some expected) none h = cc
  token_matches-some (some expected) (some token) h =
      let same : str_eq expected (out.hash token) ≡ true = ground arith in
      (token, refl, ap some ((eq_iff expected (out.hash token)).0 same))

  taken-IsBound :
      (policy : Policy) (p : Provider) (code : String) (client_token : Option String)
      (taken : Option TakenState) (a : Accounts) (login : Login)
      → (finish_taken out policy p code client_token taken a).1 ≡ ok login
      → IsBound p client_token taken
  unfolding finish_taken IsBound
  taken-IsBound policy p code client_token none a login = λ h. cc
  taken-IsBound policy p code client_token (some t) a login =
      elim (Bool-cases (str_eq t.provider p.name)) [
        | inl n ↦ elim (Bool-cases (token_matches out t.client_hash client_token)) [
          | inl m ↦ λ h.
              (let (own, o, k) = token_matches-some t.client_hash client_token m in
                (t, refl, (eq_iff t.provider p.name).0 n, own, o, k))
          | inr m ↦ rw (n, m) (λ h. cc)
        ]
        | inr n ↦ rw n (λ h. cc)
      ]

  callback-IsBound :
      (policy : Policy) (p : Provider) (params : Params) (client_token : Option String)
      (taken : Option TakenState) (a : Accounts) (login : Login)
      → (callback out policy p params client_token taken a).1 ≡ ok login
      → IsBound p client_token taken
  unfolding callback
  callback-IsBound policy p params client_token taken a login =
      elim (Bool-cases (has_text params.error)) [
        | inl e ↦ rw e (λ h. cc)
        | inr e ↦ rw e (coded (present params.code))
      ]
    where
      coded :
          (code : Option String)
          → (with_code out policy p code client_token taken a).1 ≡ ok login
          → IsBound p client_token taken
      coded none h = cc
      coded (some code) h = taken-IsBound policy p code client_token taken a login h

  abbrev pub IsFromBegin : List Event → Provider → Params → Option String → ℕ → Type 0
  IsFromBegin past p params client_token now =
      (st own token : String) × (began : ℕ) × (params.state ≡ some st)
      × (client_token ≡ some own)
      × HasBegun past st p.name token began
      × (out.hash token ≡ out.hash own)
      × (now < began + oauth_state_ttl_seconds)

  from_row :
      (past : List Event) (s : Store) (p : Provider) (params : Params)
      (client_token : Option String) (now : ℕ) (st : String)
      → s.db.oauth_state ≡ []
      → params.state ≡ some st
      → IsBound p client_token (take_oauth_state st now (run out past s).db).1
      → IsFromBegin past p params client_token now
  unfolding IsBound
  from_row past s p params client_token now st e h (t, taken, name, own, o, k) =
      let db = (run out past s).db in
      let (row, found, live, provider, client) = take_oauth_state-look st now db t taken in
      let (token, began, hashed) =
        All-look (RowBegun out past) st row db.oauth_state (run-rows out past s e) found in
      (
        st,
        own,
        token,
        row.created_at,
        h,
        o,
        subst (λ n. HasBegun past st n token row.created_at) (sym provider ∙ name) began,
        same_some (sym hashed ∙ sym client ∙ k),
        ground arith,
      )

  -- Whatever happened before on a host without stored states, a callback that is accepted comes,
  -- with its state, from a login that began for the same provider less than 600 seconds before, in a
  -- browser whose token has the hash of the token that the callback presents.
  pub finish-IsFromBegin :
      (past : List Event) (s : Store) (policy : Policy) (p : Provider) (params : Params)
      (client_token : Option String) (now : ℕ) (login : Login)
      → s.db.oauth_state ≡ []
      → (finish out policy p params client_token now (run out past s)).1 ≡ ok login
      → IsFromBegin past p params client_token now
  finish-IsFromBegin past s policy p params client_token now login e h =
      elim (Option-cases (present params.state)) [
        | inl n ↦
            let (x, q) = finish_without out policy p params client_token now (run out past s) n in
            not_ok (sym (ap (λ r. r.1) q) ∙ h)
        | inr (st, n) ↦
            from_row past s p params client_token now st e (present-some out params.state st n) (
              callback-IsBound policy p params client_token
                (take_oauth_state st now (run out past s).db).1 (run out past s).accounts login
                (ap (λ r. r.1)
                    (sym (finish_at out policy p params client_token now (run out past s) st n))
                  ∙ h))
      ]
