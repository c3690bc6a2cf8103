-- ===== src/Oauth/Once.antt =====
-- A login is finished once, over every history.
use aistat.Prelude.{
  ℕ, ◌≡◌, ◌⊎◌, refl, String, false, Option, none, some, List, [], ◌∷◌, str_eq, Bool-cases, inl, inr,
  ap, ◌∙◌, subst, is_some, Option-cases, if_true, if_false,
}
use aistat.Security.Rows.{look, drop_where, put, look-drop, look-put_other, inserted}
use aistat.Security.Kept.{absent-drop_where, absent-drop}
use aistat.Security.Oauth.{take_oauth_state_absent}
use aistat.Security.{
  SecurityDb, OauthState, TakenState, put_oauth_state, take_oauth_state, outdated,
}
use aistat.Accounts.{Accounts}
use aistat.Oauth.Identity.{Provider, Outside, error, OauthError}
use aistat.Oauth.{
  Store, Params, Policy, present, begin, begun, finish, callback, finish_taken, with_code, has_text,
}
use aistat.Oauth.History.{Event, begins, finishes, meanwhile, step, run, IsServed}
use aistat.Oauth.Browser.{finish_without, finish_at, begin_without, begin_at}

module _ (out : Outside) where
  begun-absent :
      (p : Provider) (next_url : Option String) (token state st : String) (now : ℕ)
      (db : SecurityDb) (o : Option SecurityDb)
      → put_oauth_state state p.name next_url (some (out.hash token)) now db ≡ o
      → str_eq state st ≡ false
      → look st db.oauth_state ≡ none
      → look st (begun out p state db o).0.oauth_state ≡ none
  unfolding put_oauth_state
  begun-absent p next_url token state st now db none e d h = h
  begun-absent p next_url token state st now db (some db') e d h =
      let live = drop_where (outdated now) db.oauth_state in
      let row : OauthState = record {
        provider = p.name;
        next_url = next_url;
        created_at = now;
        client_hash = some (out.hash token);
      } in
      subst (λ x. look st x.oauth_state ≡ none)
        (inserted (is_some (look state live)) (record db { oauth_state = put state row live }) db'
          e)
        (look-put_other st state row live d ∙ absent-drop_where st (outdated now) db.oauth_state h)

  begin-absent :
      (p : Provider) (next_url client_token : Option String) (state st : String) (now : ℕ)
      (db : SecurityDb)
      → str_eq state st ≡ false
      → look st db.oauth_state ≡ none
      → look st (begin out p next_url client_token state now db).0.oauth_state ≡ none
  begin-absent p next_url client_token state st now db d h =
      elim (Option-cases (present client_token)) [
        | inl e ↦ rw (begin_without out p next_url client_token state now db e) h
        | inr (token, e) ↦
            rw (begin_at out p next_url client_token state now db token e)
              (begun-absent p next_url token state st now db _ refl d h)
      ]

  finish-absent :
      (policy : Policy) (p : Provider) (params : Params) (client_token : Option String) (now : ℕ)
      (s : Store) (st : String)
      → (present params.state ≡ some st) ⊎ (look st s.db.oauth_state ≡ none)
      → look st (finish out policy p params client_token now s).0.db.oauth_state ≡ none
  unfolding take_oauth_state
  finish-absent policy p params client_token now s st (inl n) =
      rw (finish_at out policy p params client_token now s st n) (look-drop st s.db.oauth_state)
  finish-absent policy p params client_token now s st (inr h) =
      elim (Option-cases (present params.state)) [
        | inl n ↦ rw ((finish_without out policy p params client_token now s n).1) h
        | inr (st', n) ↦
            rw (finish_at out policy p params client_token now s st' n)
              (absent-drop st st' s.db.oauth_state h)
      ]

  run-IsServed :
      (past : List Event) (s : Store) (st : String)
      → IsServed st past
      → look st (run out past s).db.oauth_state ≡ none
  unfolding run step
  run-IsServed [] s st h = elim h [ ]
  run-IsServed (begins p next_url client_token state now ∷ past) s st h =
      begin-absent p next_url client_token state st now (run out past s).db h.0
        (run-IsServed past s st h.1)
  run-IsServed (finishes policy p params client_token now ∷ past) s st h =
      finish-absent policy p params client_token now (run out past s) st
        (elim h [ inl n ↦ inl n | inr g ↦ inr (run-IsServed past s st g) ])
  run-IsServed (meanwhile a ∷ past) s st h = run-IsServed past s st h

  unserved :
      (policy : Policy) (p : Provider) (params : Params) (client_token : Option String)
      (taken : Option TakenState) (a : Accounts)
      → taken ≡ none
      → (e : OauthError) × (callback out policy p params client_token taken a ≡ (a, error e))
  unfolding callback finish_taken
  unserved policy p params client_token taken a h = elim (Bool-cases (has_text params.error)) [
    | inl t ↦ (_, if_true _ _ t)
    | inr f ↦
        let (e, k) = coded (present params.code) in
        (
          e,
          if_false _ _ f
              ∙ ap (λ x. with_code out policy p (present params.code) client_token x a) h
              ∙ k,
        )
  ]
    where
      coded :
          (code : Option String)
          → (e : OauthError) × (with_code out policy p code client_token none a ≡ (a, error e))
      coded none = (_, refl)
      coded (some code) = (_, refl)

  -- Once a callback has come with a state, whatever became of it, every later callback with this
  -- state is refused and leaves the accounts as they are, whatever happens in between, as long as no
  -- login begins with the state.
  pub finish-IsServed :
      (past : List Event) (s : Store) (policy : Policy) (p : Provider) (params : Params)
      (client_token : Option String) (now : ℕ) (st : String)
      → IsServed st past
      → present params.state ≡ some st
      → (e : OauthError) × ((finish out policy p params client_token now (run out past s)).1
          ≡ error e)
        × ((finish out policy p params client_token now (run out past s)).0.accounts
            ≡ (run out past s).accounts)
  finish-IsServed past s policy p params client_token now st h n =
      let before = run out past s in
      let (e, k) =
        unserved policy p params client_token (take_oauth_state st now before.db).1 before.accounts
          (take_oauth_state_absent st now before.db (run-IsServed past s st h)) in
      let at = finish_at out policy p params client_token now before st n in
      (e, ap (λ r. r.1) at ∙ ap (λ r. r.1) k, ap (λ r. r.0.accounts) at ∙ ap (λ r. r.0) k)
