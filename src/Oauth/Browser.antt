-- ===== src/Oauth/Browser.antt =====
-- A login is finished once, in time, and in the browser that began it.
use aistat.Prelude.{
  ℕ, ◌≡◌, refl, String, Option, none, some, List, [], ◌∷◌, inl, inr, arith, subst, All, All-map,
  is_some, Option-cases, case_some, case_none,
}
use aistat.Security.Rows.{look, drop_where, put, inserted}
use aistat.Security.Kept.{All-drop_where, All-drop, All-put}
use aistat.Security.{SecurityDb, OauthState, put_oauth_state, take_oauth_state, outdated}
use aistat.Oauth.Identity.{Provider, Outside, error, OauthError, missing_client_token}
use aistat.Oauth.{Store, Params, Policy, present, begin, begun, finish, callback}
use aistat.Oauth.History.{Event, begins, finishes, meanwhile, step, run, RowBegun}

module _ (out : Outside) where
  pub finish_without :
      (policy : Policy) (p : Provider) (params : Params) (client_token : Option String) (now : ℕ)
      (s : Store)
      → present params.state ≡ none
      → (e : OauthError) × (finish out policy p params client_token now s ≡ (s, error e))
  unfolding finish
  finish_without policy p params client_token now s h = (_, case_none (present params.state) _ _ h)

  pub finish_at :
      (policy : Policy) (p : Provider) (params : Params) (client_token : Option String) (now : ℕ)
      (s : Store) (st : String)
      → present params.state ≡ some st
      → let taken = take_oauth_state st now s.db in
        let r = callback out policy p params client_token taken.1 s.accounts in
        finish out policy p params client_token now s
        ≡ (record { db = taken.0; accounts = r.0 }, r.1)
  unfolding finish
  finish_at policy p params client_token now s st h =
      case_some (present params.state) _
        (λ x.
          let taken = take_oauth_state x now s.db in
          let r = callback out policy p params client_token taken.1 s.accounts in
          (record { db = taken.0; accounts = r.0 }, r.1))
        st h

  widen :
      (e : Event) (past : List Event) (row : String × OauthState)
      → RowBegun out past row
      → RowBegun out (e ∷ past) row
  widen e past row (token, b, c) = (token, inr b, c)

  begun-rows :
      (p : Provider) (next_url : Option String) (token state : String) (now : ℕ) (past : List Event)
      (db : SecurityDb) (o : Option SecurityDb)
      → put_oauth_state state p.name next_url (some (out.hash token)) now db ≡ o
      → All (RowBegun out past) db.oauth_state
      → All
          (RowBegun out (begins p next_url (some token) state now ∷ past))
          (begun out p state db o).0.oauth_state
  unfolding put_oauth_state
  begun-rows p next_url token state now past db none e h =
      All-map (widen (begins p next_url (some token) state now) past) db.oauth_state h
  begun-rows p next_url token state now past db (some db') e h =
      let live = drop_where (outdated now) db.oauth_state in
      let row : OauthState = record {
        provider = p.name;
        next_url = next_url;
        created_at = now;
        client_hash = some (out.hash token);
      } in
      let event = begins p next_url (some token) state now in
      let before =
        All-map (widen event past) live
          (All-drop_where (RowBegun out past) (outdated now) db.oauth_state h) in
      subst
        (λ d. All (RowBegun out (begins p next_url (some token) state now ∷ past)) d.oauth_state)
        (inserted (is_some (look state live)) (record db { oauth_state = put state row live }) db'
          e)
        (All-put (RowBegun out (event ∷ past)) state row live
          (token, inl (refl, refl, refl, refl), refl) before)

  pub present-some : (o : Option String) (s : String) → present o ≡ some s → o ≡ some s
  present-some none s h = cc
  present-some (some t) s h = ground arith

  pub begin_without :
      (p : Provider) (next_url client_token : Option String) (state : String) (now : ℕ)
      (db : SecurityDb)
      → present client_token ≡ none
      → begin out p next_url client_token state now db ≡ (db, error missing_client_token)
  unfolding begin
  begin_without p next_url client_token state now db e = case_none (present client_token) _ _ e

  pub begin_at :
      (p : Provider) (next_url client_token : Option String) (state : String) (now : ℕ)
      (db : SecurityDb) (token : String)
      → present client_token ≡ some token
      → begin out p next_url client_token state now db
        ≡ begun out p state db
            (put_oauth_state state p.name next_url (some (out.hash token)) now db)
  unfolding begin
  begin_at p next_url client_token state now db token e =
      case_some (present client_token) _
        (λ t.
          begun out p state db (put_oauth_state state p.name next_url (some (out.hash t)) now db))
        token e

  begin-rows :
      (p : Provider) (next_url client_token : Option String) (state : String) (now : ℕ)
      (past : List Event) (db : SecurityDb)
      → All (RowBegun out past) db.oauth_state
      → All
          (RowBegun out (begins p next_url client_token state now ∷ past))
          (begin out p next_url client_token state now db).0.oauth_state
  begin-rows p next_url client_token state now past db h =
      elim (Option-cases (present client_token)) [
        | inl e ↦
            rw (begin_without p next_url client_token state now db e)
              (All-map (widen (begins p next_url client_token state now) past) db.oauth_state h)
        | inr (token, e) ↦
            rw
              (
                begin_at p next_url client_token state now db token e,
                present-some client_token token e,
              )
              (begun-rows p next_url token state now past db _ refl h)
      ]

  finish-rows :
      (policy : Policy) (p : Provider) (params : Params) (client_token : Option String) (now : ℕ)
      (P : String × OauthState → Type 0) (s : Store)
      → All P s.db.oauth_state
      → All P (finish out policy p params client_token now s).0.db.oauth_state
  unfolding take_oauth_state
  finish-rows policy p params client_token now P s h = elim (Option-cases (present params.state)) [
    | inl e ↦ rw ((finish_without policy p params client_token now s e).1) h
    | inr (st, e) ↦
        rw (finish_at policy p params client_token now s st e) (All-drop P st s.db.oauth_state h)
  ]

  pub run-rows :
      (past : List Event) (s : Store)
      → s.db.oauth_state ≡ []
      → All (RowBegun out past) (run out past s).db.oauth_state
  unfolding run step
  run-rows [] s e = rw e tt
  run-rows (begins p next_url client_token state now ∷ past) s e =
      begin-rows p next_url client_token state now past (run out past s).db (run-rows past s e)
  run-rows (finishes policy p params client_token now ∷ past) s e =
      finish-rows policy p params client_token now _ (run out past s) (
        All-map (widen (finishes policy p params client_token now) past)
          (run out past s).db.oauth_state (run-rows past s e))
  run-rows (meanwhile a ∷ past) s e =
      All-map (widen (meanwhile a) past) (run out past s).db.oauth_state (run-rows past s e)
