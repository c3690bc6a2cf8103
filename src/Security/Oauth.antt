-- ===== src/Security/Oauth.antt =====
-- That an OAuth state serves once, for a bounded time.
use aistat.Prelude.{
  ℕ, ◌+◌, String, Option, none, some, arith, is_some, if◌then◌else◌, subst, ap, ltb, ◌∙◌, refl, sym,
  Bool-cases, inl, inr, false, ◌≡◌,
}
use aistat.Security.Rows.{look, drop_where, put, look-drop, look-put, inserted}
use aistat.Security.{
  SecurityDb, OauthState, TakenState, outdated, oauth_state_ttl_seconds, put_oauth_state,
  take_oauth_state, taken_row,
}

-- A state that was taken, with whatever result, is never taken again before it is stored again.
pub take_oauth_state_again :
    (state : String) (now later : ℕ) (db : SecurityDb)
    → (take_oauth_state state later (take_oauth_state state now db).0).1 ≡ none
unfolding take_oauth_state
take_oauth_state_again state now later db = ap (taken_row later) (look-drop state db.oauth_state)

put_row :
    (state provider : String) (next_url client_hash : Option String) (now : ℕ) (db db' : SecurityDb)
    → put_oauth_state state provider next_url client_hash now db ≡ some db'
    → look state db'.oauth_state
      ≡ some (record {
        provider = provider;
        next_url = next_url;
        created_at = now;
        client_hash = client_hash;
      })
unfolding put_oauth_state
put_row state provider next_url client_hash now db db' h =
    let live = drop_where (outdated now) db.oauth_state in
    let row : OauthState = record {
      provider = provider;
      next_url = next_url;
      created_at = now;
      client_hash = client_hash;
    } in
    let written : SecurityDb = record db { oauth_state = put state row live } in
    subst (λ d. look state d.oauth_state ≡ some row)
      (inserted (is_some (look state live)) written db' h) (look-put state row live)

fresh_taken :
    (t now : ℕ) (provider : String) (next_url client_hash : Option String)
    → taken_row t (
        some (record {
          provider = provider;
          next_url = next_url;
          created_at = now;
          client_hash = client_hash;
        }))
      ≡ (if ltb t (now + oauth_state_ttl_seconds)
          then some (record { provider = provider; next_url = next_url; client_hash = client_hash })
          else none)
unfolding taken_row
fresh_taken t now provider next_url client_hash = ground arith

-- A stored state yields its provider, its return address and its browser binding within its
-- lifetime, and nothing from its end on.
pub put_oauth_state-take_oauth_state :
    (state provider : String) (next_url client_hash : Option String) (now : ℕ) (db db' : SecurityDb)
    → put_oauth_state state provider next_url client_hash now db ≡ some db'
    → (t : ℕ)
    → (take_oauth_state state t db').1 ≡ (
        if ltb t (now + oauth_state_ttl_seconds)
        then some (record { provider = provider; next_url = next_url; client_hash = client_hash })
        else none)
unfolding take_oauth_state
put_oauth_state-take_oauth_state state provider next_url client_hash now db db' h t =
    ap (taken_row t) (put_row state provider next_url client_hash now db db' h)
    ∙ fresh_taken t now provider next_url client_hash

abbrev taken_of : OauthState → TakenState
taken_of row = record {
  provider = row.provider;
  next_url = row.next_url;
  client_hash = row.client_hash;
}

taken_row-look :
    (now : ℕ) (o : Option OauthState) (t : TakenState)
    → taken_row now o ≡ some t
    → (row : OauthState) × (o ≡ some row)
      × (outdated now row ≡ false)
      × (t.provider ≡ row.provider)
      × (t.client_hash ≡ row.client_hash)
unfolding taken_row
taken_row-look now none t = λ h. cc
taken_row-look now (some row) t = elim (Bool-cases (outdated now row)) [
  | inl d ↦ rw d (λ h. cc)
  | inr d ↦ rw d (λ h.
      (let same : taken_of row ≡ t = cc in
        (row, refl, d, ap (λ x. x.provider) (sym same), ap (λ x. x.client_hash) (sym same))))
]

-- What is taken was stored, and its lifetime was not over.
pub take_oauth_state-look :
    (state : String) (now : ℕ) (db : SecurityDb) (t : TakenState)
    → (take_oauth_state state now db).1 ≡ some t
    → (row : OauthState) × (look state db.oauth_state ≡ some row)
      × (outdated now row ≡ false)
      × (t.provider ≡ row.provider)
      × (t.client_hash ≡ row.client_hash)
unfolding take_oauth_state
take_oauth_state-look state now db t = taken_row-look now (look state db.oauth_state) t

pub take_oauth_state_absent :
    (state : String) (now : ℕ) (db : SecurityDb)
    → look state db.oauth_state ≡ none
    → (take_oauth_state state now db).1 ≡ none
unfolding take_oauth_state taken_row
take_oauth_state_absent state now db h = ap (taken_row now) h
