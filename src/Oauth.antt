-- ===== src/Oauth.antt =====
-- The OAuth login flow (aistat/oauth.py): begin, finish and the policy of open registration, over
-- the one-time states and the accounts of the public host.
pub mod Email
pub mod Identity
pub mod Canonical
pub mod History
pub mod Browser
pub mod Bound
pub mod Once
pub mod Registration
mod Tests
use Prim.Native.Char.{code}
use aistat.Prelude.{
  ℕ, String, Bool, false, not, ◌&&◌, ◌||◌, Option, none, some, List, str_eq, if◌then◌else◌,
}
use aistat.Security.{SecurityDb, TakenState, put_oauth_state, take_oauth_state}
use aistat.Accounts.{Accounts, Answer, done, failed, Registered, register_or_link_identity}
use aistat.Oauth.Email.{normalize_email}
use aistat.Oauth.Identity.{
  Claims, Json, Outside, Provider, Result, email_not_verified, endpoint_not_https, error,
  exchange_code, fetch_identity, invalid_state, is_empty, is_https, missing_client_token,
  missing_state_or_code, no_usable_email, ok, provider_error, registration_closed,
  registration_failed, state_taken, text, text_value, unbound_browser,
}

-- The parts of security.db that the flow reads and writes.
pub record Store : Type 0 where
  pub db : SecurityDb
  pub accounts : Accounts

pub record Params : Type 0 where
  pub state : Option String
  pub code : Option String
  pub error : Option String

pub record Login : Type 0 where
  pub user_id : ℕ
  pub email : Json
  pub display_name : Json
  pub next_url : String

-- A missing text and an empty one are the same to the code.
abbrev pub present : Option String → Option String
present none = none
present (some s) = if is_empty s then none else some s

abbrev pub has_text : Option String → Bool
has_text none = false
has_text (some s) = not (is_empty s)

unfoldable pub canonical_email : Json → Json
canonical_email email = elim (normalize_email (text_value email)) [ none ↦ email | some t ↦ text t ]

abbrev pub next_or_root : Option String → String
next_or_root none = "/"
next_or_root (some s) = if is_empty s then "/" else s

-- `resolve_identity`: the account policy.
abbrev pub Policy : Type 0
Policy = Claims → Accounts → Accounts × Result ℕ

abbrev pub registration : Accounts × Answer Registered → Accounts × Result ℕ
registration (a, failed e) = (a, error registration_failed)
registration (a, done r) = (a, elim r.user_id [ none ↦ error registration_closed | some u ↦ ok u ])

module _ (out : Outside) where
  unfoldable pub build_authorize_url : Provider → String → Result String
  build_authorize_url p state =
      if not (is_https out p.authorize_url) || not (is_https out p.redirect_uri)
      then error endpoint_not_https
      else if is_empty state
      then error missing_state_or_code
      else ok (out.authorize_query p state)

  abbrev pub begun : Provider → String → SecurityDb → Option SecurityDb → SecurityDb × Result String
  begun p state db none = (db, error state_taken)
  begun p state db (some db') = (db', build_authorize_url p state)

  -- `state` is the random text of generate_state. A state is stored before the URL is built.
  unfoldable pub begin :
      Provider
      → Option String
      → Option String
      → String
      → ℕ
      → SecurityDb
      → SecurityDb × Result String
  begin p next_url client_token state now db = elim (present client_token) [
    | none ↦ (db, error missing_client_token)
    | some token ↦
        begun p state db (put_oauth_state state p.name next_url (some (out.hash token)) now db)
  ]

  abbrev pub token_matches : Option String → Option String → Bool
  token_matches none client_token = false
  token_matches (some expected) none = false
  token_matches (some expected) (some token) =
      not (is_empty token) && not (is_empty expected) && str_eq expected (out.hash token)

  -- The identity of the callback, before any account is touched.
  unfoldable pub identity_for : Provider → String → Result Claims
  identity_for p code = elim (exchange_code out p code) [
    | error e ↦ error e
    | ok access_token ↦ fetch_identity out p access_token
  ]

  unfoldable pub login_of : Option String → Claims → Accounts × Result ℕ → Accounts × Result Login
  login_of next_url claims (a, error e) = (a, error e)
  login_of next_url claims (a, ok u) = (
    a,
    ok (record {
      user_id = u;
      email = canonical_email claims.email;
      display_name = claims.display_name;
      next_url = next_or_root next_url;
    }),
  )

  unfoldable pub resolved :
      Policy → Option String → Result Claims → Accounts → Accounts × Result Login
  resolved policy next_url (error e) a = (a, error e)
  resolved policy next_url (ok claims) a = login_of next_url claims (policy claims a)

  unfoldable pub finish_taken :
      Policy
      → Provider
      → String
      → Option String
      → Option TakenState
      → Accounts
      → Accounts × Result Login
  finish_taken policy p code client_token none a = (a, error invalid_state)
  finish_taken policy p code client_token (some taken) a =
      if str_eq taken.provider p.name
      then if token_matches taken.client_hash client_token
        then resolved policy taken.next_url (identity_for p code) a
        else (a, error unbound_browser)
      else (a, error invalid_state)

  abbrev pub with_code :
      Policy
      → Provider
      → Option String
      → Option String
      → Option TakenState
      → Accounts
      → Accounts × Result Login
  with_code policy p none client_token taken a = (a, error missing_state_or_code)
  with_code policy p (some code) client_token taken a =
      finish_taken policy p code client_token taken a

  -- What follows the removal of the state.
  unfoldable pub callback :
      Policy
      → Provider
      → Params
      → Option String
      → Option TakenState
      → Accounts
      → Accounts × Result Login
  callback policy p params client_token taken a =
      if has_text params.error
      then (a, error provider_error)
      else with_code policy p (present params.code) client_token taken a

  -- A callback removes its state before anything is checked.
  unfoldable pub finish :
      Policy → Provider → Params → Option String → ℕ → Store → Store × Result Login
  finish policy p params client_token now s = elim (present params.state) [
    | none ↦ (s, error (if has_text params.error then provider_error else missing_state_or_code))
    | some state ↦
        let taken = take_oauth_state state now s.db in
        let r = callback policy p params client_token taken.1 s.accounts in
        (record { db = taken.0; accounts = r.0 }, r.1)
  ]

  unfoldable pub open_registration_identity :
      String → List String → Option String → Option ℕ → ℕ → Policy
  open_registration_identity provider allowed admin_email owner now claims a =
      elim (normalize_email (text_value claims.email)) [
        | none ↦ (a, error no_usable_email)
        | some email ↦
            if claims.email_verified
            then registration (
                register_or_link_identity out.strip_lower out.sql_lower provider claims.subject
                  (some email) (out.display claims.display_name) admin_email allowed owner now a)
            else (a, error email_not_verified)
      ]
