-- ===== src/Oauth/History.antt =====
-- A history of logins: who begins and who finishes them, with anything that happens to the accounts
-- in between.
use aistat.Prelude.{ℕ, ◌≡◌, ◌⊎◌, String, false, Option, some, List, [], ◌∷◌, str_eq}
use aistat.Security.{OauthState}
use aistat.Accounts.{Accounts}
use aistat.Oauth.Identity.{Provider, Outside}
use aistat.Oauth.{Store, Params, Policy, present, begin, finish}

pub data Event : Type 0 where
  begins : Provider → Option String → Option String → String → ℕ → Event
  finishes : Policy → Provider → Params → Option String → ℕ → Event
  -- the accounts become any others
  meanwhile : Accounts → Event

module _ (out : Outside) where
  unfoldable pub step : Event → Store → Store
  step (begins p next_url client_token state now) s = record s {
    db = (begin out p next_url client_token state now s.db).0;
  }
  step (finishes policy p params client_token now) s =
      (finish out policy p params client_token now s).0
  step (meanwhile a) s = record s { accounts = a }

  -- The newest event comes first.
  unfoldable pub run : List Event → Store → Store
  run [] s = s
  run (e ∷ past) s = step e (run past s)

-- A login with the state began for the provider at `began`, in a browser with the token.
abbrev pub Began : Event → String → String → String → ℕ → Type 0
Began (begins p next_url client_token state now) st name token began =
    (state ≡ st) × (p.name ≡ name) × (client_token ≡ some token) × (now ≡ began)
Began _ st name token began = ⊥

abbrev pub HasBegun : List Event → String → String → String → ℕ → Type 0
HasBegun [] st name token began = ⊥
HasBegun (e ∷ past) st name token began =
    Began e st name token began ⊎ HasBegun past st name token began

-- A callback with the state came, and no login began with it since.
abbrev pub IsServed : String → List Event → Type 0
IsServed st [] = ⊥
IsServed st (begins p next_url client_token state now ∷ past) =
    (str_eq state st ≡ false) × IsServed st past
IsServed st (finishes policy p params client_token now ∷ past) =
    (present params.state ≡ some st) ⊎ IsServed st past
IsServed st (meanwhile a ∷ past) = IsServed st past

-- A stored row comes from a begin of the history.
abbrev pub RowBegun : Outside → List Event → String × OauthState → Type 0
RowBegun out past (st, row) =
    (token : String) × HasBegun past st row.provider token row.created_at
    × (row.client_hash ≡ some (out.hash token))
