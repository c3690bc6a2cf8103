-- ===== src/Security.antt =====
-- Parts of the store of the public host (aistat/security.py): the login throttle, the server-side
-- sessions and the one-time OAuth states, each a table with a text key.
pub mod Rows
pub mod Kept
pub mod Sessions
pub mod Throttle
pub mod Oauth
mod Tests
use aistat.Prelude.{
  ℕ, ◌+◌, ◌-◌, String, Bool, true, false, not, Option, none, some, List, [], ◌∷◌, ltb, leb,
  if◌then◌else◌, max, is_some,
}
use aistat.Security.Rows.{Keyed, look, drop, drop_where, put}

abbrev pub login_window_seconds : ℕ
login_window_seconds = 900

abbrev pub login_lock_seconds : ℕ
login_lock_seconds = 900

abbrev pub login_max_failures : ℕ
login_max_failures = 5

abbrev pub oauth_state_ttl_seconds : ℕ
oauth_state_ttl_seconds = 600

pub record LoginThrottle : Type 0 where
  pub window_started : ℕ
  pub failures : ℕ
  pub locked_until : ℕ

pub record Session : Type 0 where
  pub user_id : ℕ
  pub created_at : ℕ
  pub expires_at : ℕ
  pub csrf : String

pub record OauthState : Type 0 where
  pub provider : String
  pub next_url : Option String
  pub created_at : ℕ
  pub client_hash : Option String

-- The tables `login_throttle`, `sessions` (by sid_hash) and `oauth_state`.
pub record SecurityDb : Type 0 where
  pub login_throttle : Keyed LoginThrottle
  pub sessions : Keyed Session
  pub oauth_state : Keyed OauthState

unfoldable pub retry_row : ℕ → Option LoginThrottle → Bool × ℕ
retry_row now none = (false, 0)
retry_row now (some row) =
    if ltb now row.locked_until
    then (false, row.locked_until - now)
    else (leb (row.window_started + login_window_seconds) now, 0)

-- The first component of `retry_row` says whether the row is deleted.
unfoldable pub login_retry_after : String → ℕ → SecurityDb → SecurityDb × ℕ
login_retry_after key now db =
    let (stale, retry) = retry_row now (look key db.login_throttle) in
    (if stale then record db { login_throttle = drop key db.login_throttle } else db, retry)

abbrev pub locked : ℕ → LoginThrottle → LoginThrottle
locked now row =
    if leb login_max_failures row.failures
    then record row { locked_until = max row.locked_until (now + login_lock_seconds) }
    else row

abbrev pub first_failure : ℕ → LoginThrottle
first_failure now = record { window_started = now; failures = 1; locked_until = 0 }

-- The row after one more failure.
unfoldable pub failure_row : ℕ → Option LoginThrottle → LoginThrottle
failure_row now none = locked now (first_failure now)
failure_row now (some row) =
    if leb (row.window_started + login_window_seconds) now
    then locked now (first_failure now)
    else locked now (record row { failures = row.failures + 1 })

unfoldable pub record_login_failure : String → ℕ → SecurityDb → SecurityDb × ℕ
record_login_failure key now db =
    let row = failure_row now (look key db.login_throttle) in
    (record db { login_throttle = put key row db.login_throttle }, row.locked_until - now)

unfoldable pub clear_login_failures : String → SecurityDb → SecurityDb
clear_login_failures key db = record db { login_throttle = drop key db.login_throttle }

pub record Resolved : Type 0 where
  pub user_id : ℕ
  pub csrf : String
  pub expires_at : ℕ

abbrev pub expired : ℕ → Session → Bool
expired now s = leb s.expires_at now

abbrev pub new_session : ℕ → String → ℕ → ℕ → Session
new_session user_id csrf ttl now = record {
  user_id = user_id;
  created_at = now;
  expires_at = now + ttl;
  csrf = csrf;
}

-- `hash` is session_id_hash, the SHA-256 of the cookie.
module _ (hash : String → String) where
  -- The random `sid` and `csrf` are arguments; `none` is the IntegrityError of a hash that is taken.
  unfoldable pub create_session : String → String → ℕ → ℕ → ℕ → SecurityDb → Option SecurityDb
  create_session sid csrf user_id ttl now db =
      let live = drop_where (expired now) db.sessions in
      if is_some (look (hash sid) live)
      then none
      else some (record db { sessions = put (hash sid) (new_session user_id csrf ttl now) live })

  resolve_row : ℕ → Option Session → Option Resolved
  resolve_row now none = none
  resolve_row now (some s) =
      if ltb now s.expires_at
      then some (record { user_id = s.user_id; csrf = s.csrf; expires_at = s.expires_at })
      else none

  -- `none` as the cookie is a missing or empty one.
  unfoldable pub resolve_session : Option String → ℕ → SecurityDb → Option Resolved
  unfolding resolve_row
  resolve_session none now db = none
  resolve_session (some sid) now db = resolve_row now (look (hash sid) db.sessions)

  active_row : ℕ → Option Session → Bool
  active_row now none = false
  active_row now (some s) = ltb now s.expires_at

  unfoldable pub session_is_active : Option String → ℕ → SecurityDb → Bool
  unfolding active_row
  session_is_active none now db = false
  session_is_active (some sid) now db = active_row now (look (hash sid) db.sessions)

  unfoldable pub revoke_session : Option String → SecurityDb → SecurityDb
  revoke_session none db = db
  revoke_session (some sid) db = record db { sessions = drop (hash sid) db.sessions }

abbrev pub outdated : ℕ → OauthState → Bool
outdated now s = leb (s.created_at + oauth_state_ttl_seconds) now

-- `none` is the IntegrityError of a state that is stored already.
unfoldable pub put_oauth_state :
    String → String → Option String → Option String → ℕ → SecurityDb → Option SecurityDb
put_oauth_state state provider next_url client_hash now db =
    let live = drop_where (outdated now) db.oauth_state in
    if is_some (look state live)
    then none
    else some (record db {
      oauth_state =
          put state
            (record {
              provider = provider;
              next_url = next_url;
              created_at = now;
              client_hash = client_hash;
            })
            live;
    })

pub record TakenState : Type 0 where
  pub provider : String
  pub next_url : Option String
  pub client_hash : Option String

taken_row : ℕ → Option OauthState → Option TakenState
taken_row now none = none
taken_row now (some s) =
    if outdated now s
    then none
    else some (record { provider = s.provider; next_url = s.next_url; client_hash = s.client_hash })

unfoldable pub take_oauth_state : String → ℕ → SecurityDb → SecurityDb × Option TakenState
unfolding taken_row
take_oauth_state state now db = (
  record db { oauth_state = drop state db.oauth_state },
  taken_row now (look state db.oauth_state),
)
