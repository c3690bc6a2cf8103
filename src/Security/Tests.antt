-- ===== src/Security/Tests.antt =====
-- The tables of the public host on concrete calls.
use aistat.Prelude.{◌≡◌, refl, String, none, some, is_some, ◌≤◌, [], ◌∷◌, arith}
use aistat.Security.Rows.{look, drop_where, put, drop}
use aistat.Security.{
  SecurityDb, create_session, resolve_session, revoke_session, session_is_active, put_oauth_state,
  take_oauth_state, record_login_failure, login_retry_after,
}
use aistat.Security.Sessions.{
  session_is_active-is_some, create_session-resolve_session, revoke_session-resolve_session,
}
use aistat.Security.Oauth.{take_oauth_state_again, put_oauth_state-take_oauth_state}
use aistat.Security.Throttle.{
  record_login_failure-login_retry_after, fail_at, fail_at-login_retry_after, latest,
}

abbrev empty : SecurityDb
empty = record { login_throttle = []; sessions = []; oauth_state = [] }

-- A stand-in for the digest.
abbrev digest : String → String
digest sid = sid

abbrev signed_in : SecurityDb
signed_in = record empty {
  sessions =
      ("cookie", record { user_id = 7; created_at = 100; expires_at = 160; csrf = "csrf" }) ∷ [];
}

abbrev authorizing : SecurityDb
authorizing = record empty {
  oauth_state =
      (
        "state",
        record { provider = "github"; next_url = some "/"; created_at = 100; client_hash = none },
      )
      ∷ [];
}

created : create_session digest "cookie" "csrf" 7 60 100 empty ≡ some signed_in
unfolding create_session look drop_where put drop
created = refl

create_session-resolve_session_example :
    resolve_session digest (some "cookie") 150 signed_in
    ≡ some (record { user_id = 7; csrf = "csrf"; expires_at = 160 })
create_session-resolve_session_example =
    create_session-resolve_session digest "cookie" "csrf" 7 60 100 empty signed_in created 150

revoke_session-resolve_session_example :
    resolve_session digest (some "other") 150 (revoke_session digest (some "cookie") signed_in)
    ≡ resolve_session digest (some "other") 150 signed_in
revoke_session-resolve_session_example =
    revoke_session-resolve_session digest "cookie" "other" 150 signed_in

session_is_active-is_some_example :
    session_is_active digest (some "cookie") 150 signed_in
    ≡ is_some (resolve_session digest (some "cookie") 150 signed_in)
session_is_active-is_some_example = session_is_active-is_some digest (some "cookie") 150 signed_in

stored : put_oauth_state "state" "github" (some "/") none 100 empty ≡ some authorizing
unfolding put_oauth_state look drop_where put drop
stored = refl

put_oauth_state-take_oauth_state_example :
    (take_oauth_state "state" 650 authorizing).1
    ≡ some (record { provider = "github"; next_url = some "/"; client_hash = none })
put_oauth_state-take_oauth_state_example =
    put_oauth_state-take_oauth_state "state" "github" (some "/") none 100 empty authorizing stored
      650

take_oauth_state_again_example :
    (take_oauth_state "state" 130 (take_oauth_state "state" 120 authorizing).0).1 ≡ none
take_oauth_state_again_example = take_oauth_state_again "state" 120 130 authorizing

record_login_failure-login_retry_after_example :
    (login_retry_after "client" 100 (record_login_failure "client" 100 empty).0).1
    ≡ (record_login_failure "client" 100 empty).1
record_login_failure-login_retry_after_example =
    record_login_failure-login_retry_after "client" 100 empty

unknown : look "client" empty.login_throttle ≡ none
unfolding look
unknown = refl

latest_time : latest 100 (110 ∷ 120 ∷ 130 ∷ 140 ∷ []) ≤ 200
unfolding latest
latest_time = omega arith

fail_at-login_retry_after_example :
    (login_retry_after "client" 200 (fail_at "client" (100 ∷ 110 ∷ 120 ∷ 130 ∷ 140 ∷ []) empty)).1
    ≡ 840
unfolding latest
fail_at-login_retry_after_example =
    fail_at-login_retry_after "client" 100 (110 ∷ 120 ∷ 130 ∷ 140 ∷ []) 200 empty unknown
      (
        omega arith,
        omega arith,
        (omega arith, omega arith, (omega arith, omega arith, (omega arith, omega arith, tt))),
      )
      latest_time
