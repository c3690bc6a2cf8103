-- ===== src/Handoff/Validation.antt =====
-- The validators of aistat/handoff.py: server URLs, worker status messages, tokens, labels, nonces
-- and signed worker requests.
use aistat.Prelude.{
  String, ◌≡◌, refl, Bool, true, Option, none, some, List, [], ◌∷◌, arith, if◌then◌else◌, str_eq,
  strip, member,
}
use aistat.Handoff.State.{
  official_multica_url, unsupported_multica_server, pending_expired_reason, Result, ok, raised,
  unsupported_server, ◌>>=◌,
}

unfoldable pub canonical_official_server_url : String → Result String
canonical_official_server_url official_url =
    if str_eq official_url official_multica_url
    then ok official_multica_url
    else raised unsupported_server

-- `none` is Python's None.
unfoldable pub normalize_official_server_url : Option String → String → Result String
unfolding canonical_official_server_url
normalize_official_server_url none official_url = canonical_official_server_url official_url
normalize_official_server_url (some value) official_url = do
  official ← canonical_official_server_url official_url
  if str_eq value ""
      then ok official
      else if str_eq value official
      then ok official
      else raised unsupported_server

abbrev pub default_sync_error : String
default_sync_error = "worker collection failed"

-- SAFE_SYNC_ERRORS
abbrev pub safe_sync_errors : List String
safe_sync_errors =
    default_sync_error ∷ "authentication with the connection's token failed"
    ∷ "official CLI login failed for the connection" ∷ "could not list the connection's workspaces"
    ∷ "the connection's token has no accessible workspace"
    ∷ "the connection's token has multiple workspaces but none was selected"
    ∷ "the connection's workspace label is ambiguous"
    ∷ "the connection's workspace could not be resolved"
    ∷ "workspace was not selected before polling" ∷ "could not read the connection's workspace data"
    ∷ "could not log out of the connection's profile"
    ∷ "connection profile storage could not be verified"
    ∷ "connection profile storage is unsafe: a symlink is not permitted"
    ∷ "connection profile storage is unsafe: not a directory"
    ∷ "the connection profile residue could not be removed"
    ∷ "the connection profile could not be cleaned up"
    ∷ "the stored credential version could not be read"
    ∷ "the credential version could not be verified"
    ∷ "the credential version could not be verified before publish"
    ∷ "the connection profile could not be created"
    ∷ "the connection profile lock could not be acquired" ∷ "connection collection failed"
    ∷ "polling the connection's data failed" ∷ "publishing the connection's snapshot failed"
    ∷ "connection was revoked" ∷ "connection credential changed during collection"
    ∷ "another poll of this tenant is already in progress" ∷ "poll source failed"
    ∷ "issue details synchronization failed" ∷ "pricing data could not be loaded"
    ∷ "multica CLI timeout" ∷ "multica CLI exited with 1" ∷ "CLI failed: exit 1"
    ∷ unsupported_multica_server ∷ pending_expired_reason ∷ []

-- `error in SAFE_SYNC_ERRORS`, kept shut so that proofs do not walk the list.
unfoldable pub is_safe : String → Bool
unfolding member
is_safe s = member s safe_sync_errors

-- `error` is `none` where the argument is no text.
unfoldable pub safe_sync_error : Option String → String → String
safe_sync_error none default = if is_safe default then default else default_sync_error
safe_sync_error (some error) default =
    let candidate = strip error in
    if is_safe candidate then candidate else if is_safe default then default else default_sync_error

pub default-is_safe : is_safe default_sync_error ≡ true
unfolding is_safe
default-is_safe = refl

pub expired-is_safe : is_safe pending_expired_reason ≡ true
unfolding is_safe
expired-is_safe = refl

pub unsupported-is_safe : is_safe unsupported_multica_server ≡ true
unfolding is_safe
unsupported-is_safe = refl

-- Whatever an exception, CLI output or caller passes as the error and as the fallback, the message
-- that is stored belongs to the allowlist.
pub safe_sync_error-is_safe :
    (error : Option String) (default : String) → is_safe (safe_sync_error error default) ≡ true
unfolding safe_sync_error
safe_sync_error-is_safe none default = ground (arith, default-is_safe)
safe_sync_error-is_safe (some error) default = ground (arith, default-is_safe)

-- Only the official host passes: an accepted value is pinned to it, and every other host is refused.
pub normalize_official_server_url-official :
    (value : Option String) (official : String) (url : String)
    → normalize_official_server_url value official ≡ ok url
    → url ≡ official_multica_url
unfolding normalize_official_server_url
normalize_official_server_url-official none official url h = ground arith
normalize_official_server_url-official (some value) official url h = ground arith

pub official-accepted :
    normalize_official_server_url (some official_multica_url) official_multica_url
    ≡ ok official_multica_url
unfolding normalize_official_server_url
official-accepted = refl
