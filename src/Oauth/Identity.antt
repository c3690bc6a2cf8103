-- ===== src/Oauth/Identity.antt =====
-- What the flow reads from a provider (aistat/oauth.py, exchange_code and fetch_identity).
use Prim.Native.Char.{code}
use aistat.Prelude.{
  ℕ, String, Bool, true, false, not, ◌&&◌, ◌||◌, Option, none, some, List, [], ◌∷◌, ◌==◌, str_eq,
  if◌then◌else◌, member,
}

-- A value of a JSON object; `other` is an array, an object or another number, with its truth.
pub data Json : Type 0 where
  null : Json
  boolean : Bool → Json
  number : ℕ → Json
  text : String → Json
  other : Bool → Json

abbrev pub Payload : Type 0
Payload = List (String × Json)

-- `payload.get(key)`
unfoldable pub get : String → Payload → Json
get key [] = null
get key ((k, v) ∷ rest) = if str_eq k key then v else get key rest

abbrev pub is_empty : String → Bool
is_empty s = str_eq s ""

-- `bool(value)`
abbrev pub truth : Json → Bool
truth null = false
truth (boolean b) = b
truth (number n) = not (n == 0)
truth (text s) = not (is_empty s)
truth (other b) = b

-- `value is None or value == ""`
abbrev pub is_blank : Json → Bool
is_blank null = true
is_blank (text s) = is_empty s
is_blank _ = false

abbrev pub is_null : Json → Bool
is_null null = true
is_null _ = false

-- `a or b`
abbrev pub or_else : Json → Json → Json
or_else a b = if truth a then a else b

abbrev pub text_value : Json → Option String
text_value (text s) = some s
text_value _ = none

pub record Provider : Type 0 where
  pub name : String
  pub authorize_url : String
  pub token_url : String
  pub userinfo_url : String
  pub redirect_uri : String
  pub assume_email_verified : Bool

-- The messages of OAuthError, RegistrationClosedError, and the IntegrityError of a state that is
-- stored already.
pub data OauthError : Type 0 where
  endpoint_not_https provider_error missing_state_or_code invalid_state unbound_browser : OauthError
  missing_client_token missing_code missing_token exchange_failed : OauthError
  identity_failed missing_subject no_usable_email email_not_verified : OauthError
  registration_failed registration_closed state_taken : OauthError

pub data Result {ℓ} (A : Type ℓ) : Type ℓ where
  ok : A → Result A
  error : OauthError → Result A

-- What the flow takes from outside: SHA-256 of a token, Python's and SQLite's case conversions,
-- `str(value)`, and the two HTTPS requests, whose answer is `none` where they fail or yield no
-- object. `display` is what SQLite stores of a display name.
pub record Outside : Type 0 where
  pub hash : String → String
  pub lower : String → String
  pub strip_lower : String → String
  pub sql_lower : String → String
  pub text_of : Json → String
  pub display : Json → Option String
  pub authorize_query : Provider → String → String
  pub post_token : Provider → String → Option Payload
  pub get_userinfo : Provider → String → Option Payload

pub record Claims : Type 0 where
  pub subject : String
  pub email : Json
  pub email_verified : Bool
  pub display_name : Json

-- `text.startswith(prefix)`
unfoldable pub starts_with : String → String → Bool
starts_with String.[] s = true
starts_with (String.◌∷◌ c p) String.[] = false
starts_with (String.◌∷◌ c p) (String.◌∷◌ d s) = code c == code d && starts_with p s

module _ (out : Outside) where
  unfoldable pub is_https : String → Bool
  is_https url = starts_with "https://" (out.lower url)

  -- `_coerce_verified` of one value
  unfoldable pub is_verified : Json → Bool
  is_verified (boolean b) = b
  is_verified (text s) = member (out.strip_lower s) ("true" ∷ "1" ∷ "yes" ∷ [])
  is_verified _ = false

  abbrev pub token_value : Json → Result String
  token_value (text s) = if is_empty s then error missing_token else ok s
  token_value _ = error missing_token

  abbrev pub token_of : Option Payload → Result String
  token_of none = error exchange_failed
  token_of (some payload) = token_value (get "access_token" payload)

  unfoldable pub exchange_code : Provider → String → Result String
  exchange_code p code =
      if is_https p.token_url
      then if is_empty code then error missing_code else token_of (out.post_token p code)
      else error endpoint_not_https

  abbrev pub subject_value : Payload → Json
  subject_value payload =
      if is_blank (get "sub" payload) then get "id" payload else get "sub" payload

  abbrev pub email_value : Payload → Json
  email_value payload = or_else (get "email" payload) (get "default_email" payload)

  abbrev pub verified_value : Provider → Payload → Bool
  verified_value p payload =
      is_verified (get "email_verified" payload)
      || is_verified (get "verified_email" payload)
      || (p.assume_email_verified
          && truth (email_value payload)
          && is_null (get "email_verified" payload)
          && is_null (get "verified_email" payload))

  unfoldable pub claims_of : Provider → Option Payload → Result Claims
  claims_of p none = error identity_failed
  claims_of p (some payload) =
      if is_blank (subject_value payload)
      then error missing_subject
      else ok (record {
        subject = out.text_of (subject_value payload);
        email = email_value payload;
        email_verified = verified_value p payload;
        display_name =
            or_else (or_else (get "name" payload) (get "display_name" payload))
              (get "real_name" payload);
      })

  unfoldable pub fetch_identity : Provider → String → Result Claims
  fetch_identity p access_token =
      if is_https p.userinfo_url
      then if is_empty access_token
        then error missing_token
        else claims_of p (out.get_userinfo p access_token)
      else error endpoint_not_https
