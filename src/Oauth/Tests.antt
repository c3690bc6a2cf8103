-- ===== src/Oauth/Tests.antt =====
-- One login on concrete requests.
use aistat.Prelude.{
  size, all_codes, ◌≡◌, ◌≤◌, refl, String, true, false, Option, none, some, [], ◌∷◌, List, inl,
}
use aistat.Table.{find, upsert}
use aistat.Security.{put_oauth_state, take_oauth_state}
use aistat.Security.Rows.{look, drop, drop_where, put}
use aistat.Accounts.{
  identity_of, register_or_link_identity, register_ordinary, owner_for, is_barred, with_tenant,
  created_identity,
}
use aistat.Accounts.Invariant.{IsValid}
use aistat.Oauth.Email.{
  max_email_length, trim_start, trim_end, trim, count_code, before_code, after_code, is_dot_atom,
  split_dots, ends_alphanumeric, is_label, all_labels, is_local, is_domain, is_usable,
  normalize_email,
}
use aistat.Oauth.Canonical.{is_visible, normalize_email_again}
use aistat.Oauth.Identity.{
  Json, null, boolean, text, Provider, Outside, Claims, ok, error, OauthError, get, starts_with,
  is_https, is_verified, exchange_code, claims_of, fetch_identity,
}
use aistat.Oauth.{
  Params, Login, Store, Policy, canonical_email, begin, finish, callback, finish_taken, resolved,
  login_of, identity_for, build_authorize_url, open_registration_identity,
}
use aistat.Oauth.History.{Event, begins, finishes, run, step}
use aistat.Oauth.Bound.{IsFromBegin, finish-IsFromBegin}
use aistat.Oauth.Once.{finish-IsServed}
use aistat.Oauth.Registration.{IsProper, open_registration_identity-IsProper}

abbrev github : Provider
github = record {
  name = "github";
  authorize_url = "https://github.com/login";
  token_url = "https://github.com/token";
  userinfo_url = "https://github.com/user";
  redirect_uri = "https://aistat.org/auth";
  assume_email_verified = false;
}

abbrev plain : String → String
plain s = s

abbrev texts : Json → String
texts (text s) = s
texts v = ""

abbrev shown : Json → Option String
shown (text s) = some s
shown v = none

-- A provider that knows one user.
abbrev outside : Outside
outside = record {
  hash = plain;
  lower = plain;
  strip_lower = plain;
  sql_lower = plain;
  text_of = texts;
  display = shown;
  authorize_query = λ p state. state;
  post_token = λ p c. some (("access_token", text "bearer") ∷ []);
  get_userinfo = λ p t.
      some (
        ("sub", text "ada") ∷ ("email", text " ada@x.org") ∷ ("email_verified", boolean true) ∷ []);
}

abbrev empty : Store
empty = record {
  db = record { login_throttle = []; sessions = []; oauth_state = [] };
  accounts = record {
    users = [];
    last_user_id = 0;
    identities = [];
    sessions = [];
    tenants = [];
    journal = [];
    connections = [];
    throttle = [];
    billing = [];
    statistics = [];
  };
}

abbrev open_policy : Policy
open_policy = open_registration_identity outside "github" [] none none 20

abbrev redirected : Params
redirected = record { state = some "state"; code = some "code"; error = none }

abbrev began : List Event
began = begins github (some "/stats") (some "browser") "state" 10 ∷ []

abbrev login : Login
login = record { user_id = 1; email = text "ada@x.org"; display_name = null; next_url = "/stats" }

accepted :
    (finish outside open_policy github redirected (some "browser") 20 (run outside began empty)).1
    ≡ ok login
unfolding run step begin put_oauth_state look drop_where put drop build_authorize_url is_https
    starts_with finish take_oauth_state callback finish_taken resolved login_of identity_for
    exchange_code get fetch_identity claims_of is_verified canonical_email
    open_registration_identity normalize_email is_usable trim trim_start trim_end size all_codes
    count_code before_code after_code is_local is_dot_atom is_domain split_dots all_labels is_label
    ends_alphanumeric register_or_link_identity identity_of owner_for register_ordinary is_barred
    with_tenant created_identity find upsert
accepted = refl

finish-IsFromBegin_example : IsFromBegin outside began github redirected (some "browser") 20
finish-IsFromBegin_example =
    finish-IsFromBegin outside began empty open_policy github redirected (some "browser") 20 login
      refl accepted

abbrev served : List Event
served = finishes open_policy github redirected (some "browser") 20 ∷ began

finish-IsServed_example :
    (e : OauthError) × ((finish outside open_policy github redirected
        (some "browser")
        30
        (run outside served empty)).1
      ≡ error e)
    × ((finish outside open_policy github redirected
          (some "browser")
          30
          (run outside served empty)).0.accounts
        ≡ (run outside served empty).accounts)
finish-IsServed_example =
    finish-IsServed outside served empty open_policy github redirected (some "browser") 30 "state"
      (inl refl) refl

abbrev claims : Claims
claims = record {
  subject = "ada";
  email = text " ada@x.org";
  email_verified = true;
  display_name = null;
}

empty-IsValid : IsValid empty.accounts
unfolding find identity_of
empty-IsValid = record {
  users_issued = λ u _. refl;
  tenants_issued = λ u _. refl;
  connections_issued = λ u _. refl;
  owned = λ p s u h. cc;
  keyed = tt;
  unique = tt;
  one_admin = λ u v g h. cc;
}

open_registration_identity-IsProper_example :
    IsProper "github" claims empty.accounts
      (open_registration_identity outside "github" [] none none 20 claims empty.accounts)
open_registration_identity-IsProper_example =
    open_registration_identity-IsProper outside "github" [] none none 20 claims empty.accounts
      empty-IsValid

usable : normalize_email (some " ada@x.org") ≡ some "ada@x.org"
unfolding normalize_email is_usable trim trim_start trim_end size all_codes count_code before_code
    after_code is_local is_dot_atom is_domain split_dots all_labels is_label ends_alphanumeric
usable = refl

normalize_email_again_example :
    (size "ada@x.org" ≤ max_email_length)
    × (all_codes is_visible "ada@x.org" ≡ true)
    × (normalize_email (some "ada@x.org") ≡ some "ada@x.org")
normalize_email_again_example = normalize_email_again (some " ada@x.org") "ada@x.org" usable
