-- ===== src/Handoff/Requests.antt =====
-- The shape of what a request carries, and the signed requests of the worker (aistat/handoff.py).
-- A text that is missing or no text is `none`; so is the result of a ValueError.
use aistat.Prelude.{
  ◌*◌, ◌+◌, arith, ℕ, ◌≤◌, ◌<◌, ◌≡◌, refl, String, Bool, true, false, not, ◌&&◌, ◌||◌, Option, none,
  some, List, All, leb, ltb, ◌==◌, str_eq, strip, size, all_codes, if◌then◌else◌, Bool-cases, inl,
  inr,
}
use aistat.Handoff.State.{worker_nonce_ttl_factor, Host}
use aistat.Handoff.Pull.{consume_worker_nonce}
use aistat.Handoff.Nonces.{is_fresh, consume_all, consume_worker_nonce_again}

abbrev pub min_token_length : ℕ
min_token_length = 8

abbrev pub max_token_length : ℕ
max_token_length = 512

abbrev pub max_label_length : ℕ
max_label_length = 128

unfoldable pub validate_connection_token : Option String → Option String
validate_connection_token none = none
validate_connection_token (some value) =
    if leb min_token_length (size (strip value)) && leb (size (strip value)) max_token_length
    then if all_codes (λ c. leb 33 c && leb c 126) (strip value) then some (strip value) else none
    else none

-- A label: not accepted, left out, or a text.
pub data Label : Type 0 where
  invalid omitted : Label
  labelled : String → Label

-- The argument: null, no text, or a text.
pub data LabelValue : Type 0 where
  null other : LabelValue
  text : String → LabelValue

unfoldable pub validate_workspace_label : LabelValue → Label
validate_workspace_label null = omitted
validate_workspace_label other = invalid
validate_workspace_label (text value) =
    if size (strip value) == 0
    then omitted
    else if ltb max_label_length (size (strip value))
    then invalid
    else if all_codes (λ c. leb 32 c && not (c == 127)) (strip value)
    then labelled (strip value)
    else invalid

-- _NONCE_ALPHABET
abbrev pub is_nonce_code : ℕ → Bool
is_nonce_code c =
    (leb 65 c && leb c 90)
    || (leb 97 c && leb c 122)
    || (leb 48 c && leb c 57)
    || c == 45
    || c == 95

unfoldable pub validate_worker_nonce : Option String → Option String
validate_worker_nonce none = none
validate_worker_nonce (some value) =
    if leb 16 (size value) && leb (size value) 128 && all_codes is_nonce_code value
    then some value
    else none

-- The headers of a signed request, with its body.
pub record Signed : Type 0 where
  pub timestamp : String
  pub nonce : Option String
  pub signature : String
  pub body : String

-- `mac` is the prefixed HMAC of the canonical text of a secret, a path, a timestamp, a nonce and the
-- digest of a body; `parse_int` reads a number, `none` for a text that is none and for one before
-- 1970, which is refused as stale once `now` exceeds the age limit.
module _ (mac : String → String → ℕ → String → String → String) (sha256 : String → String)
    (parse_int : String → Option ℕ) where
  unfoldable pub worker_signature : String → String → ℕ → String → String → String
  worker_signature secret path timestamp nonce body = mac secret path timestamp nonce (sha256 body)

  abbrev pub checked : String → String → ℕ → Option String → Signed → Option (ℕ × String)
  checked secret path timestamp none request = none
  checked secret path timestamp (some nonce) request =
      if not (str_eq request.signature "")
        && str_eq (worker_signature secret path timestamp nonce request.body) request.signature
      then some (timestamp, nonce)
      else none

  abbrev pub verify_at : String → String → ℕ → ℕ → Option ℕ → Signed → Option (ℕ × String)
  verify_at secret path max_age now none request = none
  verify_at secret path max_age now (some timestamp) request =
      if is_fresh timestamp max_age now
      then checked secret path timestamp (validate_worker_nonce request.nonce) request
      else none

  unfoldable pub verify_worker_request : String → String → ℕ → ℕ → Signed → Option (ℕ × String)
  verify_worker_request secret path max_age now request =
      verify_at secret path max_age now (parse_int request.timestamp) request

  -- A request is admitted where it is verified and its nonce is new.
  abbrev pub consumed : ℕ → ℕ → Option (ℕ × String) → Host → Host × Bool
  consumed max_age now none h = (h, false)
  consumed max_age now (some (timestamp, nonce)) h = consume_worker_nonce nonce max_age now h

  -- The check reads the clock at `checked_at`, the nonce table at `now`.
  unfoldable pub admit_request : String → String → ℕ → ℕ → ℕ → Signed → Host → Host × Bool
  admit_request secret path max_age checked_at now request h =
      consumed max_age now (verify_worker_request secret path max_age checked_at request) h

  within :
      (timestamp max_age checked_at now checked_again t : ℕ)
      → is_fresh timestamp max_age checked_at ≡ true
      → is_fresh timestamp max_age checked_again ≡ true
      → checked_at ≤ now
      → t < checked_again + max_age
      → t < now + max_age * worker_nonce_ttl_factor
  unfolding is_fresh
  within timestamp max_age checked_at now checked_again t f g a b = ground arith

  again_taken :
      (max_age now t : ℕ) (us : List (ℕ × String)) (h : Host)
      → t < now + max_age * worker_nonce_ttl_factor
      → All (λ u. u.0 ≤ t) us
      → (c : Option (ℕ × String)) → (consumed max_age now c h).1 ≡ true
      → (consumed max_age t c (consume_all max_age us (consumed max_age now c h).0)).1 ≡ false
  again_taken max_age now t us h soon b none e = cc
  again_taken max_age now t us h soon b (some (s, nonce)) e =
      consume_worker_nonce_again nonce max_age now t us h soon b e

  again_at :
      (secret path : String) (max_age checked_at now checked_again t : ℕ) (request : Signed)
      (us : List (ℕ × String)) (h : Host)
      → checked_at ≤ now
      → t < checked_again + max_age
      → All (λ u. u.0 ≤ t) us
      → (o : Option ℕ)
      → (consumed max_age now (verify_at secret path max_age checked_at o request) h).1 ≡ true
      → (consumed max_age t (verify_at secret path max_age checked_again o request) (
          consume_all max_age us
            (consumed max_age now (verify_at secret path max_age checked_at o request) h).0)).1
        ≡ false
  again_at secret path max_age checked_at now checked_again t request us h a q b none = λ e. cc
  again_at secret path max_age checked_at now checked_again t request us h a q b (some s) =
      elim (Bool-cases (is_fresh s max_age checked_at)) [
        | inl f ↦ elim (Bool-cases (is_fresh s max_age checked_again)) [
          | inl g ↦
              rw (f, g)
                (again_taken max_age now t us h
                  (within s max_age checked_at now checked_again t f g a q) b
                  (checked secret path s (validate_worker_nonce request.nonce) request))
          | inr g ↦ rw (f, g) (λ e. refl)
        ]
        | inr f ↦ rw f (λ e. cc)
      ]

  -- Where a nonce is stored no sooner than its request was checked, and within the age limit after
  -- it: a signed request that was admitted is refused whenever it comes again, whatever other
  -- requests came in between at times not after it.
  pub admit_request_again :
      (secret path : String) (max_age checked_at now checked_again t : ℕ) (request : Signed)
      (us : List (ℕ × String)) (h : Host)
      → checked_at ≤ now
      → t < checked_again + max_age
      → All (λ u. u.0 ≤ t) us
      → (admit_request secret path max_age checked_at now request h).1 ≡ true
      → (admit_request secret path max_age checked_again t request
          (consume_all max_age us (admit_request secret path max_age checked_at now request h).0)).1
        ≡ false
  unfolding admit_request verify_worker_request
  admit_request_again secret path max_age checked_at now checked_again t request us h a q b =
      again_at secret path max_age checked_at now checked_again t request us h a q b
        (parse_int request.timestamp)
