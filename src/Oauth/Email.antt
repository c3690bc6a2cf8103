-- ===== src/Oauth/Email.antt =====
-- The one boundary for the email of a provider (aistat/oauth.py, normalize_email).
use Prim.Native.Char.{Char, code}
use aistat.Prelude.{
  size, all_codes, ℕ, ◌+◌, String, Bool, true, false, not, ◌&&◌, ◌||◌, Option, none, some, List, [],
  ◌∷◌, leb, ltb, ◌==◌, if◌then◌else◌,
}

abbrev pub max_email_length : ℕ
max_email_length = 254

abbrev pub max_local_length : ℕ
max_local_length = 64

-- `text.strip(" ")`
unfoldable pub trim_start : String → String
trim_start String.[] = String.[]
trim_start (String.◌∷◌ c s) =
    let rest = trim_start s in if code c == 32 then rest else String.◌∷◌ c s

abbrev pub trim_onto : Char → String → String
trim_onto c String.[] = if code c == 32 then String.[] else String.◌∷◌ c String.[]
trim_onto c (String.◌∷◌ d s) = String.◌∷◌ c (String.◌∷◌ d s)

unfoldable pub trim_end : String → String
trim_end String.[] = String.[]
trim_end (String.◌∷◌ c s) = trim_onto c (trim_end s)

unfoldable pub trim : String → String
trim s = trim_end (trim_start s)

abbrev pub is_alphanumeric : ℕ → Bool
is_alphanumeric c = (leb 48 c && leb c 57) || (leb 65 c && leb c 90) || (leb 97 c && leb c 122)

-- _LOCAL_ATEXT: letters, digits and !#$%&'*+/=?^_`{|}~-
abbrev pub is_atext : ℕ → Bool
is_atext c =
    is_alphanumeric c
    || c == 33
    || (leb 35 c && leb c 39)
    || c == 42
    || c == 43
    || c == 45
    || c == 47
    || c == 61
    || c == 63
    || (leb 94 c && leb c 96)
    || (leb 123 c && leb c 126)

-- ASCII, and neither a C0 control nor DEL.
abbrev pub is_printable : ℕ → Bool
is_printable c = leb 32 c && ltb c 127

-- `text.count("@")`
unfoldable pub count_code : ℕ → String → ℕ
count_code k String.[] = 0
count_code k (String.◌∷◌ c s) = let rest = count_code k s in if code c == k then rest + 1 else rest

-- The two sides of the first "@".
unfoldable pub before_code : ℕ → String → String
before_code k String.[] = String.[]
before_code k (String.◌∷◌ c s) =
    let rest = before_code k s in if code c == k then String.[] else String.◌∷◌ c rest

unfoldable pub after_code : ℕ → String → String
after_code k String.[] = String.[]
after_code k (String.◌∷◌ c s) = let rest = after_code k s in if code c == k then s else rest

-- _LOCAL_RE.fullmatch: atoms joined by single dots; `within` says that an atom has begun.
unfoldable pub is_dot_atom : Bool → String → Bool
is_dot_atom within String.[] = within
is_dot_atom within (String.◌∷◌ c s) =
    let in_atom = is_dot_atom true s in
    let at_dot = is_dot_atom false s in
    if is_atext (code c) then in_atom else if code c == 46 && within then at_dot else false

-- `text.split(".")`
abbrev pub extended : Char → List String → List String
extended c [] = String.◌∷◌ c String.[] ∷ []
extended c (label ∷ labels) = String.◌∷◌ c label ∷ labels

unfoldable pub split_dots : String → List String
split_dots String.[] = String.[] ∷ []
split_dots (String.◌∷◌ c s) =
    let rest = split_dots s in if code c == 46 then String.[] ∷ rest else extended c rest

-- The text ends in a letter or digit; `last` is the answer for the character before.
unfoldable pub ends_alphanumeric : Bool → String → Bool
ends_alphanumeric last String.[] = last
ends_alphanumeric last (String.◌∷◌ c s) = ends_alphanumeric (is_alphanumeric (code c)) s

abbrev pub starts_alphanumeric : String → Bool
starts_alphanumeric String.[] = false
starts_alphanumeric (String.◌∷◌ c s) = is_alphanumeric (code c)

-- _DOMAIN_LABEL_RE.fullmatch
unfoldable pub is_label : String → Bool
is_label s =
    leb (size s) 63
    && starts_alphanumeric s
    && ends_alphanumeric false s
    && all_codes (λ c. is_alphanumeric c || c == 45) s

unfoldable pub all_labels : List String → Bool
all_labels [] = true
all_labels (s ∷ rest) = is_label s && all_labels rest

abbrev pub two_or_more : List String → Bool
two_or_more (a ∷ b ∷ rest) = true
two_or_more _ = false

unfoldable pub is_local : String → Bool
is_local s = leb (size s) max_local_length && is_dot_atom false s

unfoldable pub is_domain : String → Bool
is_domain s = two_or_more (split_dots s) && all_labels (split_dots s)

unfoldable pub is_usable : String → Bool
is_usable t =
    not (size t == 0)
    && leb (size t) max_email_length
    && all_codes is_printable t
    && count_code 64 t == 1
    && is_local (before_code 64 t)
    && is_domain (after_code 64 t)

-- `none` as the argument is a value that is not a text.
unfoldable pub normalize_email : Option String → Option String
normalize_email none = none
normalize_email (some email) = if is_usable (trim email) then some (trim email) else none
