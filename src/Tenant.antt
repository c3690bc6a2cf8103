-- ===== src/Tenant.antt =====
-- Tenant identifiers (aistat/tenant.py).
use Prim.Native.Char.{code}
use aistat.Prelude.{
  ℕ, ◌+◌, ◌-◌, ◌*◌, ◌≤◌, ◌<◌, String, ◌≡◌, refl, Bool, true, false, ◌&&◌, ◌||◌, Option, none, some,
  arith, ltb, leb, ◌==◌, if◌then◌else◌,
}

-- The values that an internal id or a decoded JSON field can hold.
pub data Value : Type 0 where
  null other : Value
  bool : Bool → Value
  int : ℕ → Value
  -- `negative n` is -(n + 1)
  negative : ℕ → Value
  text : String → Value

abbrev pub max_sqlite_integer : ℕ
max_sqlite_integer = 9223372036854775807

-- The final range check.
unfoldable pub in_range : ℕ → Option ℕ
in_range n = if n == 0 || ltb max_sqlite_integer n then none else some n

abbrev is_digit : ℕ → Bool
is_digit c = leb b'0' c && leb c b'9'

-- `int(value)` of a text of ASCII digits; `none` where another character stands.
decimal : ℕ → String → Option ℕ
decimal acc String.[] = some acc
decimal acc (String.◌∷◌ c s) =
    let rest = decimal (acc * 10 + (code c - b'0')) s in if is_digit (code c) then rest else none

-- A text of digits is `str(int(value))` unless it begins with a zero that is not its only digit.
leading_zero : String → Bool
leading_zero String.[] = false
leading_zero (String.◌∷◌ c String.[]) = false
leading_zero (String.◌∷◌ c (String.◌∷◌ d s)) = code c == b'0'

is_empty : String → Bool
is_empty String.[] = true
is_empty (String.◌∷◌ c s) = false

in_range_text : String → Option ℕ → Option ℕ
unfolding in_range leading_zero
in_range_text s none = none
in_range_text s (some n) = if leading_zero s then none else in_range n

-- `none` is `ValueError("invalid tenant id")`.
unfoldable pub canonical_tenant_id : Value → Option ℕ
unfolding in_range decimal is_empty in_range_text
canonical_tenant_id (int n) = in_range n
canonical_tenant_id (text s) = if is_empty s then none else in_range_text s (decimal 0 s)
canonical_tenant_id v = none

-- Whatever value arrives, an accepted identifier is a positive SQLite integer.
pub canonical_tenant_id_bounds :
    (v : Value) (n : ℕ) → canonical_tenant_id v ≡ some n → (0 < n) × (n ≤ max_sqlite_integer)
unfolding canonical_tenant_id
canonical_tenant_id_bounds (text s) n h = ground arith
canonical_tenant_id_bounds v n h = ground arith

-- An accepted integer is its own identifier.
pub canonical_tenant_id-int : (n k : ℕ) → canonical_tenant_id (int n) ≡ some k → k ≡ n
unfolding canonical_tenant_id
canonical_tenant_id-int n k h = ground arith

texts :
    (canonical_tenant_id (text "42") ≡ some 42)
    × (canonical_tenant_id (text "042") ≡ none)
    × (canonical_tenant_id (text "4/2") ≡ none)
    × (canonical_tenant_id (text "0") ≡ none)
unfolding canonical_tenant_id
texts = (refl, refl, refl, refl)
