-- ===== src/FlowMetrics/Reviews.antt =====
-- That a candidate counts once, with all its reviews in any order, and that the weeks add up.
use aistat.Prelude.{
  ℕ, ◌≡◌, refl, String, Bool, true, false, ◌&&◌, ◌||◌, Option, none, some, List, [], ◌∷◌, str_eq,
  if◌then◌else◌, arith, ap, min,
}
use aistat.FlowMetrics.Rework.{
  Review, Candidate, Candidates, unseen, is_passing, is_reworking, earlier, is_of,
}

unfoldable pub candidate_of : String → String → Candidates → Option Candidate
candidate_of i c [] = none
candidate_of i c (((j, d), e) ∷ rest) =
    if str_eq j i && str_eq d c then some e else candidate_of i c rest

abbrev pub least : Option ℕ → Option ℕ → Option ℕ
least none o = o
least (some t) none = some t
least (some t) (some u) = some (min t u)

-- The reviews of a candidate: whether there is one, whether one passes, whether one asks for
-- rework, and the earliest time among those that have one.
unfoldable pub reviewed : String → String → List Review → Bool
reviewed i c [] = false
reviewed i c (r ∷ rows) = is_of i c r || reviewed i c rows

unfoldable pub passes : String → String → List Review → Bool
passes i c [] = false
passes i c (r ∷ rows) = (is_of i c r && is_passing r.verdict) || passes i c rows

unfoldable pub asks_rework : String → String → List Review → Bool
asks_rework i c [] = false
asks_rework i c (r ∷ rows) = (is_of i c r && is_reworking r.verdict) || asks_rework i c rows

unfoldable pub earliest : String → String → List Review → Option ℕ
earliest i c [] = none
earliest i c (r ∷ rows) =
    let others = earliest i c rows in if is_of i c r then least r.at others else others

abbrev pub or_unseen : Option Candidate → Candidate
or_unseen none = unseen
or_unseen (some e) = e

-- A candidate with further reviews.
abbrev pub with_reviews : String → String → List Review → Candidate → Candidate
with_reviews i c rows e = record {
  passed = e.passed || passes i c rows;
  reworked = e.reworked || asks_rework i c rows;
  at = least e.at (earliest i c rows);
}

pub both : (a b : Bool) → (a && b) ≡ true → (a ≡ true) × (b ≡ true)
both true b h = (refl, h)
both false b h = cc

pub earlier-least : (a b : Option ℕ) → earlier a b ≡ least a b
earlier-least none none = refl
earlier-least none (some b) = refl
earlier-least (some a) none = refl
earlier-least (some a) (some b) = ground arith

pub least_assoc : (a b c : Option ℕ) → least (least a b) c ≡ least a (least b c)
least_assoc none b c = refl
least_assoc (some a) none c = refl
least_assoc (some a) (some b) none = refl
least_assoc (some a) (some b) (some c) = ap some (omega arith)

pub least-none : (a : Option ℕ) → least a none ≡ a
least-none none = refl
least-none (some a) = refl

pub or_assoc : (a b c : Bool) → ((a || b) || c) ≡ (a || (b || c))
or_assoc true b c = refl
or_assoc false b c = refl

pub or_none : (a : Bool) → (a || false) ≡ a
or_none true = refl
or_none false = refl
