-- ===== src/FlowMetrics/Rework.antt =====
-- The rework aggregate (aistat/flow_metrics.py, _rework) over the rows of its query.
use aistat.Prelude.{
  ℕ, ◌+◌, ◌-◌, ◌/◌, ◌%◌, String, Bool, false, not, ◌&&◌, ◌||◌, Option, none, some, List, [], ◌∷◌,
  leb, ltb, ◌==◌, str_eq, member, if◌then◌else◌,
}

-- `at` is `none` where the timestamp does not parse; it counts seconds from 1970-01-01.
pub record Review : Type 0 where
  pub impl_id : String
  pub candidate : String
  pub verdict : String
  pub at : Option ℕ

pub record Candidate : Type 0 where
  pub passed : Bool
  pub reworked : Bool
  pub at : Option ℕ

-- The dictionary `candidates`, in the order of insertion.
abbrev pub Candidates : Type 0
Candidates = List ((String × String) × Candidate)

abbrev pub unseen : Candidate
unseen = record { passed = false; reworked = false; at = none }

abbrev pub is_passing : String → Bool
is_passing verdict = str_eq verdict "PASSED"

-- REWORK_VERDICTS, behind the test for a pass
abbrev pub is_reworking : String → Bool
is_reworking verdict = not (is_passing verdict) && member verdict ("FAILED" ∷ "INCONCLUSIVE" ∷ [])

abbrev pub earlier : Option ℕ → Option ℕ → Option ℕ
earlier o none = o
earlier none (some t) = some t
earlier (some e) (some t) = if ltb t e then some t else some e

abbrev pub marked : Review → Candidate → Candidate
marked r e = record {
  passed = e.passed || is_passing r.verdict;
  reworked = e.reworked || is_reworking r.verdict;
  at = earlier e.at r.at;
}

abbrev pub is_of : String → String → Review → Bool
is_of impl candidate r = str_eq r.impl_id impl && str_eq r.candidate candidate

-- `setdefault`, then the update of the entry.
unfoldable pub note : Review → Candidates → Candidates
note r [] = ((r.impl_id, r.candidate), marked r unseen) ∷ []
note r (((i, c), e) ∷ rest) =
    let others = note r rest in
    if is_of i c r then ((i, c), marked r e) ∷ rest else ((i, c), e) ∷ others

unfoldable pub collect : List Review → Candidates → Candidates
collect [] d = d
collect (r ∷ rows) d = collect rows (note r d)

-- The Monday of a time, as a day from 1970-01-01, which was a Thursday.
abbrev pub week_start : ℕ → ℕ
week_start t = t / 86400 - (t / 86400 + 3) % 7

pub record Week : Type 0 where
  pub reworked : ℕ
  pub candidates : ℕ

abbrev pub one_of : Bool → ℕ
one_of b = if b then 1 else 0

-- `weekly.setdefault(...)` with its increments.
unfoldable pub bump : ℕ → Bool → List (ℕ × Week) → List (ℕ × Week)
bump week b [] = (week, record { reworked = one_of b; candidates = 1 }) ∷ []
bump week b ((k, v) ∷ rest) =
    let others = bump week b rest in
    if k == week
    then (k, record { reworked = v.reworked + one_of b; candidates = v.candidates + 1 }) ∷ rest
    else (k, v) ∷ others

pub record Rework : Type 0 where
  pub reworked : ℕ
  pub candidates : ℕ
  pub unwindowed : ℕ
  pub weekly : List (ℕ × Week)

abbrev pub no_rework : Rework
no_rework = record { reworked = 0; candidates = 0; unwindowed = 0; weekly = [] }

abbrev pub is_rework : Candidate → Bool
is_rework e = e.reworked && not e.passed

module _ (win_from now : ℕ) where
  abbrev pub windowed : Candidate → ℕ → Rework → Rework
  windowed e t s =
      if leb win_from t && leb t now
      then record s {
        reworked = s.reworked + one_of (is_rework e);
        candidates = s.candidates + 1;
        weekly = bump (week_start t) (is_rework e) s.weekly;
      }
      else s

  abbrev pub tally : Candidate → Option ℕ → Rework → Rework
  tally e none s = record s { unwindowed = s.unwindowed + 1 }
  tally e (some t) s = windowed e t s

  unfoldable pub tally_all : Candidates → Rework → Rework
  tally_all [] s = s
  tally_all ((k, e) ∷ rest) s = tally_all rest (tally e e.at s)

  -- The weeks are sorted in the report of the code.
  unfoldable pub rework : List Review → Rework
  rework rows = tally_all (collect rows []) no_rework

-- The rate, as numerator and denominator.
unfoldable pub rate : Rework → Option (ℕ × ℕ)
rate s = if s.candidates == 0 then none else some (s.reworked, s.candidates)
