-- ===== src/FlowMetrics/Lineage.antt =====
-- The attempts and first passes (aistat/flow_metrics.py, _lineage) over the rows of its two
-- queries. Story points are given in units that make them whole.
use Prim.Native.Char.{code}
use aistat.Prelude.{
  ℕ, ◌+◌, String, Bool, true, false, not, ◌&&◌, ◌||◌, Option, none, some, List, [], ◌∷◌, leb, ltb,
  ◌==◌, str_eq, member, if◌then◌else◌, is_some,
}
use aistat.FlowMetrics.Rework.{is_passing, is_reworking, earlier, one_of}

-- `provenance_state`
pub data Provenance : Type 0 where
  legacy_unknown observed unproven : Provenance

pub record Attempts : Type 0 where
  pub attempts : ℕ
  pub unknown : ℕ
  pub legacy : ℕ

abbrev pub attempt : Provenance → Attempts → Attempts
attempt legacy_unknown a = record a { legacy = a.legacy + 1 }
attempt observed a = record a { attempts = a.attempts + 1 }
attempt unproven a = record a { attempts = a.attempts + 1; unknown = a.unknown + 1 }

unfoldable pub attempts_of : List Provenance → Attempts → Attempts
attempts_of [] a = a
attempts_of (p ∷ rest) a = attempts_of rest (attempt p a)

pub record QaEvent : Type 0 where
  pub qa_issue_id : String
  pub implementation : String
  pub candidate : String
  pub verdict : String
  pub at : Option ℕ
  pub accepted_story_points : Option ℕ

-- `str` in the order of its code points.
unfoldable pub str_before : String → String → Bool
str_before s String.[] = false
str_before String.[] (String.◌∷◌ d t) = true
str_before (String.◌∷◌ c s) (String.◌∷◌ d t) =
    ltb (code c) (code d) || (code c == code d && str_before s t)

-- The order of the key of `min`, the time and then the issue.
abbrev pub precedes : ℕ × QaEvent → ℕ × QaEvent → Bool
precedes (t, e) (u, f) = ltb t u || (t == u && str_before e.qa_issue_id f.qa_issue_id)

-- What is known of an implementation: its first event, or that an event has no time.
pub data First : Type 0 where
  untimed : First
  first : ℕ → QaEvent → First

abbrev pub merged : Option ℕ → QaEvent → First → First
merged none e f = untimed
merged (some t) e untimed = untimed
merged (some t) e (first u f) = if precedes (t, e) (u, f) then first t e else first u f

abbrev pub first_event : Option ℕ → QaEvent → First
first_event none e = untimed
first_event (some t) e = first t e

-- `implementations`, with the events of each reduced to what is read of them.
unfoldable pub note_implementation : QaEvent → List (String × First) → List (String × First)
note_implementation e [] = (e.implementation, first_event e.at e) ∷ []
note_implementation e ((i, f) ∷ rest) =
    let others = note_implementation e rest in
    if str_eq i e.implementation then (i, merged e.at e f) ∷ rest else (i, f) ∷ others

pub record Accepted : Type 0 where
  pub passed : Bool
  pub reworked : Bool
  pub at : Option ℕ
  pub unwindowed : Bool
  pub accepted_story_points : Option ℕ

abbrev pub unjudged : Accepted
unjudged = record {
  passed = false;
  reworked = false;
  at = none;
  unwindowed = false;
  accepted_story_points = none;
}

abbrev pub points_of : QaEvent → Option ℕ → Option ℕ
points_of e old =
    if is_passing e.verdict && is_some e.accepted_story_points then e.accepted_story_points else old

abbrev pub judged : QaEvent → Accepted → Accepted
judged e c = record {
  passed = c.passed || is_passing e.verdict;
  reworked = c.reworked || is_reworking e.verdict;
  at = earlier c.at e.at;
  unwindowed = c.unwindowed || not (is_some e.at);
  accepted_story_points = points_of e c.accepted_story_points;
}

unfoldable pub note_candidate :
    QaEvent → List ((String × String) × Accepted) → List ((String × String) × Accepted)
note_candidate e [] = ((e.implementation, e.candidate), judged e unjudged) ∷ []
note_candidate e (((i, c), a) ∷ rest) =
    let others = note_candidate e rest in
    if str_eq i e.implementation && str_eq c e.candidate
    then ((i, c), judged e a) ∷ rest
    else ((i, c), a) ∷ others

-- `set.add`
abbrev pub add : String → List String → List String
add i set = if member i set then set else i ∷ set

pub record Tally : Type 0 where
  pub first_pass_denominator : ℕ
  pub first_passed : ℕ
  pub rework : ℕ
  pub accepted_candidates : ℕ
  pub accepted_story_points : ℕ
  pub unwindowed : List String

abbrev pub no_tally : Tally
no_tally = record {
  first_pass_denominator = 0;
  first_passed = 0;
  rework = 0;
  accepted_candidates = 0;
  accepted_story_points = 0;
  unwindowed = [];
}

abbrev pub or_zero : Option ℕ → ℕ
or_zero none = 0
or_zero (some p) = p

module _ (win_from now : ℕ) where
  abbrev pub in_period : ℕ → Bool
  in_period t = leb win_from t && leb t now

  abbrev pub count_first : String → First → Tally → Tally
  count_first i untimed s = record s { unwindowed = add i s.unwindowed }
  count_first i (first t e) s =
      if in_period t
      then record s {
        first_pass_denominator = s.first_pass_denominator + 1;
        first_passed = s.first_passed + one_of (is_passing e.verdict);
      }
      else s

  unfoldable pub count_firsts : List (String × First) → Tally → Tally
  count_firsts [] s = s
  count_firsts ((i, f) ∷ rest) s = count_firsts rest (count_first i f s)

  abbrev pub count_timed : Accepted → ℕ → Tally → Tally
  count_timed c t s =
      if in_period t
      then record s {
        rework = s.rework + one_of (c.reworked && not c.passed);
        accepted_candidates = s.accepted_candidates + one_of c.passed;
        accepted_story_points =
            s.accepted_story_points + (if c.passed then or_zero c.accepted_story_points else 0);
      }
      else s

  abbrev pub count_candidate : String → Accepted → Option ℕ → Tally → Tally
  count_candidate i c none s = record s { unwindowed = add i s.unwindowed }
  count_candidate i c (some t) s =
      if c.unwindowed then record s { unwindowed = add i s.unwindowed } else count_timed c t s

  unfoldable pub count_candidates : List ((String × String) × Accepted) → Tally → Tally
  count_candidates [] s = s
  count_candidates (((i, k), c) ∷ rest) s = count_candidates rest (count_candidate i c c.at s)

unfoldable pub implementations_of : List QaEvent → List (String × First) → List (String × First)
implementations_of [] d = d
implementations_of (e ∷ rest) d = implementations_of rest (note_implementation e d)

unfoldable pub candidates_of :
    List QaEvent → List ((String × String) × Accepted) → List ((String × String) × Accepted)
candidates_of [] d = d
candidates_of (e ∷ rest) d = candidates_of rest (note_candidate e d)

unfoldable pub lineage : ℕ → ℕ → List QaEvent → Tally
lineage win_from now events =
    count_candidates win_from now (candidates_of events [])
      (count_firsts win_from now (implementations_of events []) no_tally)
