-- ===== src/FlowMetrics/Judged.antt =====
-- The dictionary of candidates that the lineage builds, as their events make it.
use aistat.Prelude.{
  ℕ, ◌≡◌, refl, String, Bool, true, false, not, ◌&&◌, ◌||◌, Option, none, some, List, [], ◌∷◌,
  str_eq, is_some, if◌then◌else◌, Bool-cases, inl, inr, ap, ◌∙◌, eq_iff, subst, sym,
}
use aistat.FlowMetrics.Rework.{is_passing, is_reworking}
use aistat.FlowMetrics.Reviews.{
  least, earlier-least, least_assoc, least-none, or_assoc, or_none, both,
}
use aistat.FlowMetrics.Lineage.{
  QaEvent, Accepted, candidates_of, judged, unjudged, note_candidate, points_of,
}

abbrev pub Judgements : Type 0
Judgements = List ((String × String) × Accepted)

-- The events of a candidate, and all that the dictionary holds of it.
abbrev is_event_of : String → String → QaEvent → Bool
is_event_of i c e = str_eq e.implementation i && str_eq e.candidate c

unfoldable pub events_of : String → String → List QaEvent → List QaEvent
events_of i c [] = []
events_of i c (e ∷ rest) =
    let others = events_of i c rest in if is_event_of i c e then e ∷ others else others

unfoldable pub entries : String → String → Judgements → List Accepted
entries i c [] = []
entries i c (((j, k), a) ∷ rest) =
    let others = entries i c rest in if str_eq j i && str_eq k c then a ∷ others else others

-- Of a list of events: whether one passes the test, the earliest time among those that have one, and
-- the story points of the last pass that has some.
unfoldable pub any : (QaEvent → Bool) → List QaEvent → Bool
any p [] = false
any p (e ∷ rest) = p e || any p rest

unfoldable pub earliest_at : List QaEvent → Option ℕ
earliest_at [] = none
earliest_at (e ∷ rest) = least e.at (earliest_at rest)

abbrev pub or_other : Option ℕ → Option ℕ → Option ℕ
or_other none o = o
or_other (some t) o = some t

unfoldable pub last_points : List QaEvent → Option ℕ
last_points [] = none
last_points (e ∷ rest) =
    or_other (last_points rest) (if is_passing e.verdict then e.accepted_story_points else none)

-- One entry for a candidate with events, none for another.
unfoldable pub summary : List QaEvent → List Accepted
summary [] = []
summary (e ∷ rest) =
    record {
      passed = any (λ x. is_passing x.verdict) (e ∷ rest);
      reworked = any (λ x. is_reworking x.verdict) (e ∷ rest);
      at = earliest_at (e ∷ rest);
      unwindowed = any (λ x. not (is_some x.at)) (e ∷ rest);
      accepted_story_points = last_points (e ∷ rest);
    }
    ∷ []

-- An event on the entries of its candidate.
abbrev put : QaEvent → List Accepted → List Accepted
put e [] = judged e unjudged ∷ []
put e (a ∷ l) = judged e a ∷ l

unfoldable put_all : List QaEvent → List Accepted → List Accepted
put_all [] l = l
put_all (e ∷ rest) l = put_all rest (put e l)

same_key :
    (j k i c : String) (e : QaEvent)
    → (str_eq j e.implementation && str_eq k e.candidate) ≡ true
    → is_event_of i c e ≡ (str_eq j i && str_eq k c)
same_key j k i c e h =
    let (a, b) = both (str_eq j e.implementation) (str_eq k e.candidate) h in
    rw ((eq_iff j e.implementation).0 a, (eq_iff k e.candidate).0 b) refl

other_key :
    (j k i c : String) (e : QaEvent)
    → (str_eq j e.implementation && str_eq k e.candidate) ≡ false
    → is_event_of i c e ≡ true
    → (str_eq j i && str_eq k c) ≡ false
other_key j k i c e h g =
    let (a, b) = both (str_eq e.implementation i) (str_eq e.candidate c) g in
    subst (λ x. (str_eq j x && str_eq k c) ≡ false) ((eq_iff e.implementation i).0 a)
      (subst (λ x. (str_eq j e.implementation && str_eq k x) ≡ false) ((eq_iff e.candidate c).0 b)
        h)

entries-note_candidate :
    (i c : String) (e : QaEvent) (d : Judgements)
    → entries i c (note_candidate e d)
      ≡ (if is_event_of i c e then put e (entries i c d) else entries i c d)
unfolding entries note_candidate
entries-note_candidate i c e [] = refl
entries-note_candidate i c e (((j, k), a) ∷ rest) =
    elim (Bool-cases (str_eq j e.implementation && str_eq k e.candidate)) [
      | inl t ↦ elim (Bool-cases (str_eq j i && str_eq k c)) [
        | inl m ↦ rw (t, same_key j k i c e t, m) refl
        | inr m ↦ rw (t, same_key j k i c e t, m) refl
      ]
      | inr f ↦ elim (Bool-cases (is_event_of i c e)) [
        | inl m ↦ rw (f, other_key j k i c e f m, entries-note_candidate i c e rest, m) refl
        | inr m ↦ rw (f, entries-note_candidate i c e rest, m) refl
      ]
    ]

entries-candidates_of :
    (i c : String) (events : List QaEvent) (d : Judgements)
    → entries i c (candidates_of events d) ≡ put_all (events_of i c events) (entries i c d)
unfolding candidates_of events_of put_all
entries-candidates_of i c [] d = refl
entries-candidates_of i c (e ∷ rest) d =
    entries-candidates_of i c rest (note_candidate e d) ∙ elim (Bool-cases (is_event_of i c e)) [
      | inl t ↦ rw (entries-note_candidate i c e d, t) refl
      | inr f ↦ rw (entries-note_candidate i c e d, f) refl
    ]

or_other_assoc : (a b c : Option ℕ) → or_other (or_other a b) c ≡ or_other a (or_other b c)
or_other_assoc none b c = refl
or_other_assoc (some t) b c = refl

or_other-none : (a : Option ℕ) → or_other a none ≡ a
or_other-none none = refl
or_other-none (some t) = refl

points_of-or_other :
    (e : QaEvent) (o : Option ℕ)
    → points_of e o ≡ or_other (if is_passing e.verdict then e.accepted_story_points else none) o
points_of-or_other e o = elim (Bool-cases (is_passing e.verdict)) [
  | inl t ↦ rw t (kept e.accepted_story_points)
  | inr f ↦ rw f refl
]
  where
    kept : (p : Option ℕ) → (if is_some p then p else o) ≡ or_other p o
    kept none = refl
    kept (some t) = refl

-- An entry with further events.
abbrev with_events : List QaEvent → Accepted → Accepted
with_events es a = record {
  passed = a.passed || any (λ x. is_passing x.verdict) es;
  reworked = a.reworked || any (λ x. is_reworking x.verdict) es;
  at = least a.at (earliest_at es);
  unwindowed = a.unwindowed || any (λ x. not (is_some x.at)) es;
  accepted_story_points = or_other (last_points es) a.accepted_story_points;
}

Accepted_eq :
    {p p' r r' w w' : Bool} {t t' s s' : Option ℕ}
    → p ≡ p'
    → r ≡ r'
    → t ≡ t'
    → w ≡ w'
    → s ≡ s'
    → Path Accepted
        (record { passed = p; reworked = r; at = t; unwindowed = w; accepted_story_points = s })
        (record {
          passed = p';
          reworked = r';
          at = t';
          unwindowed = w';
          accepted_story_points = s';
        })
Accepted_eq a b c d e = rw (a, b, c, d, e) refl

with_events-judged :
    (e : QaEvent) (es : List QaEvent) (a : Accepted)
    → with_events es (judged e a) ≡ with_events (e ∷ es) a
unfolding any earliest_at last_points
with_events-judged e es a =
    Accepted_eq (or_assoc a.passed (is_passing e.verdict) (any (λ x. is_passing x.verdict) es))
      (or_assoc a.reworked (is_reworking e.verdict) (any (λ x. is_reworking x.verdict) es))
      (ap (λ t. least t (earliest_at es)) (earlier-least a.at e.at)
        ∙ least_assoc a.at e.at (earliest_at es))
      (or_assoc a.unwindowed (not (is_some e.at)) (any (λ x. not (is_some x.at)) es))
      (ap (or_other (last_points es)) (points_of-or_other e a.accepted_story_points)
        ∙ sym (
            or_other_assoc (last_points es)
              (if is_passing e.verdict then e.accepted_story_points else none)
              a.accepted_story_points))

with_events-nil : (a : Accepted) → with_events [] a ≡ a
unfolding any earliest_at last_points
with_events-nil a =
    Accepted_eq (or_none a.passed) (or_none a.reworked) (least-none a.at) (or_none a.unwindowed)
      refl

put_all-with_events :
    (es : List QaEvent) (a : Accepted) → put_all es (a ∷ []) ≡ with_events es a ∷ []
unfolding put_all
put_all-with_events [] a = ap (λ x. x ∷ []) (sym (with_events-nil a))
put_all-with_events (e ∷ es) a =
    put_all-with_events es (judged e a) ∙ ap (λ x. x ∷ []) (with_events-judged e es a)

put_all-summary : (es : List QaEvent) → put_all es [] ≡ summary es
unfolding put_all summary
put_all-summary [] = refl
put_all-summary (e ∷ es) =
    put_all-with_events es (judged e unjudged)
    ∙ ap (λ x. x ∷ []) (with_events-judged e es unjudged ∙ unjudged_events (e ∷ es))
  where
    unjudged_events :
        (l : List QaEvent)
        → Path Accepted (with_events l unjudged) (record {
          passed = any (λ x. is_passing x.verdict) l;
          reworked = any (λ x. is_reworking x.verdict) l;
          at = earliest_at l;
          unwindowed = any (λ x. not (is_some x.at)) l;
          accepted_story_points = last_points l;
        })
    unjudged_events l = Accepted_eq refl refl refl refl (or_other-none (last_points l))

pub entries-summary :
    (i c : String) (events : List QaEvent)
    → entries i c (candidates_of events []) ≡ summary (events_of i c events)
unfolding entries
entries-summary i c events =
    entries-candidates_of i c events [] ∙ put_all-summary (events_of i c events)
