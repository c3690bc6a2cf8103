-- ===== src/FlowMetrics/Accepted.antt =====
-- The counters of the lineage count what its dictionaries hold.
use aistat.Prelude.{
  ℕ, ◌+◌, ◌≤◌, ◌≡◌, refl, String, Bool, false, not, ◌&&◌, Option, none, some, List, [], ◌∷◌, length,
  leb, arith, if◌then◌else◌, Bool-cases, inl, inr,
}
use aistat.FlowMetrics.Rework.{one_of, is_passing}
use aistat.FlowMetrics.Weeks.{in_window}
use aistat.FlowMetrics.Judged.{Judgements, entries, events_of, summary, entries-summary}
use aistat.FlowMetrics.Firsts.{events_for, firsts, IsFirstOf, firsts-IsFirstOf}
use aistat.FlowMetrics.Lineage.{
  Provenance, legacy_unknown, observed, unproven, Attempts, attempt, attempts_of, First, untimed,
  first, Accepted, Tally, no_tally, count_first, count_firsts, count_candidate, count_candidates,
  implementations_of, candidates_of, lineage, or_zero, QaEvent,
}

-- A candidate that is counted: each of its events has a time, and the earliest is in the window.
abbrev pub is_counted : ℕ → ℕ → Accepted → Bool
is_counted w n a = not a.unwindowed && in_window w n a.at

unfoldable pub summed : (Accepted → ℕ) → Judgements → ℕ
summed f [] = 0
summed f ((k, a) ∷ rest) = f a + summed f rest

-- The three counters of candidates.
abbrev pub Counts : ℕ → ℕ → Judgements → Tally → Tally → Type 0
Counts w n d s s' =
    (s'.rework
      ≡ summed (λ a. one_of (is_counted w n a && (a.reworked && not a.passed))) d + s.rework)
    × (s'.accepted_candidates
        ≡ summed (λ a. one_of (is_counted w n a && a.passed)) d + s.accepted_candidates)
    × (s'.accepted_story_points
        ≡ summed (λ a. if is_counted w n a && a.passed then or_zero a.accepted_story_points else 0)
            d
          + s.accepted_story_points)

count_candidate-Counts :
    (w n : ℕ) (i : String) (a : Accepted) (o : Option ℕ) (s : Tally)
    → a.at ≡ o
    → let s' = count_candidate w n i a o s in
      (s'.rework ≡ one_of (is_counted w n a && (a.reworked && not a.passed)) + s.rework)
      × (s'.accepted_candidates ≡ one_of (is_counted w n a && a.passed) + s.accepted_candidates)
      × (s'.accepted_story_points
          ≡ (if is_counted w n a && a.passed then or_zero a.accepted_story_points else 0)
            + s.accepted_story_points)
count_candidate-Counts w n i a none s h = elim (Bool-cases a.unwindowed) [
  | inl u ↦ rw (h, u) (omega arith, omega arith, omega arith)
  | inr u ↦ rw (h, u) (omega arith, omega arith, omega arith)
]
count_candidate-Counts w n i a (some t) s h = elim (Bool-cases a.unwindowed) [
  | inl u ↦ rw (h, u) (omega arith, omega arith, omega arith)
  | inr u ↦ elim (Bool-cases (leb w t && leb t n)) [
    | inl b ↦ rw (h, u, b) (omega arith, omega arith, omega arith)
    | inr b ↦ rw (h, u, b) (omega arith, omega arith, omega arith)
  ]
]

count_candidates-Counts :
    (w n : ℕ) (d : Judgements) (s : Tally) → Counts w n d s (count_candidates w n d s)
unfolding count_candidates summed
count_candidates-Counts w n [] s = (omega arith, omega arith, omega arith)
count_candidates-Counts w n (((i, k), a) ∷ rest) s =
    let (x, y, z) = count_candidate-Counts w n i a a.at s refl in
    let (x', y', z') = count_candidates-Counts w n rest (count_candidate w n i a a.at s) in
    (omega arith, omega arith, omega arith)

-- The implementations whose first event is in the period, and those of them that pass with it.
abbrev pub is_first : ℕ → ℕ → First → Bool
is_first w n untimed = false
is_first w n (first t e) = leb w t && leb t n

abbrev pub passes_first : First → Bool
passes_first untimed = false
passes_first (first t e) = is_passing e.verdict

unfoldable pub firsts_counted : (First → Bool) → List (String × First) → ℕ
firsts_counted p [] = 0
firsts_counted p ((i, f) ∷ rest) = one_of (p f) + firsts_counted p rest

abbrev pub CountsFirsts : ℕ → ℕ → List (String × First) → Tally → Tally → Type 0
CountsFirsts w n l s s' =
    (s'.first_pass_denominator ≡ firsts_counted (λ f. is_first w n f) l + s.first_pass_denominator)
    × (s'.first_passed ≡ firsts_counted (λ f. is_first w n f && passes_first f) l + s.first_passed)

count_firsts-CountsFirsts :
    (w n : ℕ) (l : List (String × First)) (s : Tally) → CountsFirsts w n l s (count_firsts w n l s)
unfolding count_firsts firsts_counted
count_firsts-CountsFirsts w n [] s = (omega arith, omega arith)
count_firsts-CountsFirsts w n ((i, untimed) ∷ rest) s =
    let (a, b) = count_firsts-CountsFirsts w n rest (count_first w n i untimed s) in
    (omega arith, omega arith)
count_firsts-CountsFirsts w n ((i, first t e) ∷ rest) s =
    let (a, b) = count_firsts-CountsFirsts w n rest (count_first w n i (first t e) s) in
    (ground arith, ground arith)

-- The counters of candidates leave those of the implementations.
count_candidate_keeps :
    (w n : ℕ) (i : String) (a : Accepted) (o : Option ℕ) (s : Tally)
    → let s' = count_candidate w n i a o s in
      (s'.first_pass_denominator ≡ s.first_pass_denominator) × (s'.first_passed ≡ s.first_passed)
count_candidate_keeps w n i a none s = (refl, refl)
count_candidate_keeps w n i a (some t) s = (ground arith, ground arith)

count_candidates_keep :
    (w n : ℕ) (d : Judgements) (s : Tally)
    → let s' = count_candidates w n d s in
      (s'.first_pass_denominator ≡ s.first_pass_denominator) × (s'.first_passed ≡ s.first_passed)
unfolding count_candidates
count_candidates_keep w n [] s = (refl, refl)
count_candidates_keep w n (((i, k), a) ∷ rest) s =
    let (x, y) = count_candidate_keeps w n i a a.at s in
    let (x', y') = count_candidates_keep w n rest (count_candidate w n i a a.at s) in
    (omega arith, omega arith)

count_firsts_keep :
    (w n : ℕ) (l : List (String × First)) (s : Tally)
    → let s' = count_firsts w n l s in
      (s'.rework ≡ s.rework)
      × (s'.accepted_candidates ≡ s.accepted_candidates)
      × (s'.accepted_story_points ≡ s.accepted_story_points)
unfolding count_firsts
count_firsts_keep w n [] s = (refl, refl, refl)
count_firsts_keep w n ((i, untimed) ∷ rest) s =
    count_firsts_keep w n rest (count_first w n i untimed s)
count_firsts_keep w n ((i, first t e) ∷ rest) s =
    let (a, b, c) = count_firsts_keep w n rest (count_first w n i (first t e) s) in
    (ground arith, ground arith, ground arith)

-- The dictionary holds one entry for a candidate with events and none for another; the entry is
-- passed if an event passes, reworked if an event asks for it, without a window if an event has no
-- time, and has the earliest time and the story points of the last pass that has some. Of the
-- entries with a window that begins in the period, the rework counter counts those that were
-- reworked and never passed, the other one those that passed, with the sum of their story points.
-- The dictionary of implementations holds, for one with events, the first of them, or that one of
-- them has no time; the rate of first passes is over those whose first event is in the period, and
-- counts the ones that pass with it.
pub lineage-Counts :
    (w n : ℕ) (i c : String) (events : List QaEvent)
    → (entries i c (candidates_of events []) ≡ summary (events_of i c events))
      × Counts w n (candidates_of events []) no_tally (lineage w n events)
      × IsFirstOf (events_for i events) (firsts i (implementations_of events []))
      × CountsFirsts w n (implementations_of events []) no_tally (lineage w n events)
unfolding lineage
lineage-Counts w n i c events =
    let tally = count_firsts w n (implementations_of events []) no_tally in
    let (a, b, d) = count_firsts_keep w n (implementations_of events []) no_tally in
    let (x, y, z) = count_candidates-Counts w n (candidates_of events []) tally in
    let (f, g) = count_firsts-CountsFirsts w n (implementations_of events []) no_tally in
    let (f', g') = count_candidates_keep w n (candidates_of events []) tally in
    (
      entries-summary i c events,
      (omega arith, omega arith, omega arith),
      firsts-IsFirstOf i events,
      (omega arith, omega arith),
    )

-- Every run is an attempt or of unknown provenance from before, and an attempt of unknown
-- provenance is an attempt.
pub attempts_of_total :
    (l : List Provenance) (a : Attempts)
    → a.unknown ≤ a.attempts
    → let a' = attempts_of l a in
      (a'.attempts + a'.legacy ≡ length l + (a.attempts + a.legacy)) × (a'.unknown ≤ a'.attempts)
unfolding attempts_of
attempts_of_total [] a h = (omega arith, h)
attempts_of_total (legacy_unknown ∷ rest) a h =
    let (x, y) = attempts_of_total rest (attempt legacy_unknown a) (omega arith) in (omega arith, y)
attempts_of_total (observed ∷ rest) a h =
    let (x, y) = attempts_of_total rest (attempt observed a) (omega arith) in (omega arith, y)
attempts_of_total (unproven ∷ rest) a h =
    let (x, y) = attempts_of_total rest (attempt unproven a) (omega arith) in (omega arith, y)
