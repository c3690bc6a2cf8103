-- ===== src/FlowMetrics/Weeks.antt =====
-- The weeks of the rework report add up, and the candidates are all accounted for.
use aistat.Prelude.{
  ℕ, ◌+◌, ◌≡◌, Bool, true, false, ◌&&◌, Option, none, some, List, [], ◌∷◌, leb, ◌==◌, Bool-cases,
  inl, inr, arith,
}
use aistat.FlowMetrics.Rework.{
  Review, Candidate, Candidates, collect, Week, one_of, bump, Rework, no_rework, is_rework, tally,
  tally_all, rework, week_start,
}

unfoldable pub weekly_reworked : List (ℕ × Week) → ℕ
weekly_reworked [] = 0
weekly_reworked ((k, v) ∷ rest) = v.reworked + weekly_reworked rest

unfoldable pub weekly_candidates : List (ℕ × Week) → ℕ
weekly_candidates [] = 0
weekly_candidates ((k, v) ∷ rest) = v.candidates + weekly_candidates rest

bump-weekly :
    (week : ℕ) (b : Bool) (l : List (ℕ × Week))
    → (weekly_reworked (bump week b l) ≡ one_of b + weekly_reworked l)
      × (weekly_candidates (bump week b l) ≡ 1 + weekly_candidates l)
unfolding bump weekly_reworked weekly_candidates
bump-weekly week b [] = (omega arith, omega arith)
bump-weekly week b ((k, v) ∷ rest) =
    let (x, y) = bump-weekly week b rest in
    elim (Bool-cases (k == week)) [
      | inl t ↦ rw t (omega arith, omega arith)
      | inr f ↦ rw f (omega arith, omega arith)
    ]

-- The candidates of a list with a time in the window, and those without a time.
abbrev pub in_window : ℕ → ℕ → Option ℕ → Bool
in_window w n none = false
in_window w n (some t) = leb w t && leb t n

abbrev pub has_no_time : Option ℕ → Bool
has_no_time none = true
has_no_time (some t) = false

unfoldable pub counted : (Candidate → Bool) → Candidates → ℕ
counted p [] = 0
counted p ((k, e) ∷ rest) = counted p rest + one_of (p e)

abbrev pub Tallied : ℕ → ℕ → Candidates → Rework → Rework → Type 0
Tallied w n d s s' =
    (s'.candidates ≡ counted (λ e. in_window w n e.at) d + s.candidates)
    × (s'.reworked ≡ counted (λ e. in_window w n e.at && is_rework e) d + s.reworked)
    × (s'.unwindowed ≡ counted (λ e. has_no_time e.at) d + s.unwindowed)
    × (weekly_candidates s'.weekly + s.candidates ≡ s'.candidates + weekly_candidates s.weekly)
    × (weekly_reworked s'.weekly + s.reworked ≡ s'.reworked + weekly_reworked s.weekly)

tally-Tallied :
    (w n : ℕ) (e : Candidate) (o : Option ℕ) (s : Rework)
    → let s' = tally w n e o s in
      (s'.candidates ≡ one_of (in_window w n o) + s.candidates)
      × (s'.reworked ≡ one_of (in_window w n o && is_rework e) + s.reworked)
      × (s'.unwindowed ≡ one_of (has_no_time o) + s.unwindowed)
      × (weekly_candidates s'.weekly + s.candidates ≡ s'.candidates + weekly_candidates s.weekly)
      × (weekly_reworked s'.weekly + s.reworked ≡ s'.reworked + weekly_reworked s.weekly)
tally-Tallied w n e none s = (omega arith, omega arith, omega arith, omega arith, omega arith)
tally-Tallied w n e (some t) s =
    let (x, y) = bump-weekly (week_start t) (is_rework e) s.weekly in
    elim (Bool-cases (leb w t && leb t n)) [
      | inl b ↦ rw b (omega arith, omega arith, omega arith, omega arith, omega arith)
      | inr b ↦ rw b (omega arith, omega arith, omega arith, omega arith, omega arith)
    ]

tally_all-Tallied : (w n : ℕ) (d : Candidates) (s : Rework) → Tallied w n d s (tally_all w n d s)
unfolding tally_all counted
tally_all-Tallied w n [] s = (omega arith, omega arith, omega arith, omega arith, omega arith)
tally_all-Tallied w n ((k, e) ∷ rest) s =
    let (a, b, c, x, y) = tally-Tallied w n e e.at s in
    let (a', b', c', x', y') = tally_all-Tallied w n rest (tally w n e e.at s) in
    (omega arith, omega arith, omega arith, omega arith, omega arith)

-- The rework report: it counts the candidates first judged in the window, those of them that were
-- reworked and never passed, and the candidates without a time; and both counts of its weeks add up
-- to its totals.
pub rework-Tallied :
    (w n : ℕ) (rows : List Review)
    → let s = rework w n rows in
      let d = collect rows [] in
      (s.candidates ≡ counted (λ e. in_window w n e.at) d)
      × (s.reworked ≡ counted (λ e. in_window w n e.at && is_rework e) d)
      × (s.unwindowed ≡ counted (λ e. has_no_time e.at) d)
      × (weekly_candidates s.weekly ≡ s.candidates)
      × (weekly_reworked s.weekly ≡ s.reworked)
unfolding rework weekly_candidates weekly_reworked
rework-Tallied w n rows =
    let (a, b, c, x, y) = tally_all-Tallied w n (collect rows []) no_rework in
    (omega arith, omega arith, omega arith, omega arith, omega arith)
