-- ===== src/FlowMetrics/Idle.antt =====
-- Every second between the first and the last snapshot that lies in the window is counted once.
use aistat.Prelude.{ℕ, ◌+◌, ◌-◌, ◌≤◌, ◌≡◌, refl, Option, none, some, List, [], ◌∷◌, min, max, arith}
use aistat.FlowMetrics.{
  Snapshot, Sums, Seen, overlap, interval, seen, visit, visit_at, visit_rows, no_sums, idle_report,
}

-- The seconds of all kinds.
abbrev pub total : Sums → ℕ
total s = s.covered + s.paused + s.unavailable + s.gap

abbrev pub clip : ℕ → ℕ → ℕ → ℕ
clip win_from now t = max win_from (min t now)

overlap-clip : (w n a b : ℕ) → w ≤ n → a ≤ b → overlap w n a b + clip w n a ≡ clip w n b
overlap-clip w n a b h k = omega arith

interval-total :
    (w n at : ℕ) (p : Seen) (s : Sums) → total (interval w n p at s) ≡ total s + overlap w n p.at at
unfolding interval
interval-total w n at p s = ground arith

interval_idle :
    (w n at : ℕ) (p : Seen) (s : Sums)
    → s.idle ≤ s.covered
    → (interval w n p at s).idle ≤ (interval w n p at s).covered
unfolding interval
interval_idle w n at p s h = ground arith

abbrev pub Follows : Option ℕ → Option ℕ → Type 0
Follows none at = Unit
Follows (some a) none = Unit
Follows (some a) (some b) = a ≤ b

abbrev pub later : Option ℕ → Option ℕ → Option ℕ
later last none = last
later last (some at) = some at

-- The rows come in the order of their times, after the one seen last.
abbrev pub IsOrdered : Option ℕ → List Snapshot → Type 0
IsOrdered last [] = Unit
IsOrdered last (row ∷ rest) = Follows last row.at × IsOrdered (later last row.at) rest

-- The time of the last row that has one.
abbrev pub last_at : Option ℕ → List Snapshot → Option ℕ
last_at last [] = last
last_at last (row ∷ rest) = last_at (later last row.at) rest

abbrev pub first_of : Option ℕ → Option ℕ → Option ℕ
first_of none later = later
first_of (some at) later = some at

-- The time of the first row that has one.
abbrev pub first_at : List Snapshot → Option ℕ
first_at [] = none
first_at (row ∷ rest) = first_of row.at (first_at rest)

abbrev pub clip_of : ℕ → ℕ → Option ℕ → ℕ
clip_of w n none = 0
clip_of w n (some t) = clip w n t

telescoped :
    (t t' o c c' e : ℕ) → t' ≡ t + o → o + c ≡ c' → (x : ℕ) → x + c' ≡ t' + e → x + c ≡ t + e
telescoped t t' o c c' e h k x g = omega arith

module _ (w n : ℕ) (h : w ≤ n) where
  rows-total :
      (rows : List Snapshot) (p : Seen) (s : Sums)
      → IsOrdered (some p.at) rows
      → total (visit_rows w n rows (some p, s)).1 + clip w n p.at
        ≡ total s + clip_of w n (last_at (some p.at) rows)
  unfolding visit_rows visit
  rows-total [] p s k = refl
  rows-total (row ∷ rest) p s k = at_time (λ q t. rows-total rest q t) row.at k
    where
      at_time :
          ((q : Seen) (t : Sums)
            → IsOrdered (some q.at) rest
            → total (visit_rows w n rest (some q, t)).1 + clip w n q.at
              ≡ total t + clip_of w n (last_at (some q.at) rest))
          → (o : Option ℕ) → Follows (some p.at) o × IsOrdered (later (some p.at) o) rest
          → total (visit_rows w n rest (visit_at w n o row (some p, s))).1 + clip w n p.at
            ≡ total s + clip_of w n (last_at (later (some p.at) o) rest)
      at_time ih none (f, g) = ih p s g
      at_time ih (some b) (f, g) =
          telescoped (total s) (total (interval w n p b s)) (overlap w n p.at b) (clip w n p.at)
            (clip w n b) _ (interval-total w n b p s) (overlap-clip w n p.at b h f) _
            (ih (seen b row) (interval w n p b s) g)

  -- Before the first snapshot nothing is counted.
  first-total :
      (rows : List Snapshot)
      → IsOrdered none rows
      → (total (visit_rows w n rows (none, no_sums)).1 + clip_of w n (first_at rows))
        ≡ clip_of w n (last_at none rows)
  unfolding visit_rows visit
  first-total [] k = refl
  first-total (row ∷ rest) k = at_time (λ g. first-total rest g) row.at k
    where
      at_time :
          (IsOrdered none rest
            → total (visit_rows w n rest (none, no_sums)).1 + clip_of w n (first_at rest)
              ≡ clip_of w n (last_at none rest))
          → (o : Option ℕ) → Follows none o × IsOrdered (later none o) rest
          → total (visit_rows w n rest (visit_at w n o row (none, no_sums))).1
              + clip_of w n (first_of o (first_at rest))
            ≡ clip_of w n (last_at (later none o) rest)
      at_time ih none (f, g) = ih g
      at_time ih (some b) (f, g) = omega (arith, rows-total rest (seen b row) no_sums g)

visit_idle :
    (w n : ℕ) (o : Option ℕ) (row : Snapshot) (state : Option Seen × Sums)
    → state.1.idle ≤ state.1.covered
    → (visit_at w n o row state).1.idle ≤ (visit_at w n o row state).1.covered
visit_idle w n none row (previous, s) k = k
visit_idle w n (some at) row (none, s) k = k
visit_idle w n (some at) row (some p, s) k = interval_idle w n at p s k

rows_idle :
    (w n : ℕ) (rows : List Snapshot) (state : Option Seen × Sums)
    → state.1.idle ≤ state.1.covered
    → (visit_rows w n rows state).1.idle ≤ (visit_rows w n rows state).1.covered
unfolding visit_rows visit
rows_idle w n [] state k = k
rows_idle w n (row ∷ rest) state k =
    rows_idle w n rest (visit_at w n row.at row state) (visit_idle w n row.at row state k)

-- For rows in the order of their times and a window that does not end before it begins: the
-- covered, paused, unavailable and missing seconds add up to the part of the time from the first to
-- the last snapshot that lies in the window, and no more seconds are idle than covered.
pub idle_report-total :
    (w n : ℕ) (rows : List Snapshot)
    → w ≤ n
    → IsOrdered none rows
    → (total (idle_report w n rows).sums
        ≡ clip_of w n (last_at none rows) - clip_of w n (first_at rows))
      × ((idle_report w n rows).sums.idle ≤ (idle_report w n rows).sums.covered)
unfolding idle_report
idle_report-total w n rows h k =
    (omega (arith, first-total w n h rows k), rows_idle w n rows (none, no_sums) (omega arith))
