-- ===== src/FlowMetrics.antt =====
-- The flow metrics (aistat/flow_metrics.py): what its loops make of the rows that its queries
-- select. Timestamps are seconds; a rate is the pair of its numerator and its denominator.
pub mod Idle
pub mod Ranks
pub mod Sorting
pub mod CycleTime
pub mod Delivered
pub mod Rework
pub mod Reviews
pub mod Weeks
pub mod Frontier
pub mod Lineage
pub mod Judged
pub mod Firsts
pub mod Accepted
mod Tests
use aistat.Prelude.{
  ℕ, ◌+◌, ◌-◌, ◌*◌, ◌/◌, ◌%◌, not, ◌||◌, Option, none, some, List, [], ◌∷◌, ◌==◌, ltb,
  if◌then◌else◌, min, max, length,
}

abbrev pub snapshot_gap_seconds : ℕ
snapshot_gap_seconds = 900

-- A row of `fleet_snapshots`; `at` is `none` where the timestamp does not parse, and a missing
-- number is 0.
pub record Snapshot : Type 0 where
  pub at : Option ℕ
  pub starved : ℕ
  pub paused : ℕ
  pub pause_observed : ℕ

pub record Sums : Type 0 where
  pub idle : ℕ
  pub covered : ℕ
  pub paused : ℕ
  pub unavailable : ℕ
  pub gap : ℕ

-- `previous`
pub record Seen : Type 0 where
  pub at : ℕ
  pub starved : ℕ
  pub paused : ℕ
  pub pause_observed : ℕ

pub record IdleReport : Type 0 where
  pub share : Option (ℕ × ℕ)
  pub sums : Sums
  pub coverage : Option (ℕ × ℕ)
  pub snapshots : ℕ

-- What an observed interval adds, by the snapshot at its start.
abbrev pub observed : Seen → ℕ → Sums → Sums
observed p o s =
    if p.pause_observed == 0
    then record s { unavailable = s.unavailable + o }
    else if not (p.paused == 0)
    then record s { paused = s.paused + o }
    else if ltb 0 p.starved
    then record s { covered = s.covered + o; idle = s.idle + o }
    else record s { covered = s.covered + o }

abbrev pub seen : ℕ → Snapshot → Seen
seen at row = record {
  at = at;
  starved = row.starved;
  paused = row.paused;
  pause_observed = row.pause_observed;
}

abbrev pub no_sums : Sums
no_sums = record { idle = 0; covered = 0; paused = 0; unavailable = 0; gap = 0 }

module _ (win_from now : ℕ) where
  -- The part of an interval that lies in the window.
  abbrev pub overlap : ℕ → ℕ → ℕ
  overlap prev_at at = min at now - max prev_at win_from

  unfoldable pub interval : Seen → ℕ → Sums → Sums
  interval p at s =
      let o = overlap p.at at in
      if ltb snapshot_gap_seconds (at - p.at)
      then record s { gap = s.gap + o }
      else if ltb 0 o
      then observed p o s
      else s

  abbrev pub after_interval : Option Seen → ℕ → Sums → Sums
  after_interval none at s = s
  after_interval (some p) at s = interval p at s

  abbrev pub visit_at : Option ℕ → Snapshot → Option Seen × Sums → Option Seen × Sums
  visit_at none row (previous, s) = (previous, s)
  visit_at (some at) row (previous, s) = (some (seen at row), after_interval previous at s)

  unfoldable pub visit : Snapshot → Option Seen × Sums → Option Seen × Sums
  visit row state = visit_at row.at row state

  unfoldable pub visit_rows : List Snapshot → Option Seen × Sums → Option Seen × Sums
  visit_rows [] state = state
  visit_rows (row ∷ rest) state = visit_rows rest (visit row state)

  -- `_idle` over the selected rows; the floats of the code are whole seconds.
  unfoldable pub idle_report : List Snapshot → IdleReport
  idle_report rows =
      let s = (visit_rows rows (none, no_sums)).1 in
      record {
        share = if ltb 0 s.covered then some (s.idle, s.covered) else none;
        sums = s;
        coverage = if ltb win_from now then some (s.covered, now - win_from) else none;
        snapshots = length rows;
      }

-- `values[i]` where the index is in range.
unfoldable pub get_elem : List ℕ → ℕ → Option ℕ
get_elem [] i = none
get_elem (x ∷ xs) i = let rest = get_elem xs (i - 1) in if i == 0 then some x else rest

abbrev pub sum_of_pair : Option ℕ → Option ℕ → Option ℕ
sum_of_pair (some a) (some b) = some (a + b)
sum_of_pair _ _ = none

-- Twice the median: the middle value counted twice, or the sum of the middle pair.
unfoldable pub twice_median : List ℕ → Option ℕ
twice_median values =
    let n = length values in
    let mid = n / 2 in
    if n == 0
    then none
    else if n % 2 == 0
    then sum_of_pair (get_elem values (mid - 1)) (get_elem values mid)
    else sum_of_pair (get_elem values mid) (get_elem values mid)

-- -(-9 * n // 10) and -(-95 * n // 100) are the quotients rounded up.
unfoldable pub p90_nearest_rank : List ℕ → Option ℕ
p90_nearest_rank values =
    let n = length values in if n == 0 then none else get_elem values ((9 * n + 9) / 10 - 1)

unfoldable pub p95_nearest_rank : List ℕ → Option ℕ
p95_nearest_rank values =
    let n = length values in if n == 0 then none else get_elem values ((95 * n + 99) / 100 - 1)

-- `days`; `none` is the ValueError.
unfoldable pub validate_days : Option ℕ → Option ℕ
validate_days none = none
validate_days (some days) = if days == 7 || days == 30 || days == 90 then some days else none
