-- ===== src/FlowMetrics/Frontier.antt =====
-- The readiness section (aistat/flow_metrics.py, _frontier) over the rows of its three queries.
-- Story points are given in units that make them whole.
use aistat.Prelude.{
  ℕ, ◌+◌, ◌-◌, ◌<◌, ◌≡◌, not, ◌&&◌, ◌||◌, Option, none, some, List, [], ◌∷◌, leb, ltb, length,
  if◌then◌else◌,
}
use aistat.FlowMetrics.{twice_median, p95_nearest_rank}
use aistat.FlowMetrics.Sorting.{sort}
use aistat.FlowMetrics.Ranks.{IsRank}
use aistat.FlowMetrics.Delivered.{ranked_95}

-- A first trusted readiness and the creation of its issue.
pub record Readiness : Type 0 where
  pub ready_at : Option ℕ
  pub created_at : Option ℕ

abbrev pub sum_points : List (Option ℕ) → ℕ
sum_points [] = 0
sum_points (none ∷ rest) = sum_points rest
sum_points (some p ∷ rest) = p + sum_points rest

module _ (win_from now : ℕ) where
  abbrev pub lead : Option ℕ → Option ℕ → List ℕ → List ℕ
  lead (some ready) (some created) l =
      if ltb ready created || not (leb win_from ready && leb ready now)
      then l
      else (ready - created) ∷ l
  lead _ _ l = l

  -- `pm_values`
  unfoldable pub lead_times : List Readiness → List ℕ
  lead_times [] = []
  lead_times (row ∷ rest) = lead row.ready_at row.created_at (lead_times rest)

  abbrev pub wait : Option ℕ → List ℕ → List ℕ
  wait none l = l
  wait (some ready) l = if leb ready now then (now - ready) ∷ l else l

  -- `waiting_values`
  unfoldable pub waiting_times : List (Option ℕ) → List ℕ
  waiting_times [] = []
  waiting_times (ready_at ∷ rest) = wait ready_at (waiting_times rest)

pub record Frontier : Type 0 where
  pub ready : ℕ
  pub ready_story_points : ℕ
  pub pm_p95_seconds : Option ℕ
  pub pm_measured : ℕ
  pub twice_waiting_median_seconds : Option ℕ
  pub waiting_p95_seconds : Option ℕ
  pub waiting : ℕ

-- The arguments are the points of the ready issues, the readiness rows and the waiting ones.
unfoldable pub frontier : ℕ → ℕ → List (Option ℕ) → List Readiness → List (Option ℕ) → Frontier
frontier win_from now ready readiness waiting = record {
  ready = length ready;
  ready_story_points = sum_points ready;
  pm_p95_seconds = p95_nearest_rank (sort (lead_times win_from now readiness));
  pm_measured = length (lead_times win_from now readiness);
  twice_waiting_median_seconds = twice_median (sort (waiting_times win_from now waiting));
  waiting_p95_seconds = p95_nearest_rank (sort (waiting_times win_from now waiting));
  waiting = length (waiting_times win_from now waiting);
}

-- Where a lead time was measured, its 95th percentile is there and is a nearest rank of 95 in 100
-- of the lead times.
pub frontier-IsRank :
    (w n : ℕ) (ready : List (Option ℕ)) (readiness : List Readiness) (waiting : List (Option ℕ))
    → 0 < (frontier w n ready readiness waiting).pm_measured
    → (v : ℕ) × ((frontier w n ready readiness waiting).pm_p95_seconds ≡ some v)
      × IsRank 95 100 v (lead_times w n readiness)
unfolding frontier
frontier-IsRank w n ready readiness waiting h = ranked_95 (lead_times w n readiness) h
