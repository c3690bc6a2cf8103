-- ===== src/FlowMetrics/CycleTime.antt =====
-- The cycle-time aggregate (aistat/flow_metrics.py, _cycle_time) over the rows of its query.
use aistat.Prelude.{
  ℕ, ◌+◌, ◌-◌, String, Bool, true, false, ◌&&◌, ◌||◌, Option, none, some, List, [], ◌∷◌, leb,
  str_eq, is_some, if◌then◌else◌, length,
}
use aistat.FlowMetrics.{twice_median, p90_nearest_rank}
use aistat.FlowMetrics.Sorting.{sort}

-- `current_status` is kept as whether it is "cancelled".
pub record CycleRow : Type 0 where
  pub project_id : Option String
  pub lane : String
  pub is_cancelled : Bool
  pub started_at : Option ℕ
  pub done_at : Option ℕ
  pub cancelled_at : Option ℕ

-- A project with a lane.
abbrev pub Key : Type 0
Key = Option String × String

abbrev pub same_project : Option String → Option String → Bool
same_project none none = true
same_project (some p) (some q) = str_eq p q
same_project _ _ = false

abbrev pub same_key : Key → Key → Bool
same_key (p, l) (q, m) = same_project p q && str_eq l m

-- `groups.setdefault(key, []).append(seconds)`
unfoldable pub append_to : Key → ℕ → List (Key × List ℕ) → List (Key × List ℕ)
append_to k x [] = (k, x ∷ []) ∷ []
append_to k x ((j, xs) ∷ groups) =
    let rest = append_to k x groups in if same_key j k then (j, x ∷ xs) ∷ groups else (j, xs) ∷ rest

pub record Cycles : Type 0 where
  pub durations : List ℕ
  pub groups : List (Key × List ℕ)
  pub done_total : ℕ
  pub excluded_no_start : ℕ
  pub cancelled : ℕ
  pub open_censored : ℕ

abbrev pub no_cycles : Cycles
no_cycles = record {
  durations = [];
  groups = [];
  done_total = 0;
  excluded_no_start = 0;
  cancelled = 0;
  open_censored = 0;
}

-- `max(0, duration_seconds)`, where the query has a duration.
abbrev pub seconds_of : Option ℕ → ℕ → Option ℕ
seconds_of none done = none
seconds_of (some started) done = some (done - started)

abbrev pub measure : CycleRow → Option ℕ → Cycles → Cycles
measure row none c = record c {
  done_total = c.done_total + 1;
  excluded_no_start = c.excluded_no_start + 1;
}
measure row (some seconds) c = record c {
  done_total = c.done_total + 1;
  durations = seconds ∷ c.durations;
  groups = append_to (row.project_id, row.lane) seconds c.groups;
}

module _ (win_from now : ℕ) where
  abbrev pub in_window : ℕ → Bool
  in_window t = leb win_from t && leb t now

  abbrev pub is_in_window : Option ℕ → Bool
  is_in_window none = false
  is_in_window (some t) = in_window t

  abbrev pub deliver : CycleRow → ℕ → Cycles → Cycles
  deliver row done c =
      if in_window done
      then if row.is_cancelled
        then record c { cancelled = c.cancelled + 1 }
        else measure row (seconds_of row.started_at done) c
      else c

  abbrev pub undelivered : CycleRow → Cycles → Cycles
  undelivered row c =
      if row.is_cancelled || is_some row.cancelled_at
      then if is_in_window row.cancelled_at then record c { cancelled = c.cancelled + 1 } else c
      else if is_some row.started_at
      then record c { open_censored = c.open_censored + 1 }
      else c

  abbrev pub count_at : CycleRow → Option ℕ → Cycles → Cycles
  count_at row none c = undelivered row c
  count_at row (some done) c = deliver row done c

  unfoldable pub count_rows : List CycleRow → Cycles → Cycles
  count_rows [] c = c
  count_rows (row ∷ rest) c = count_rows rest (count_at row row.done_at c)

pub record Group : Type 0 where
  pub key : Key
  pub count : ℕ
  pub twice_median_seconds : Option ℕ
  pub p90_seconds : Option ℕ

pub record CycleReport : Type 0 where
  pub twice_median_seconds : Option ℕ
  pub p90_seconds : Option ℕ
  pub measured : ℕ
  pub done_total : ℕ
  pub excluded_no_start : ℕ
  pub cancelled : ℕ
  pub open_censored : ℕ
  -- in the order in which the groups were found; the code sorts them by key
  pub groups : List Group

abbrev pub group_row : Key × List ℕ → Group
group_row (k, values) = record {
  key = k;
  count = length values;
  twice_median_seconds = twice_median (sort values);
  p90_seconds = p90_nearest_rank (sort values);
}

unfoldable pub group_rows : List (Key × List ℕ) → List Group
group_rows [] = []
group_rows (g ∷ rest) = group_row g ∷ group_rows rest

unfoldable pub cycle_report : Cycles → CycleReport
cycle_report c = record {
  twice_median_seconds = twice_median (sort c.durations);
  p90_seconds = p90_nearest_rank (sort c.durations);
  measured = length c.durations;
  done_total = c.done_total;
  excluded_no_start = c.excluded_no_start;
  cancelled = c.cancelled;
  open_censored = c.open_censored;
  groups = group_rows c.groups;
}

-- `none` as the start of the events is an empty table of events.
unfoldable pub cycle_time : ℕ → ℕ → Option ℕ → List CycleRow → CycleReport
cycle_time win_from now none rows = cycle_report no_cycles
cycle_time win_from now (some start) rows = cycle_report (count_rows win_from now rows no_cycles)
