-- ===== src/FlowMetrics/Tests.antt =====
-- The metrics on a few rows.
use aistat.Prelude.{
  true, false, ℕ, ◌+◌, ◌-◌, ◌≤◌, ◌<◌, ◌≡◌, refl, false, ◌&&◌, none, some, List, [], ◌∷◌, arith,
  member,
}
use aistat.FlowMetrics.{
  Snapshot, idle_report, visit_rows, visit, interval, validate_days, twice_median, get_elem,
}
use aistat.FlowMetrics.Idle.{total, clip_of, first_at, last_at, idle_report-total}
use aistat.FlowMetrics.Ranks.{IsRank}
use aistat.FlowMetrics.CycleTime.{CycleRow, cycle_time}
use aistat.FlowMetrics.Delivered.{delivered, delivered_seconds, counted, cycle_time-IsRank}
use aistat.FlowMetrics.Rework.{Review, is_rework, collect, note, rework, rate, tally_all, bump}
use aistat.FlowMetrics.Lineage.{
  QaEvent, implementations_of, candidates_of, note_implementation, note_candidate, count_firsts,
  count_candidates, str_before, lineage, no_tally,
}
use aistat.FlowMetrics.Judged.{entries, events_of, summary, any, earliest_at, last_points}
use aistat.FlowMetrics.Firsts.{events_for, firsts, IsFirstOf}
use aistat.FlowMetrics.Accepted.{Counts, CountsFirsts, lineage-Counts}
use aistat.FlowMetrics.Weeks.{
  counted as counted_of, in_window, has_no_time, weekly_candidates, weekly_reworked, rework-Tallied,
}

-- Two snapshots ten minutes apart, and one after a gap.
abbrev snapshots : List Snapshot
snapshots =
    record { at = some 1000; starved = 1; paused = 0; pause_observed = 1 }
    ∷ record { at = some 1600; starved = 0; paused = 0; pause_observed = 1 }
    ∷ record { at = none; starved = 0; paused = 0; pause_observed = 1 }
    ∷ record { at = some 3000; starved = 0; paused = 0; pause_observed = 1 }
    ∷ []

idle_shares : (idle_report 1200 9000 snapshots).share ≡ some (400, 400)
unfolding idle_report visit_rows visit interval
idle_shares = refl

idle_report-total_example :
    (total (idle_report 1200 9000 snapshots).sums
      ≡ clip_of 1200 9000 (last_at none snapshots) - clip_of 1200 9000 (first_at snapshots))
    × ((idle_report 1200 9000 snapshots).sums.idle ≤ (idle_report 1200 9000 snapshots).sums.covered)
idle_report-total_example =
    idle_report-total 1200 9000 snapshots (omega arith) (tt, (omega arith, (tt, (omega arith, tt))))

abbrev cards : List CycleRow
cards =
    record {
      project_id = some "p";
      lane = "dev";
      is_cancelled = false;
      started_at = some 100;
      done_at = some 400;
      cancelled_at = none;
    }
    ∷ record {
      project_id = some "p";
      lane = "dev";
      is_cancelled = false;
      started_at = none;
      done_at = some 500;
      cancelled_at = none;
    }
    ∷ []

cycle_time-IsRank_example :
    let r = cycle_time 50 900 (some 10) cards in
    (r.done_total ≡ delivered 50 900 cards)
    × (r.measured + r.excluded_no_start ≡ r.done_total)
    × (counted r.groups ≡ r.measured)
    × (0 < r.measured
        → (v : ℕ) × (r.p90_seconds ≡ some v) × IsRank 9 10 v (delivered_seconds 50 900 cards))
cycle_time-IsRank_example = cycle_time-IsRank 50 900 10 cards

-- A candidate that failed, and passed later.
abbrev reviews : List Review
reviews =
    record { impl_id = "i"; candidate = "sha"; verdict = "FAILED"; at = some 700000 }
    ∷ record { impl_id = "i"; candidate = "sha"; verdict = "PASSED"; at = some 800000 }
    ∷ record { impl_id = "i"; candidate = "other"; verdict = "INCONCLUSIVE"; at = some 800000 }
    ∷ []

one_reworked : rate (rework 0 900000 reviews) ≡ some (1, 2)
unfolding rate rework collect note tally_all bump member
one_reworked = refl

rework-Tallied_example :
    let s = rework 0 900000 reviews in
    let d = collect reviews [] in
    (s.candidates ≡ counted_of (λ e. in_window 0 900000 e.at) d)
    × (s.reworked ≡ counted_of (λ e. in_window 0 900000 e.at && is_rework e) d)
    × (s.unwindowed ≡ counted_of (λ e. has_no_time e.at) d)
    × (weekly_candidates s.weekly ≡ s.candidates)
    × (weekly_reworked s.weekly ≡ s.reworked)
rework-Tallied_example = rework-Tallied 0 900000 reviews

days : (validate_days (some 30) ≡ some 30) × (validate_days (some 31) ≡ none)
unfolding validate_days
days = (refl, refl)

medians : (twice_median (1 ∷ 2 ∷ 4 ∷ []) ≡ some 4) × (twice_median (1 ∷ 2 ∷ []) ≡ some 3)
unfolding twice_median get_elem
medians = (refl, refl)

-- A candidate that fails first and then passes, and a candidate without a time.
abbrev events : List QaEvent
events =
    record {
      qa_issue_id = "q2";
      implementation = "i";
      candidate = "sha";
      verdict = "PASSED";
      at = some 200;
      accepted_story_points = some 3;
    }
    ∷ record {
      qa_issue_id = "q1";
      implementation = "i";
      candidate = "sha";
      verdict = "FAILED";
      at = some 100;
      accepted_story_points = none;
    }
    ∷ record {
      qa_issue_id = "q3";
      implementation = "k";
      candidate = "sha";
      verdict = "PASSED";
      at = none;
      accepted_story_points = none;
    }
    ∷ []

not_at_first : (lineage 50 300 events).first_passed ≡ 0
unfolding lineage implementations_of candidates_of note_implementation note_candidate count_firsts
    count_candidates str_before member
not_at_first = refl

lineage-Counts_example :
    (entries "i" "sha" (candidates_of events []) ≡ summary (events_of "i" "sha" events))
    × Counts 50 300 (candidates_of events []) no_tally (lineage 50 300 events)
    × IsFirstOf (events_for "i" events) (firsts "i" (implementations_of events []))
    × CountsFirsts 50 300 (implementations_of events []) no_tally (lineage 50 300 events)
lineage-Counts_example = lineage-Counts 50 300 "i" "sha" events

-- The candidate of both its events, and what is counted.
one_entry :
    (summary (events_of "i" "sha" events)
      ≡ record {
        passed = true;
        reworked = true;
        at = some 100;
        unwindowed = false;
        accepted_story_points = some 3;
      }
        ∷ [])
    × ((lineage 50 300 events).accepted_candidates ≡ 1)
    × ((lineage 50 300 events).rework ≡ 0)
unfolding summary events_of any earliest_at last_points lineage implementations_of candidates_of
    note_implementation note_candidate count_firsts count_candidates str_before member
one_entry = (refl, refl, refl)
