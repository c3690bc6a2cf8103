-- ===== src/FlowMetrics/Delivered.antt =====
-- What the report of the cycle time says of the rows.
use aistat.Prelude.{
  ℕ, ◌+◌, ◌-◌, ◌<◌, ◌≡◌, refl, Bool, true, false, ◌&&◌, ◌||◌, not, Option, none, some, List, [],
  ◌∷◌, ◌++◌, if◌then◌else◌, Bool-cases, inl, inr, arith, ap, ◌∙◌, sym, subst, length, length-append,
  is_some,
}
use mathlib.Core.List.{append_assoc, append-nil}
use aistat.FlowMetrics.{p90_nearest_rank, p95_nearest_rank}
use aistat.FlowMetrics.Ranks.{IsRank, p90_nearest_rank-IsRank, p95_nearest_rank-IsRank}
use aistat.FlowMetrics.Sorting.{sort, sort-IsSorted, length-sort, at_most-sort, below-sort}
use aistat.FlowMetrics.CycleTime.{
  CycleRow, Key, same_key, append_to, Cycles, no_cycles, seconds_of, measure, in_window,
  is_in_window, undelivered, count_at, count_rows, group_rows, Group, cycle_report, cycle_time,
}

-- The rows that were delivered in the window: first done in it, and not cancelled since.
abbrev pub is_delivered : ℕ → ℕ → CycleRow → Bool
is_delivered w n row = is_in_window w n row.done_at && not row.is_cancelled

-- The seconds of a row whose start was seen.
abbrev pub seconds_between : Option ℕ → Option ℕ → List ℕ
seconds_between (some started) (some done) = (done - started) ∷ []
seconds_between _ _ = []

unfoldable pub delivered : ℕ → ℕ → List CycleRow → ℕ
delivered w n [] = 0
delivered w n (row ∷ rest) = delivered w n rest + (if is_delivered w n row then 1 else 0)

-- The last row comes first.
unfoldable pub delivered_seconds : ℕ → ℕ → List CycleRow → List ℕ
delivered_seconds w n [] = []
delivered_seconds w n (row ∷ rest) =
    delivered_seconds w n rest
    ++ (if is_delivered w n row then seconds_between row.started_at row.done_at else [])

unfoldable pub grouped : List (Key × List ℕ) → ℕ
grouped [] = 0
grouped ((k, xs) ∷ groups) = length xs + grouped groups

grouped-append_to :
    (k : Key) (x : ℕ) (groups : List (Key × List ℕ))
    → grouped (append_to k x groups) ≡ 1 + grouped groups
unfolding grouped append_to
grouped-append_to k x [] = refl
grouped-append_to k x ((j, xs) ∷ groups) = elim (Bool-cases (same_key j k)) [
  | inl t ↦ rw t (omega arith)
  | inr f ↦ rw f (omega (arith, grouped-append_to k x groups))
]

-- Between two states of the counters, `d` rows were delivered, and `e` are the seconds of those
-- that have a start.
abbrev Delivery : Cycles → Cycles → List ℕ → ℕ → Type 0
Delivery c c' e d =
    (c'.durations ≡ e ++ c.durations)
    × (c'.done_total ≡ d + c.done_total)
    × (c'.excluded_no_start + length e ≡ d + c.excluded_no_start)
    × (grouped c'.groups ≡ length e + grouped c.groups)

nothing :
    (c c' : Cycles)
    → c'.durations ≡ c.durations
    → c'.done_total ≡ c.done_total
    → c'.excluded_no_start ≡ c.excluded_no_start
    → c'.groups ≡ c.groups
    → Delivery c c' [] 0
nothing c c' a b x g = (a, omega arith, omega arith, ap grouped g ∙ omega arith)

same : (c : Cycles) → Delivery c c [] 0
same c = nothing c c refl refl refl refl

either :
    (b : Bool) (c x y : Cycles)
    → Delivery c x [] 0
    → Delivery c y [] 0
    → Delivery c (if b then x else y) [] 0
either true c x y h k = h
either false c x y h k = k

undelivered-Delivery :
    (w n : ℕ) (row : CycleRow) (c : Cycles) → Delivery c (undelivered w n row c) [] 0
undelivered-Delivery w n row c =
    either (row.is_cancelled || is_some row.cancelled_at) c _ _
      (either (is_in_window w n row.cancelled_at) c (record c { cancelled = c.cancelled + 1 }) c
        (nothing c (record c { cancelled = c.cancelled + 1 }) refl refl refl refl) (same c))
      (either (is_some row.started_at) c (record c { open_censored = c.open_censored + 1 }) c
        (nothing c (record c { open_censored = c.open_censored + 1 }) refl refl refl refl) (same c))

measure-Delivery :
    (row : CycleRow) (done : ℕ) (c : Cycles) (o : Option ℕ)
    → Delivery c (measure row (seconds_of o done) c) (seconds_between o (some done)) 1
measure-Delivery row done c none = (refl, omega arith, omega arith, omega arith)
measure-Delivery row done c (some started) =
    (refl, omega arith, omega arith, grouped-append_to (row.project_id, row.lane) _ c.groups)

row-Delivery :
    (w n : ℕ) (row : CycleRow) (c : Cycles) (o : Option ℕ)
    → Delivery c
        (count_at w n row o c)
        (if is_in_window w n o && not row.is_cancelled
          then seconds_between row.started_at o
          else [])
        (if is_in_window w n o && not row.is_cancelled then 1 else 0)
row-Delivery w n row c none = undelivered-Delivery w n row c
row-Delivery w n row c (some done) = elim (Bool-cases (in_window w n done)) [
  | inl t ↦ elim (Bool-cases row.is_cancelled) [
    | inl b ↦ rw (t, b) (nothing c (record c { cancelled = c.cancelled + 1 }) refl refl refl refl)
    | inr b ↦ rw (t, b) (measure-Delivery row done c row.started_at)
  ]
  | inr f ↦ rw f (same c)
]

delivered_then :
    (c x y : Cycles) (e f : List ℕ) (d k : ℕ)
    → Delivery c x e d
    → Delivery x y f k
    → Delivery c y (f ++ e) (k + d)
delivered_then c x y e f d k (a, b, g, h) (a', b', g', h') = (
  a' ∙ ap (λ l. f ++ l) a ∙ sym (append_assoc f e c.durations),
  omega arith,
  omega (arith, length-append f e),
  omega (arith, length-append f e),
)

rows-Delivery :
    (w n : ℕ) (rows : List CycleRow) (c : Cycles)
    → Delivery c (count_rows w n rows c) (delivered_seconds w n rows) (delivered w n rows)
unfolding count_rows delivered_seconds delivered
rows-Delivery w n [] c = same c
rows-Delivery w n (row ∷ rest) c =
    let next = count_at w n row row.done_at c in
    delivered_then c next (count_rows w n rest next) _ _ _ _ (row-Delivery w n row c row.done_at)
      (rows-Delivery w n rest next)

-- The groups of the report together.
unfoldable pub counted : List Group → ℕ
counted [] = 0
counted (g ∷ rest) = g.count + counted rest

counted-group_rows : (groups : List (Key × List ℕ)) → counted (group_rows groups) ≡ grouped groups
unfolding counted group_rows grouped
counted-group_rows [] = refl
counted-group_rows ((k, xs) ∷ rest) = ap (λ n. length xs + n) (counted-group_rows rest)

-- The percentile of the sorted values, as a rank among the values as they came.
ranked :
    (l : List ℕ) → 0 < length l → (v : ℕ) × (p90_nearest_rank (sort l) ≡ some v) × IsRank 9 10 v l
ranked l h =
    let (v, e, (a, b)) =
      p90_nearest_rank-IsRank (sort l) (sort-IsSorted l) (omega (arith, length-sort l)) in
    (
      v,
      e,
      (
        omega (arith, length-sort l, at_most-sort v l),
        omega (arith, length-sort l, below-sort v l),
      ),
    )

pub ranked_95 :
    (l : List ℕ) → 0 < length l → (v : ℕ) × (p95_nearest_rank (sort l) ≡ some v) × IsRank 95 100 v l
ranked_95 l h =
    let (v, e, (a, b)) =
      p95_nearest_rank-IsRank (sort l) (sort-IsSorted l) (omega (arith, length-sort l)) in
    (
      v,
      e,
      (
        omega (arith, length-sort l, at_most-sort v l),
        omega (arith, length-sort l, below-sort v l),
      ),
    )

no_groups : (d k g : ℕ) → k ≡ d → g ≡ d + grouped [] → g ≡ k
unfolding grouped
no_groups d k g e h = omega arith

-- The report of the cycle time, where events were collected: the rows delivered in the window are
-- those measured and those without a start; the groups together count the measured rows; and where
-- a row was measured the 90th percentile is there and is the nearest rank of 9 in 10 of the seconds
-- of the delivered rows.
pub cycle_time-IsRank :
    (w n start : ℕ) (rows : List CycleRow)
    → let r = cycle_time w n (some start) rows in
      (r.done_total ≡ delivered w n rows)
      × (r.measured + r.excluded_no_start ≡ r.done_total)
      × (counted r.groups ≡ r.measured)
      × (0 < r.measured
          → (v : ℕ) × (r.p90_seconds ≡ some v) × IsRank 9 10 v (delivered_seconds w n rows))
unfolding cycle_time cycle_report
cycle_time-IsRank w n start rows =
    let (a, b, g, h) = rows-Delivery w n rows no_cycles in
    let c = count_rows w n rows no_cycles in
    let durations : c.durations ≡ delivered_seconds w n rows =
      a ∙ append-nil (delivered_seconds w n rows) in
    let measured : length c.durations ≡ length (delivered_seconds w n rows) = ap length durations in
    (
      omega arith,
      omega arith,
      counted-group_rows c.groups ∙ no_groups (length (delivered_seconds w n rows)) _ _ measured h,
      subst
          (λ l.
            0 < length c.durations
            → (v : ℕ) × (p90_nearest_rank (sort c.durations) ≡ some v) × IsRank 9 10 v l)
          durations (ranked c.durations),
    )
