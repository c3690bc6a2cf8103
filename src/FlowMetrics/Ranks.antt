-- ===== src/FlowMetrics/Ranks.antt =====
-- The percentiles against their definition: at least that share of the values is at most the
-- percentile, and less than that share is below it.
use aistat.Prelude.{
  ℕ, ◌+◌, ◌-◌, ◌*◌, ◌/◌, ◌≤◌, ◌<◌, ◌≡◌, refl, false, some, List, [], ◌∷◌, ◌==◌, ltb, leb,
  if◌then◌else◌, Bool-cases, inl, inr, arith, ◌∙◌, sym, length, All, subst, if_false, ==_iff,
}
use aistat.FlowMetrics.{get_elem, p90_nearest_rank, p95_nearest_rank}

-- Ascending, as `list.sort` leaves it.
abbrev pub IsSorted : List ℕ → Type 0
IsSorted [] = Unit
IsSorted (x ∷ xs) = All (λ y. x ≤ y) xs × IsSorted xs

-- How many values are at most `v`, and how many are below it.
unfoldable pub at_most : ℕ → List ℕ → ℕ
at_most v [] = 0
at_most v (x ∷ xs) = let rest = at_most v xs in if leb x v then rest + 1 else rest

unfoldable pub below : ℕ → List ℕ → ℕ
below v [] = 0
below v (x ∷ xs) = let rest = below v xs in if ltb x v then rest + 1 else rest

get_elem-some : (l : List ℕ) (i : ℕ) → i < length l → (v : ℕ) × (get_elem l i ≡ some v)
unfolding get_elem
get_elem-some [] i h = let bad : ⊥ = omega (arith, h) in elim bad [ ]
get_elem-some (x ∷ xs) i h = elim (Bool-cases (i == 0)) [
  | inl t ↦ (x, rw t refl)
  | inr f ↦ let (v, e) = get_elem-some xs (i - 1) (ground arith) in (v, rw f e)
]

-- In a sorted list, below a value are only values before it.
below_none : (v : ℕ) (xs : List ℕ) → All (λ y. v ≤ y) xs → below v xs ≡ 0
unfolding below
below_none v [] h = refl
below_none v (x ∷ xs) h = ground (arith, below_none v xs h.1, h.0)

All-at : (x : ℕ) (l : List ℕ) (i v : ℕ) → All (λ y. x ≤ y) l → get_elem l i ≡ some v → x ≤ v
unfolding get_elem
All-at x [] i v h = λ e. cc
All-at x (y ∷ l) i v h = elim (Bool-cases (i == 0)) [
  | inl t ↦ rw t (λ e. (let same : y ≡ v = cc in omega (arith, h.0)))
  | inr f ↦ rw f (All-at x l (i - 1) v h.1)
]

at_most-next : (v x : ℕ) (xs : List ℕ) → x ≤ v → at_most v (x ∷ xs) ≡ at_most v xs + 1
unfolding at_most
at_most-next v x xs h = ground arith

below-next : (v x : ℕ) (xs : List ℕ) → below v (x ∷ xs) ≤ below v xs + 1
unfolding below
below-next v x xs = ground arith

below_same : (v : ℕ) (xs : List ℕ) → below v (v ∷ xs) ≡ below v xs
unfolding below
below_same v xs = ground arith

-- The first value of a sorted list.
first_placed :
    (v i : ℕ) (xs : List ℕ)
    → i ≡ 0
    → All (λ y. v ≤ y) xs
    → (i < at_most v (v ∷ xs)) × (below v (v ∷ xs) ≤ i)
first_placed v i xs e h = (
  omega (arith, at_most-next v v xs (omega arith)),
  omega (arith, below_same v xs, below_none v xs h),
)

later_placed :
    (x v i : ℕ) (xs : List ℕ)
    → (i == 0) ≡ false
    → x ≤ v
    → (i - 1 < at_most v xs) × (below v xs ≤ i - 1)
    → (i < at_most v (x ∷ xs)) × (below v (x ∷ xs) ≤ i)
later_placed x v i xs f h (a, b) =
    let positive : 0 < i = ground arith in
    (omega (arith, at_most-next v x xs h), omega (arith, below-next v x xs))

-- The value at a place of a sorted list: more values than the place counts are at most it, and no
-- more than the place counts are below it.
placed :
    (l : List ℕ) (i v : ℕ)
    → IsSorted l
    → get_elem l i ≡ some v
    → (i < at_most v l) × (below v l ≤ i)
unfolding get_elem
placed [] i v h = λ e. cc
placed (x ∷ xs) i v h = elim (Bool-cases (i == 0)) [
  | inl t ↦ rw t (λ e.
      (let same : x ≡ v = cc in
        subst (λ y. (i < at_most v (y ∷ xs)) × (below v (y ∷ xs) ≤ i)) (sym same)
          (first_placed v i xs ((==_iff i 0).0 t) (subst (λ y. All (λ z. y ≤ z) xs) same h.0))))
  | inr f ↦
      rw f (λ e. later_placed x v i xs f (All-at x xs (i - 1) v h.0 e) (placed xs (i - 1) v h.1 e))
]

-- What a nearest rank of `num` in `den` is.
abbrev pub IsRank : ℕ → ℕ → ℕ → List ℕ → Type 0
IsRank num den v l = (num * length l ≤ den * at_most v l) × (den * below v l < num * length l)

-- For sorted values, the 90th percentile is there exactly if there is a value, and then at least 90
-- of 100 values are at most it and fewer than 90 of 100 are below it.
pub p90_nearest_rank-IsRank :
    (l : List ℕ)
    → IsSorted l
    → 0 < length l
    → (v : ℕ) × (p90_nearest_rank l ≡ some v) × IsRank 9 10 v l
unfolding p90_nearest_rank
p90_nearest_rank-IsRank l s h =
    let n = length l in
    let (v, e) = get_elem-some l ((9 * n + 9) / 10 - 1) (omega arith) in
    let (a, b) = placed l ((9 * n + 9) / 10 - 1) v s e in
    let some_there : (n == 0) ≡ false = ground arith in
    (v, if_false _ _ some_there ∙ e, (omega arith, omega arith))

-- For sorted values, the 95th percentile is there exactly if there is a value, and then at least 95
-- of 100 values are at most it and fewer than 95 of 100 are below it.
pub p95_nearest_rank-IsRank :
    (l : List ℕ)
    → IsSorted l
    → 0 < length l
    → (v : ℕ) × (p95_nearest_rank l ≡ some v) × IsRank 95 100 v l
unfolding p95_nearest_rank
p95_nearest_rank-IsRank l s h =
    let n = length l in
    let (v, e) = get_elem-some l ((95 * n + 99) / 100 - 1) (omega arith) in
    let (a, b) = placed l ((95 * n + 99) / 100 - 1) v s e in
    let some_there : (n == 0) ≡ false = ground arith in
    (v, if_false _ _ some_there ∙ e, (omega arith, omega arith))
