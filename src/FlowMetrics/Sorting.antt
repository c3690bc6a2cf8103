-- ===== src/FlowMetrics/Sorting.antt =====
-- `list.sort` on numbers, and that it keeps how many values are where.
use aistat.Prelude.{
  ℕ, suc, ◌+◌, ◌≤◌, ◌≡◌, refl, List, [], ◌∷◌, leb, ltb, if◌then◌else◌, Bool-cases, inl, inr, arith,
  ap, ◌∙◌, length, All, All-map,
}
use aistat.FlowMetrics.Ranks.{IsSorted, at_most, below}

unfoldable pub insert : ℕ → List ℕ → List ℕ
insert x [] = x ∷ []
insert x (y ∷ ys) = let rest = insert x ys in if leb x y then x ∷ y ∷ ys else y ∷ rest

unfoldable pub sort : List ℕ → List ℕ
sort [] = []
sort (x ∷ xs) = insert x (sort xs)

All-insert : (b x : ℕ) (l : List ℕ) → b ≤ x → All (λ y. b ≤ y) l → All (λ y. b ≤ y) (insert x l)
unfolding insert
All-insert b x [] h k = (h, tt)
All-insert b x (y ∷ ys) h k = elim (Bool-cases (leb x y)) [
  | inl t ↦ rw t (h, k)
  | inr f ↦ rw f (k.0, All-insert b x ys h k.1)
]

insert-IsSorted : (x : ℕ) (l : List ℕ) → IsSorted l → IsSorted (insert x l)
unfolding insert
insert-IsSorted x [] s = (tt, tt)
insert-IsSorted x (y ∷ ys) s = elim (Bool-cases (leb x y)) [
  | inl t ↦
      let first : x ≤ y = ground arith in rw t ((first, All-map (λ z h. omega arith) ys s.0), s)
  | inr f ↦
      let other : y ≤ x = ground arith in
      rw f (All-insert y x ys other s.0, insert-IsSorted x ys s.1)
]

pub sort-IsSorted : (l : List ℕ) → IsSorted (sort l)
unfolding sort
sort-IsSorted [] = tt
sort-IsSorted (x ∷ xs) = insert-IsSorted x (sort xs) (sort-IsSorted xs)

length-insert : (x : ℕ) (l : List ℕ) → length (insert x l) ≡ suc (length l)
unfolding insert
length-insert x [] = refl
length-insert x (y ∷ ys) = ground (arith, length-insert x ys)

pub length-sort : (l : List ℕ) → length (sort l) ≡ length l
unfolding sort
length-sort [] = refl
length-sort (x ∷ xs) = length-insert x (sort xs) ∙ ap suc (length-sort xs)

at_most-insert : (v x : ℕ) (l : List ℕ) → at_most v (insert x l) ≡ at_most v (x ∷ l)
unfolding insert at_most
at_most-insert v x [] = refl
at_most-insert v x (y ∷ ys) = ground (arith, at_most-insert v x ys)

pub at_most-sort : (v : ℕ) (l : List ℕ) → at_most v (sort l) ≡ at_most v l
unfolding sort at_most
at_most-sort v [] = refl
at_most-sort v (x ∷ xs) =
    at_most-insert v x (sort xs) ∙ ap (λ n. if leb x v then n + 1 else n) (at_most-sort v xs)

below-insert : (v x : ℕ) (l : List ℕ) → below v (insert x l) ≡ below v (x ∷ l)
unfolding insert below
below-insert v x [] = refl
below-insert v x (y ∷ ys) = ground (arith, below-insert v x ys)

pub below-sort : (v : ℕ) (l : List ℕ) → below v (sort l) ≡ below v l
unfolding sort below
below-sort v [] = refl
below-sort v (x ∷ xs) =
    below-insert v x (sort xs) ∙ ap (λ n. if ltb x v then n + 1 else n) (below-sort v xs)
