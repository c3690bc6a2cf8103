-- ===== src/Table.antt =====
-- SQLite tables with an INTEGER PRIMARY KEY, as the components query them: a row is found,
-- replaced, updated and deleted by its key, and a scan runs in key order.
use aistat.Prelude.{
  ℕ, ◌≡◌, refl, Option, none, some, List, [], ◌∷◌, arith, ltb, ltb→lt, ◌==◌, ==_iff, ==_refl,
  if◌then◌else◌, false, ◌<◌, Bool-cases, inl, inr, subst, ap, sym, ◌∙◌, All, All-map,
}
use mathlib.Core.Option

module _ {ℓ} where
  abbrev pub Table : Type ℓ → Type ℓ
  Table V = List (ℕ × V)

abbrev pub push {ℓ} : {A : Type ℓ} → Option A → List A → List A
push none l = l
push (some a) l = a ∷ l

module _ {ℓ} {V : Type ℓ} where
  -- SELECT ... WHERE key = k
  unfoldable pub find : ℕ → Table V → Option V
  find k [] = none
  find k ((j, v) ∷ m) = if j == k then some v else find k m

  -- INSERT OR REPLACE; a new row goes to its place in key order.
  unfoldable pub upsert : ℕ → V → Table V → Table V
  upsert k v [] = (k, v) ∷ []
  upsert k v ((j, w) ∷ m) =
      if j == k
      then (k, v) ∷ m
      else let rest = upsert k v m in if ltb k j then (k, v) ∷ (j, w) ∷ m else (j, w) ∷ rest

  -- UPDATE ... WHERE key = k
  unfoldable pub update : ℕ → (V → V) → Table V → Table V
  update k f [] = []
  update k f ((j, v) ∷ m) = (j, if j == k then f v else v) ∷ update k f m

  -- DELETE ... WHERE key = k
  unfoldable pub delete : ℕ → Table V → Table V
  delete k [] = []
  delete k ((j, v) ∷ m) = let rest = delete k m in if j == k then rest else (j, v) ∷ rest

  -- A loop over the selected rows that updates each by its own key.
  unfoldable pub update_all : (ℕ → V → V) → Table V → Table V
  update_all f [] = []
  update_all f ((j, v) ∷ m) = (j, f j v) ∷ update_all f m

  -- SELECT ... WHERE ..., in key order, with what each selected row yields.
  unfoldable pub scan {κ} : {A : Type κ} → (ℕ → V → Option A) → Table V → List A
  scan f [] = []
  scan f ((j, v) ∷ m) = push (f j v) (scan f m)

  pub not-find-nil : (k : ℕ) {v : V} → find k [] ≡ some v → ⊥
  unfolding find
  not-find-nil k h = cc

  pub find-upsert :
      (k j : ℕ) (v : V) (m : Table V)
      → find j (upsert k v m) ≡ (if k == j then some v else find j m)
  unfolding find upsert
  find-upsert k j v [] = refl
  find-upsert k j v ((i, w) ∷ m) = ground (arith, find-upsert k j v m)

  pub find-update :
      (k j : ℕ) (f : V → V) (m : Table V)
      → find j (update k f m) ≡ (if k == j then Option.map f (find j m) else find j m)
  unfolding find update
  find-update k j f [] = ground arith
  find-update k j f ((i, w) ∷ m) = ground (arith, find-update k j f m)

  pub find-delete :
      (k j : ℕ) (m : Table V) → find j (delete k m) ≡ (if k == j then none else find j m)
  unfolding find delete
  find-delete k j [] = ground arith
  find-delete k j ((i, w) ∷ m) = ground (arith, find-delete k j m)

  pub find-update_all :
      (j : ℕ) (f : ℕ → V → V) (m : Table V) → find j (update_all f m) ≡ Option.map (f j) (find j m)
  unfolding find update_all
  find-update_all j f [] = refl
  find-update_all j f ((i, w) ∷ m) = ground (arith, find-update_all j f m)

-- A predicate of every row that a lookup finds.
abbrev pub Rows {ℓ κ} : {V : Type ℓ} → (ℕ → V → Type κ) → Table V → Type (ℓ ⊔ κ)
Rows {V} P m = (k : ℕ) (v : V) → find k m ≡ some v → P k v

pub Rows-single {ℓ κ} :
    {V : Type ℓ} (P : ℕ → V → Type κ) (k : ℕ) (v : V) → ((j : ℕ) → P j v) → Rows P ((k, v) ∷ [])
unfolding find
Rows-single P k v p j w e = elim (Bool-cases (k == j)) [
  | inl t ↦ subst (P j) (cc) (p j)
  | inr f ↦ cc
]

push-All {κ ν} :
    {A : Type κ} {P : A → Type ν} (o : Option A) (l : List A)
    → ((a : A) → o ≡ some a → P a)
    → All P l
    → All P (push o l)
push-All none l h k = k
push-All (some a) l h k = (h a refl, k)

push-nil {κ} : {B : Type κ} (o : Option B) (l : List B) → push o l ≡ [] → (o ≡ none) × (l ≡ [])
push-nil none l e = (refl, e)
push-nil (some b) l e = cc

module _ {ℓ} {V : Type ℓ} where
  -- The primary key: ascending keys, so that no key stands twice.
  abbrev pub Above : ℕ → Table V → Type 0
  Above k [] = Unit
  Above k ((j, v) ∷ m) = (k < j) × Above k m

  abbrev pub IsKeyed : Table V → Type 0
  IsKeyed [] = Unit
  IsKeyed ((k, v) ∷ m) = Above k m × IsKeyed m

  Above-trans : (j k : ℕ) (m : Table V) → j < k → Above k m → Above j m
  Above-trans j k [] h a = tt
  Above-trans j k ((i, v) ∷ m) h a = (omega arith, Above-trans j k m h a.1)

  Above-upsert : (j k : ℕ) (v : V) (m : Table V) → j < k → Above j m → Above j (upsert k v m)
  unfolding upsert
  Above-upsert j k v [] h a = (h, tt)
  Above-upsert j k v ((i, w) ∷ m) h a = elim (Bool-cases (i == k)) [
    | inl e ↦ rw e (h, a.1)
    | inr e ↦ elim (Bool-cases (ltb k i)) [
      | inl l ↦ rw (e, l) (h, (a.0, a.1))
      | inr l ↦ rw (e, l) (a.0, Above-upsert j k v m h a.1)
    ]
  ]

  pub upsert-IsKeyed : (k : ℕ) (v : V) (m : Table V) → IsKeyed m → IsKeyed (upsert k v m)
  unfolding upsert
  upsert-IsKeyed k v [] a = (tt, tt)
  upsert-IsKeyed k v ((i, w) ∷ m) a = elim (Bool-cases (i == k)) [
    | inl e ↦ rw e (subst (λ n. Above n m) ((==_iff i k).0 e) a.0, a.1)
    | inr e ↦ elim (Bool-cases (ltb k i)) [
      | inl l ↦ rw (e, l) ((ltb→lt k i l, Above-trans k i m (ltb→lt k i l) a.0), (a.0, a.1))
      | inr l ↦ rw (e, l) (Above-upsert i k v m (ground arith) a.0, upsert-IsKeyed k v m a.1)
    ]
  ]

  Above-update : (j k : ℕ) (f : V → V) (m : Table V) → Above j m → Above j (update k f m)
  unfolding update
  Above-update j k f [] a = tt
  Above-update j k f ((i, w) ∷ m) a = (a.0, Above-update j k f m a.1)

  pub update-IsKeyed : (k : ℕ) (f : V → V) (m : Table V) → IsKeyed m → IsKeyed (update k f m)
  unfolding update
  update-IsKeyed k f [] a = tt
  update-IsKeyed k f ((i, w) ∷ m) a = (Above-update i k f m a.0, update-IsKeyed k f m a.1)

  Above-delete : (j k : ℕ) (m : Table V) → Above j m → Above j (delete k m)
  unfolding delete
  Above-delete j k [] a = tt
  Above-delete j k ((i, w) ∷ m) a = elim (Bool-cases (i == k)) [
    | inl e ↦ rw e (Above-delete j k m a.1)
    | inr e ↦ rw e (a.0, Above-delete j k m a.1)
  ]

  pub delete-IsKeyed : (k : ℕ) (m : Table V) → IsKeyed m → IsKeyed (delete k m)
  unfolding delete
  delete-IsKeyed k [] a = tt
  delete-IsKeyed k ((i, w) ∷ m) a = elim (Bool-cases (i == k)) [
    | inl e ↦ rw e (delete-IsKeyed k m a.1)
    | inr e ↦ rw e (Above-delete i k m a.0, delete-IsKeyed k m a.1)
  ]

  -- A scan that yields nothing has nothing for a row that a lookup finds.
  pub scan-none {κ} :
      {A : Type κ} (f : ℕ → V → Option A) (m : Table V)
      → scan f m ≡ []
      → Rows (λ k v. f k v ≡ none) m
  unfolding scan find
  scan-none f [] e k v = λ h. cc
  scan-none f ((i, w) ∷ m) e k v = elim (Bool-cases (i == k)) [
    | inl t ↦ rw t (λ h.
        let n = (push-nil (f i w) (scan f m) e).0 in
        ap (λ x. f x v) (sym ((==_iff i k).0 t)) ∙ ap (λ x. f i x) (let g : v ≡ w = cc in g) ∙ n)
    | inr d ↦ rw d (scan-none f m (push-nil (f i w) (scan f m) e).1 k v)
  ]

  Above-update_all : (j : ℕ) (f : ℕ → V → V) (m : Table V) → Above j m → Above j (update_all f m)
  unfolding update_all
  Above-update_all j f [] a = tt
  Above-update_all j f ((i, w) ∷ m) a = (a.0, Above-update_all j f m a.1)

  pub update_all-IsKeyed : (f : ℕ → V → V) (m : Table V) → IsKeyed m → IsKeyed (update_all f m)
  unfolding update_all
  update_all-IsKeyed f [] a = tt
  update_all-IsKeyed f ((i, w) ∷ m) a = (Above-update_all i f m a.0, update_all-IsKeyed f m a.1)

  pub find-Above : (j k : ℕ) (v : V) (m : Table V) → Above j m → find k m ≡ some v → j < k
  unfolding find
  find-Above j k v [] a = λ h. cc
  find-Above j k v ((i, w) ∷ m) a = elim (Bool-cases (i == k)) [
    | inl e ↦ λ _. ground arith
    | inr e ↦ rw e (find-Above j k v m a.1)
  ]

  -- A scan of a keyed table yields what its function yields of the rows that a lookup finds.
  abbrev pub Scanned {κ} : {A : Type κ} → (ℕ → V → Option A) → Table V → A → Type (ℓ ⊔ κ)
  Scanned f m a = (k : ℕ) × (v : V) × (find k m ≡ some v) × (f k v ≡ some a)

  pub scan-Scanned {κ} :
      {A : Type κ} (f : ℕ → V → Option A) (m : Table V) → IsKeyed m → All (Scanned f m) (scan f m)
  unfolding scan find
  scan-Scanned f [] a = tt
  scan-Scanned {A} f ((i, w) ∷ m) a =
      push-All (f i w) (scan f m) (λ x e. (i, w, rw ==_refl, e))
        (All-map lift (scan f m) (scan-Scanned f m a.1))
    where
      lift : (x : A) → Scanned f m x → Scanned f ((i, w) ∷ m) x
      lift x (k, v, e, g) =
          let differs : (i == k) ≡ false = ground (arith, find-Above i k v m a.0 e) in
          (k, v, rw differs e, g)
