-- ===== src/Security/Rows.antt =====
-- SQLite tables with a TEXT PRIMARY KEY.
use aistat.Prelude.{
  ◌≡◌, refl, String, Bool, true, false, Option, none, some, List, [], ◌∷◌, str_eq, eq_iff, eq_refl,
  if◌then◌else◌, Bool-cases, inl, inr, arith, subst, sym,
}

module _ {ℓ} where
  abbrev pub Keyed : Type ℓ → Type ℓ
  Keyed V = List (String × V)

module _ {ℓ} {V : Type ℓ} where
  -- SELECT ... WHERE key = k
  unfoldable pub look : String → Keyed V → Option V
  look k [] = none
  look k ((j, v) ∷ m) = if str_eq j k then some v else look k m

  -- DELETE ... WHERE key = k
  unfoldable pub drop : String → Keyed V → Keyed V
  drop k [] = []
  drop k ((j, v) ∷ m) = let rest = drop k m in if str_eq j k then rest else (j, v) ∷ rest

  -- DELETE ... WHERE the row meets `p`
  unfoldable pub drop_where : (V → Bool) → Keyed V → Keyed V
  drop_where p [] = []
  drop_where p ((j, v) ∷ m) = let rest = drop_where p m in if p v then rest else (j, v) ∷ rest

  -- INSERT OR REPLACE
  unfoldable pub put : String → V → Keyed V → Keyed V
  put k v m = (k, v) ∷ drop k m

  pub look-drop : (k : String) (m : Keyed V) → look k (drop k m) ≡ none
  unfolding look drop
  look-drop k [] = refl
  look-drop k ((j, v) ∷ m) = ground (arith, look-drop k m)

  pub look-drop_other :
      (k i : String) (m : Keyed V) → str_eq i k ≡ false → look k (drop i m) ≡ look k m
  unfolding look drop
  look-drop_other k i [] h = refl
  look-drop_other k i ((j, v) ∷ m) h = elim (Bool-cases (str_eq j i)) [
    | inl t ↦
        let same : str_eq j k ≡ false =
          subst (λ x. str_eq x k ≡ false) (sym ((eq_iff j i).0 t)) h in
        rw (t, same) (look-drop_other k i m h)
    | inr f ↦ rw f (split (str_eq j k) v (look-drop_other k i m h))
  ]
    where
      split :
          (b : Bool) (w : V) {o p : Option V}
          → o ≡ p
          → (if b then some w else o) ≡ (if b then some w else p)
      split true w e = refl
      split false w e = e

  pub look-put : (k : String) (v : V) (m : Keyed V) → look k (put k v m) ≡ some v
  unfolding look put
  look-put k v m = rw eq_refl refl

  pub look-put_other :
      (k i : String) (v : V) (m : Keyed V) → str_eq i k ≡ false → look k (put i v m) ≡ look k m
  unfolding look put
  look-put_other k i v m h = rw h (look-drop_other k i m h)

-- An INSERT that succeeded wrote what it was to write.
pub inserted {ℓ} :
    {D : Type ℓ} (taken : Bool) (written db : D)
    → (if taken then none else some written) ≡ some db
    → written ≡ db
inserted true written db h = cc
inserted false written db h = cc
