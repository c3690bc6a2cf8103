-- ===== src/Security/Kept.antt =====
-- What deletions keep in a table with a text key.
use aistat.Prelude.{
  ◌≡◌, ◌∙◌, refl, String, Bool, none, some, [], ◌∷◌, str_eq, eq_iff, Bool-cases, inl, inr, subst,
  sym, All,
}
use aistat.Security.Rows.{Keyed, look, drop, drop_where, put, look-drop, look-drop_other}

module _ {ℓ κ} {V : Type ℓ} (P : String × V → Type κ) where
  pub All-drop_where : (p : V → Bool) (m : Keyed V) → All P m → All P (drop_where p m)
  unfolding drop_where
  All-drop_where p [] h = tt
  All-drop_where p ((j, v) ∷ m) h = elim (Bool-cases (p v)) [
    | inl t ↦ rw t (All-drop_where p m h.1)
    | inr f ↦ rw f (h.0, All-drop_where p m h.1)
  ]

  pub All-drop : (k : String) (m : Keyed V) → All P m → All P (drop k m)
  unfolding drop
  All-drop k [] h = tt
  All-drop k ((j, v) ∷ m) h = elim (Bool-cases (str_eq j k)) [
    | inl t ↦ rw t (All-drop k m h.1)
    | inr f ↦ rw f (h.0, All-drop k m h.1)
  ]

  pub All-put : (k : String) (v : V) (m : Keyed V) → P (k, v) → All P m → All P (put k v m)
  unfolding put
  All-put k v m g h = (g, All-drop k m h)

  pub All-look : (k : String) (v : V) (m : Keyed V) → All P m → look k m ≡ some v → P (k, v)
  unfolding look
  All-look k v [] h = λ e. cc
  All-look k v ((j, w) ∷ m) h = elim (Bool-cases (str_eq j k)) [
    | inl t ↦ rw t (λ e.
        (let same : w ≡ v = cc in
          subst (λ x. P (x, v)) ((eq_iff j k).0 t) (subst (λ x. P (j, x)) same h.0)))
    | inr f ↦ rw f (All-look k v m h.1)
  ]

-- An absent key stays absent.
module _ {ℓ} {V : Type ℓ} where
  pub absent-drop_where :
      (k : String) (p : V → Bool) (m : Keyed V) → look k m ≡ none → look k (drop_where p m) ≡ none
  unfolding look drop_where
  absent-drop_where k p [] = λ h. refl
  absent-drop_where k p ((j, v) ∷ m) = elim (Bool-cases (str_eq j k)) [
    | inl t ↦ rw t (λ h. cc)
    | inr f ↦ rw f (λ h. elim (Bool-cases (p v)) [
      | inl d ↦ rw d (absent-drop_where k p m h)
      | inr d ↦ rw (d, f) (absent-drop_where k p m h)
    ])
  ]

  pub absent-drop : (k i : String) (m : Keyed V) → look k m ≡ none → look k (drop i m) ≡ none
  absent-drop k i m h = elim (Bool-cases (str_eq i k)) [
    | inl t ↦ subst (λ x. look k (drop x m) ≡ none) (sym ((eq_iff i k).0 t)) (look-drop k m)
    | inr f ↦ look-drop_other k i m f ∙ h
  ]
