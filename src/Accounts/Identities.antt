-- ===== src/Accounts/Identities.antt =====
-- The table of external identities under links and deletions.
use aistat.Prelude.{
  ℕ, ◌≡◌, refl, String, Bool, true, false, ◌&&◌, Option, none, some, List, [], ◌∷◌, str_eq, eq_iff,
  ◌==◌, if◌then◌else◌, Bool-cases, inl, inr, arith, sym, ap, ◌∙◌, not,
}
use aistat.Accounts.{Identity, identity_of, without_user}

-- No key stands twice.
abbrev pub IsUnique : List Identity → Type 0
IsUnique [] = Unit
IsUnique (i ∷ rest) = (identity_of i.provider i.subject rest ≡ none) × IsUnique rest

abbrev same_key : String → String → Identity → Bool
same_key p s i = str_eq i.provider p && str_eq i.subject s

both : (a b : Bool) → (a && b) ≡ true → (a ≡ true) × (b ≡ true)
both true b h = (refl, h)
both false b h = cc

same_identity :
    (p s : String) (i : Identity) (l : List Identity)
    → same_key p s i ≡ true
    → identity_of i.provider i.subject l ≡ identity_of p s l
same_identity p s i l h =
    let (a, b) = both (str_eq i.provider p) (str_eq i.subject s) h in
    rw ((eq_iff i.provider p).0 a, (eq_iff i.subject s).0 b) refl

pub same_subject :
    (p s q t : String) (l : List Identity)
    → (str_eq p q && str_eq s t) ≡ true
    → identity_of q t l ≡ identity_of p s l
same_subject p s q t l h =
    let (a, b) = both (str_eq p q) (str_eq s t) h in rw ((eq_iff p q).0 a, (eq_iff s t).0 b) refl

abbrev pub unless : ℕ → Option ℕ → Option ℕ
unless u none = none
unless u (some v) = if v == u then none else some v

-- Deleting the identities of a user forgets exactly the subjects that were linked to it.
pub identity_of-without_user :
    (p s : String) (u : ℕ) (l : List Identity)
    → IsUnique l
    → identity_of p s (without_user u l) ≡ unless u (identity_of p s l)
unfolding identity_of without_user
identity_of-without_user p s u [] k = refl
identity_of-without_user p s u (i ∷ rest) k =
    let ih = identity_of-without_user p s u rest k.1 in
    elim (Bool-cases (same_key p s i)) [
      | inl t ↦
          let alone : identity_of p s rest ≡ none = sym (same_identity p s i rest t) ∙ k.0 in
          elim (Bool-cases (i.user_id == u)) [
            | inl v ↦ rw (t, v) (ih ∙ ap (unless u) alone)
            | inr v ↦ rw (v, t, v) refl
          ]
      | inr f ↦ elim (Bool-cases (i.user_id == u)) [ inl v ↦ rw (f, v) ih | inr v ↦ rw (v, f) ih ]
    ]

without_none :
    (p s : String) (u : ℕ) (l : List Identity)
    → IsUnique l
    → identity_of p s l ≡ none
    → identity_of p s (without_user u l) ≡ none
without_none p s u l k e = identity_of-without_user p s u l k ∙ ap (unless u) e

pub without_user-IsUnique : (u : ℕ) (l : List Identity) → IsUnique l → IsUnique (without_user u l)
unfolding without_user
without_user-IsUnique u [] k = tt
without_user-IsUnique u (i ∷ rest) k = elim (Bool-cases (i.user_id == u)) [
  | inl v ↦ rw v (without_user-IsUnique u rest k.1)
  | inr v ↦
      rw v (without_none i.provider i.subject u rest k.1 k.0, without_user-IsUnique u rest k.1)
]

-- A link of a new subject, seen from any subject.
pub identity_of-link :
    (p s : String) (i : Identity) (l : List Identity)
    → identity_of p s (i ∷ l) ≡ (if same_key p s i then some i.user_id else identity_of p s l)
unfolding identity_of
identity_of-link p s i l = refl

-- No row of the user is left.
pub absent : ℕ → List Identity → Bool
absent u [] = true
absent u (i ∷ rest) = not (i.user_id == u) && absent u rest

pub without_user-absent : (u : ℕ) (l : List Identity) → absent u (without_user u l) ≡ true
unfolding without_user absent
without_user-absent u [] = refl
without_user-absent u (i ∷ rest) = ground (arith, without_user-absent u rest)
