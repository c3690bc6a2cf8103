-- ===== src/Accounts/Roles.antt =====
-- Who is the admin: no call but the start of the owner elevates or demotes anyone.
use aistat.Prelude.{
  ℕ, ◌+◌, ◌<◌, ◌≡◌, ◌↔◌, refl, String, Bool, true, false, Option, none, some, All, All-map, List,
  [], ◌∷◌, ◌==◌, ==_iff, Bool-cases, inl, inr, arith, subst, sym, ap, ◌∙◌,
}
use aistat.Table.{
  Table, find, upsert, delete, scan, find-upsert, find-delete, IsKeyed, scan-Scanned, Scanned,
  find-Above, Above,
}
use aistat.Accounts.{
  User, Accounts, is_admin_row, created_identity, purged, admins, admin_id, owner_of, owner_user_id,
  done,
}
use aistat.Accounts.Invariant.{Issued, IsValid}
use aistat.Accounts.Calls.{
  Call, run, is_ensure_owner, Step, refused, known, created, registered, attached, owner_known,
  promotes, founds, deleted,
}
use aistat.Accounts.Steps.{perform-Step, NoAdmin-nil}
use aistat.Accounts.Registry.{Step-IsValid}

-- A new row that is no admin, for an id that was never issued.
ordinary_row :
    (n u : ℕ) (row : User) (users : Table User)
    → row.is_admin ≡ false
    → Issued n users
    → is_admin_row (find u (upsert (n + 1) row users)) ≡ is_admin_row (find u users)
ordinary_row n u row users h k =
    rw find-upsert
      (elim (Bool-cases (n + 1 == u)) [ inl t ↦ rw (t, k u (ground arith)) h | inr f ↦ rw f refl ])

plain_row :
    (k u : ℕ) (users : Table User)
    → is_admin_row (find k users) ≡ false
    → is_admin_row (find u (delete k users)) ≡ is_admin_row (find u users)
plain_row k u users h = rw find-delete (elim (Bool-cases (k == u)) [
  | inl t ↦ rw (t, sym ((==_iff k u).0 t), h) refl
  | inr f ↦ rw f refl
])

absurd {ℓ} : {A : Type ℓ} {b : Bool} → b ≡ false → b ≡ true → A
absurd h g = cc

pub Step-is_admin_row :
    (c : Call) (a a' : Accounts) (r : Option ℕ)
    → Step c a a' r
    → is_ensure_owner c ≡ false
    → IsValid a
    → (u : ℕ) → is_admin_row (find u a'.users) ≡ is_admin_row (find u a.users)
unfolding created_identity purged
Step-is_admin_row c a a' r refused n v w = refl
Step-is_admin_row c a a' r (known p s u h e) n v w = refl
Step-is_admin_row c a a' r (created p s email name now h e) n v w =
    ordinary_row a.last_user_id w _ a.users refl v.users_issued
Step-is_admin_row c a a' r (registered p s email name now h e) n v w =
    ordinary_row a.last_user_id w _ a.users refl v.users_issued
Step-is_admin_row c a a' r (attached p s owner email now h e t) n v w = refl
Step-is_admin_row c a a' r (owner_known u h) n v w = refl
Step-is_admin_row c a a' r (promotes u h k) n v w = absurd n h
Step-is_admin_row c a a' r (founds name email now h k) n v w = absurd n h
Step-is_admin_row c a a' r (deleted u now h f) n v w = plain_row u w a.users f

module _ (strip_lower sql_lower : String → String) where
  -- In a run without a start of the owner, no registration, link or deletion makes anyone an admin
  -- or takes the role from anyone.
  pub run-is_admin_row :
      (cs : List Call) (a : Accounts) (u : ℕ)
      → All (λ c. is_ensure_owner c ≡ false) cs
      → IsValid a
      → is_admin_row (find u (run strip_lower sql_lower cs a).users) ≡ is_admin_row (find u a.users)
  unfolding run
  run-is_admin_row [] a u n v = refl
  run-is_admin_row (c ∷ rest) a u n v =
      let k = perform-Step strip_lower sql_lower c a in
      run-is_admin_row rest _ u n.1 (Step-IsValid c a _ _ k v) ∙ Step-is_admin_row c a _ _ k n.0 v u

-- The ids of the admins come from rows that a lookup finds.
IsAdminOf : Table User → ℕ → Type 0
IsAdminOf m v = is_admin_row (find v m) ≡ true

admin_id-some : (k v : ℕ) (w : User) → admin_id k w ≡ some v → (k ≡ v) × (w.is_admin ≡ true)
admin_id-some k v w = elim (Bool-cases w.is_admin) [
  | inl t ↦ rw t (λ h. (let e : k ≡ v = cc in e, refl))
  | inr f ↦ rw f (λ h. cc)
]

Scanned-IsAdminOf : (m : Table User) (v : ℕ) → Scanned admin_id m v → IsAdminOf m v
unfolding IsAdminOf
Scanned-IsAdminOf m v (k, w, e, g) = let (kv, admin) = admin_id-some k v w g in rw (sym kv, e) admin

admins_found : (m : Table User) → IsKeyed m → All (IsAdminOf m) (scan admin_id m)
admins_found m k = All-map (Scanned-IsAdminOf m) (scan admin_id m) (scan-Scanned admin_id m k)

is_admin_row-found : (o : Option User) → is_admin_row o ≡ true → (w : User) × (o ≡ some w)
is_admin_row-found none h = cc
is_admin_row-found (some w) h = (w, refl)

above : (i v : ℕ) (m : Table User) → Above i m → IsAdminOf m v → i < v
unfolding IsAdminOf
above i v m a h = let (w, e) = is_admin_row-found (find v m) h in find-Above i v w m a e

-- Two ids of admins differ.
different :
    (m : Table User) (u v : ℕ) (rest : List ℕ) → IsKeyed m → scan admin_id m ≡ u ∷ v ∷ rest → u < v
unfolding scan
different [] u v rest k = λ e. cc
different ((i, w) ∷ m) u v rest k = elim (Bool-cases w.is_admin) [
  | inl t ↦ rw t (λ e.
      (let tail : scan admin_id m ≡ v ∷ rest = cc in
        let head : i ≡ u = cc in
        let found = subst (All (IsAdminOf m)) tail (admins_found m k.1) in
        subst (λ x. x < v) head (above i v m k.0 found.0)))
  | inr f ↦ rw f (different m u v rest k.1)
]

two_admins {ℓ} : {A : Type ℓ} (x y : ℕ) → x ≡ y → x < y → A
two_admins x y h l = let bad : ⊥ = omega arith in elim bad [ ]

owner_among_admins :
    (a : Accounts) (u : ℕ) (l : List ℕ)
    → IsValid a
    → scan admin_id a.users ≡ l
    → (owner_of l ≡ done (some u)) ↔ (IsAdminOf a.users u)
unfolding owner_of IsAdminOf admins
owner_among_admins a u [] v e = (λ h. cc, λ h. absurd (NoAdmin-nil a e u) h)
owner_among_admins a u (x ∷ []) v e =
    let found = (subst (All (IsAdminOf a.users)) e (admins_found a.users v.keyed)).0 in
    (
      λ h. (let same : x ≡ u = cc in subst (IsAdminOf a.users) same found),
      λ h. ap (λ z. done (some z)) (v.one_admin x u found h),
    )
owner_among_admins a u (x ∷ y ∷ rest) v e =
    let found = subst (All (IsAdminOf a.users)) e (admins_found a.users v.keyed) in
    two_admins x y (v.one_admin x y found.0 found.1.0) (different a.users x y rest v.keyed e)

-- On valid accounts the owner is the one admin: the lookup answers a user exactly if it is an
-- admin.
pub owner_user_id-is_admin_row :
    (a : Accounts) (u : ℕ)
    → IsValid a
    → (owner_user_id a ≡ done (some u)) ↔ (is_admin_row (find u a.users) ≡ true)
unfolding owner_user_id admins IsAdminOf
owner_user_id-is_admin_row a u v = owner_among_admins a u (scan admin_id a.users) v refl
