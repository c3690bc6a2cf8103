-- ===== src/Accounts/Invariant.antt =====
-- The invariant of the account tables and the primitive steps that keep it.
use aistat.Prelude.{
  ℕ, ◌+◌, ◌≤◌, ◌<◌, ◌≡◌, refl, String, str_eq, ◌&&◌, Bool, true, false, Option, none, some, ◌==◌,
  ==_iff, Bool-cases, inl, inr, arith, subst, sym, ◌∙◌, is_some,
}
use aistat.Table.{
  Table, find, upsert, update, delete, find-upsert, find-update, find-delete, IsKeyed,
  upsert-IsKeyed, update-IsKeyed, delete-IsKeyed,
}
use aistat.Handoff.State.{Connection}
use mathlib.Core.Option
use aistat.Snapshots.{Watermark}
use aistat.Accounts.{
  User, Accounts, identity_of, is_admin_row, linked, inserted_user, promoted, purged, torn_down,
  teardown_of, tombstone, Teardown, pending, no_connection, was_revoked,
}
use aistat.Accounts.Identities.{IsUnique, unless, identity_of-without_user, without_user-IsUnique}

-- No key beyond the counter is in the table.
abbrev pub Issued {ℓ} : {V : Type ℓ} → ℕ → Table V → Type ℓ
Issued n m = (u : ℕ) → n < u → find u m ≡ none

pub record IsValid (a : Accounts) : Type 0 where
  -- the counter is ahead of every row that names a user, so an id never comes twice
  pub users_issued : Issued a.last_user_id a.users
  pub tenants_issued : Issued a.last_user_id a.tenants
  pub connections_issued : Issued a.last_user_id a.connections
  -- an external identity leads to a user
  pub owned :
      (p s : String) (u : ℕ)
      → identity_of p s a.identities ≡ some u
      → is_some (find u a.users) ≡ true
  pub keyed : IsKeyed a.users
  pub unique : IsUnique a.identities
  pub one_admin :
      (u v : ℕ)
      → is_admin_row (find u a.users) ≡ true
      → is_admin_row (find v a.users) ≡ true
      → u ≡ v

other : (k j : ℕ) → k < j → (k == j) ≡ false
other k j h = ground arith

module _ {ℓ} {V : Type ℓ} where
  pub Issued-upsert : (n k : ℕ) (v : V) (m : Table V) → Issued n m → n < k → Issued k (upsert k v m)
  Issued-upsert n k v m h l j g = rw (find-upsert, other k j g) (h j (omega arith))

  Issued-delete : (n k : ℕ) (m : Table V) → Issued n m → Issued n (delete k m)
  Issued-delete n k m h j l = elim (Bool-cases (k == j)) [
    | inl t ↦ rw (find-delete, t) refl
    | inr f ↦ rw (find-delete, f) (h j l)
  ]

  Issued-update : (n k : ℕ) (f : V → V) (m : Table V) → Issued n m → Issued n (update k f m)
  Issued-update n k f m h j l = elim (Bool-cases (k == j)) [
    | inl t ↦ rw (find-update, t, h j l) refl
    | inr n' ↦ rw (find-update, n') (h j l)
  ]

  Issued-insert : (n k : ℕ) (v : V) (m : Table V) → k ≤ n → Issued n m → Issued n (upsert k v m)
  Issued-insert n k v m l h j g =
      let f : (k == j) ≡ false = ground arith in rw (find-upsert, f) (h j g)

  pub Issued-later : (n k : ℕ) (m : Table V) → Issued n m → n ≤ k → Issued k m
  Issued-later n k m h l j g = h j (omega arith)

is_some-map {ℓ} : {A : Type ℓ} (f : A → A) (o : Option A) → is_some (Option.map f o) ≡ is_some o
is_some-map f none = refl
is_some-map f (some x) = refl

-- A new subject leads to the user, who is there.
linked-owned :
    (p s : String) (u : ℕ) (email : Option String) (now : ℕ) (a : Accounts)
    → is_some (find u a.users) ≡ true
    → IsValid a
    → (q t : String) (w : ℕ) → identity_of q t (linked p s u email now a).identities ≡ some w
    → is_some (find w a.users) ≡ true
unfolding identity_of
linked-owned p s u email now a f v q t w h = elim (Bool-cases (str_eq p q && str_eq s t)) [
  | inl b ↦ let e : u ≡ w = ground arith in subst (λ x. is_some (find x a.users) ≡ true) e f
  | inr b ↦ v.owned q t w (rw b at h)
]

pub linked-IsValid :
    (p s : String) (u : ℕ) (email : Option String) (now : ℕ) (a : Accounts)
    → identity_of p s a.identities ≡ none
    → is_some (find u a.users) ≡ true
    → IsValid a
    → IsValid (linked p s u email now a)
linked-IsValid p s u email now a e f v = record {
  users_issued = v.users_issued;
  tenants_issued = v.tenants_issued;
  connections_issued = v.connections_issued;
  owned = linked-owned p s u email now a f v;
  keyed = v.keyed;
  unique = (e, v.unique);
  one_admin = v.one_admin;
}

absurd {ℓ} : {A : Type ℓ} {b : Bool} → b ≡ false → b ≡ true → A
absurd h g = cc

pub inserted_user-IsValid :
    (now : ℕ) (name email : Option String) (admin : Bool) (a : Accounts)
    → (admin ≡ true → (u : ℕ) → is_admin_row (find u a.users) ≡ false)
    → IsValid a
    → IsValid (inserted_user now name email admin a)
inserted_user-IsValid now name email admin a k v = record {
  users_issued =
      Issued-upsert a.last_user_id (a.last_user_id + 1) _ a.users v.users_issued (omega arith);
  tenants_issued =
      Issued-later a.last_user_id (a.last_user_id + 1) a.tenants v.tenants_issued (omega arith);
  connections_issued =
      Issued-later a.last_user_id (a.last_user_id + 1) a.connections v.connections_issued
        (omega arith);
  owned = λ p s u h. elim (Bool-cases (a.last_user_id + 1 == u)) [
    | inl b ↦ rw (find-upsert, b) refl
    | inr b ↦ rw (find-upsert, b) (v.owned p s u h)
  ];
  keyed = upsert-IsKeyed (a.last_user_id + 1) _ a.users v.keyed;
  unique = v.unique;
  one_admin = λ u w.
      rw (find-upsert _ u, find-upsert _ w)
        (elim (Bool-cases (a.last_user_id + 1 == u)) [
          | inl b ↦ elim (Bool-cases (a.last_user_id + 1 == w)) [
            | inl c ↦ λ _ _. ground arith
            | inr c ↦ rw (b, c) (λ g h. absurd (k g w) h)
          ]
          | inr b ↦ elim (Bool-cases (a.last_user_id + 1 == w)) [
            | inl c ↦ rw (b, c) (λ g h. absurd (k h u) g)
            | inr c ↦ rw (b, c) (v.one_admin u w)
          ]
        ]);
}

promoted-is_some :
    (u w : ℕ) (m : Table User) → is_some (find w (update u promoted m)) ≡ is_some (find w m)
promoted-is_some u w m = rw find-update (elim (Bool-cases (u == w)) [
  | inl t ↦ rw t (is_some-map promoted (find w m))
  | inr f ↦ rw f refl
])

-- A row of a table in which nobody is an admin, after the promotion of another one.
not_promoted :
    (u w : ℕ) (m : Table User)
    → ((x : ℕ) → is_admin_row (find x m) ≡ false)
    → is_admin_row (find w (update u promoted m)) ≡ true
    → u ≡ w
not_promoted u w m k =
    rw find-update
      (elim (Bool-cases (u == w)) [ inl t ↦ λ _. (==_iff u w).0 t | inr f ↦ rw f (absurd (k w)) ])

pub promoted-IsValid :
    (u : ℕ) (a : Accounts)
    → ((x : ℕ) → is_admin_row (find x a.users) ≡ false)
    → IsValid a
    → IsValid (record a { users = update u promoted a.users })
promoted-IsValid u a k v = record {
  users_issued = Issued-update a.last_user_id u promoted a.users v.users_issued;
  tenants_issued = v.tenants_issued;
  connections_issued = v.connections_issued;
  owned = λ p s w h. promoted-is_some u w a.users ∙ v.owned p s w h;
  keyed = update-IsKeyed u promoted a.users v.keyed;
  unique = v.unique;
  one_admin = λ x y g h. sym (not_promoted u x a.users k g) ∙ not_promoted u y a.users k h;
}

-- A row that is there after a deletion was there before.
kept_admin :
    (u x : ℕ) (m : Table User)
    → is_admin_row (find x (delete u m)) ≡ true
    → is_admin_row (find x m) ≡ true
kept_admin u x m =
    rw find-delete
      (elim (Bool-cases (u == x)) [ inl t ↦ rw t (λ h. absurd refl h) | inr f ↦ rw f (λ h. h) ])

-- Only the tenants differ, and the new one belongs to a user that the counter knows.
pub with_tenant-IsValid :
    (u : ℕ) (row : Watermark) (a : Accounts)
    → u ≤ a.last_user_id
    → IsValid a
    → IsValid (record a { tenants = upsert u row a.tenants })
with_tenant-IsValid u row a h v = record {
  users_issued = v.users_issued;
  tenants_issued = Issued-insert a.last_user_id u row a.tenants h v.tenants_issued;
  connections_issued = v.connections_issued;
  owned = v.owned;
  keyed = v.keyed;
  unique = v.unique;
  one_admin = v.one_admin;
}

torn_down-Issued :
    (n u now : ℕ) (t : Teardown) (m : Table Connection)
    → Issued n m
    → Issued n (torn_down u now t m)
unfolding torn_down
torn_down-Issued n u now no_connection m h = Issued-delete n u m h
torn_down-Issued n u now was_revoked m h = Issued-delete n u m h
torn_down-Issued n u now pending m h = Issued-update n u (tombstone now) m h

unless-some : (u w : ℕ) (o : Option ℕ) → unless u o ≡ some w → ((u == w) ≡ false) × (o ≡ some w)
unless-some u w none = λ h. cc
unless-some u w (some x) = elim (Bool-cases (x == u)) [
  | inl t ↦ rw t (λ h. cc)
  | inr f ↦ rw f (λ h. (let e : x ≡ w = cc in ground arith, h))
]

pub purged-IsValid : (u now : ℕ) (a : Accounts) → IsValid a → IsValid (purged u now a)
unfolding purged
purged-IsValid u now a v = record {
  users_issued = Issued-delete a.last_user_id u a.users v.users_issued;
  tenants_issued = Issued-delete a.last_user_id u a.tenants v.tenants_issued;
  connections_issued =
      torn_down-Issued a.last_user_id u now (teardown_of (find u a.connections)) a.connections
        v.connections_issued;
  owned = λ p s w h.
      (let (d, e) =
          unless-some u w (identity_of p s a.identities)
            (sym (identity_of-without_user p s u a.identities v.unique) ∙ h) in
        rw (find-delete, d) (v.owned p s w e));
  keyed = delete-IsKeyed u a.users v.keyed;
  unique = without_user-IsUnique u a.identities v.unique;
  one_admin = λ x y g h. v.one_admin x y (kept_admin u x a.users g) (kept_admin u y a.users h);
}
