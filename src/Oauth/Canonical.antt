-- ===== src/Oauth/Canonical.antt =====
-- The canonical email is stable: normalizing it again changes nothing, and it is short and visible.
use Prim.Native.Char.{Char, code}
use aistat.Prelude.{
  size, all_codes, ℕ, ◌≤◌, ◌≡◌, refl, String, Bool, true, false, ◌&&◌, ◌||◌, Option, none, some,
  List, [], ◌∷◌, ltb, ◌==◌, Bool-cases, inl, inr, arith, ap, ◌∙◌, sym, subst, ==_iff,
}
use aistat.Oauth.Email.{
  max_email_length, trim_start, trim_onto, trim_end, trim, is_alphanumeric, is_atext, before_code,
  after_code, is_dot_atom, extended, split_dots, is_label, all_labels, is_local, is_domain,
  is_usable, normalize_email,
}

trim_end-trim_onto :
    (c : Char) (s : String) → trim_end s ≡ s → trim_end (trim_onto c s) ≡ trim_onto c s
unfolding trim_end
trim_end-trim_onto c String.[] h = elim (Bool-cases (code c == 32)) [
  | inl t ↦ rw t refl
  | inr f ↦ rw (f, f) refl
]
trim_end-trim_onto c (String.◌∷◌ d s) h = ap (trim_onto c) h

trim_end_again : (s : String) → trim_end (trim_end s) ≡ trim_end s
unfolding trim_end
trim_end_again String.[] = refl
trim_end_again (String.◌∷◌ c s) = trim_end-trim_onto c (trim_end s) (trim_end_again s)

-- A text that does not begin with a space.
abbrev IsTrimmed : String → Type 0
IsTrimmed s = trim_start s ≡ s

trim_start-IsTrimmed : (s : String) → IsTrimmed (trim_start s)
unfolding trim_start
trim_start-IsTrimmed String.[] = refl
trim_start-IsTrimmed (String.◌∷◌ c s) = elim (Bool-cases (code c == 32)) [
  | inl t ↦ rw t (trim_start-IsTrimmed s)
  | inr f ↦ rw (f, f) refl
]

trim_onto-IsTrimmed : (c : Char) (s : String) → (code c == 32) ≡ false → IsTrimmed (trim_onto c s)
unfolding trim_start
trim_onto-IsTrimmed c String.[] f = rw (f, f) refl
trim_onto-IsTrimmed c (String.◌∷◌ d s) f = rw f refl

-- The characters of a trimmed text begin with one that is no space.
trim_end-IsTrimmed : (s : String) → IsTrimmed (trim_end (trim_start s))
unfolding trim_start trim_end
trim_end-IsTrimmed String.[] = refl
trim_end-IsTrimmed (String.◌∷◌ c s) = elim (Bool-cases (code c == 32)) [
  | inl t ↦ rw t (trim_end-IsTrimmed s)
  | inr f ↦ rw f (trim_onto-IsTrimmed c (trim_end s) f)
]

trim_again : (s : String) → trim (trim s) ≡ trim s
unfolding trim
trim_again s = ap trim_end (trim_end-IsTrimmed s) ∙ trim_end_again (trim_start s)

abbrev pub is_visible : ℕ → Bool
is_visible c = ltb 32 c && ltb c 127

and_intro : {a b : Bool} → a ≡ true → b ≡ true → (a && b) ≡ true
and_intro h g = rw (h, g) refl

and_left : (a b : Bool) → (a && b) ≡ true → a ≡ true
and_left true b h = refl
and_left false b h = h

and_right : (a b : Bool) → (a && b) ≡ true → b ≡ true
and_right true b h = h
and_right false b h = cc

visible_atext : (c : ℕ) → is_atext c ≡ true → is_visible c ≡ true
visible_atext c h = ground arith

visible_ldh : (c : ℕ) → (is_alphanumeric c || c == 45) ≡ true → is_visible c ≡ true
visible_ldh c h = ground arith

visible_at : (k c : ℕ) → is_visible k ≡ true → (c == k) ≡ true → is_visible c ≡ true
visible_at k c h g = subst (λ x. is_visible x ≡ true) (sym ((==_iff c k).0 g)) h

dot_atom_visible :
    (within : Bool) (s : String) → is_dot_atom within s ≡ true → all_codes is_visible s ≡ true
unfolding is_dot_atom all_codes
dot_atom_visible within String.[] = λ h. refl
dot_atom_visible within (String.◌∷◌ c s) = elim (Bool-cases (is_atext (code c))) [
  | inl t ↦ rw t (λ h. and_intro (visible_atext (code c) t) (dot_atom_visible true s h))
  | inr f ↦ elim (Bool-cases (code c == 46 && within)) [
    | inl d ↦
        rw (f, d)
          (λ h.
            and_intro (visible_at 46 (code c) refl (and_left (code c == 46) within d))
              (dot_atom_visible false s h))
    | inr d ↦ rw (f, d) (λ h. cc)
  ]
]

-- Letters, digits and hyphens.
is_ldh : String → Bool
is_ldh s = all_codes (λ c. is_alphanumeric c || c == 45) s

ldh : List String → Bool
ldh [] = true
ldh (s ∷ rest) = is_ldh s && ldh rest

ldh-extended :
    (c : Char) (l : List String)
    → ldh (extended c l) ≡ true
    → ((is_alphanumeric (code c) || code c == 45) ≡ true) × (ldh l ≡ true)
unfolding ldh is_ldh all_codes
ldh-extended c [] h = (and_left _ true (and_left _ true h), refl)
ldh-extended c (s ∷ rest) h =
    let head = and_left (is_ldh (String.◌∷◌ c s)) (ldh rest) h in
    (
      and_left (is_alphanumeric (code c) || code c == 45) (is_ldh s) head,
      and_intro (and_right (is_alphanumeric (code c) || code c == 45) (is_ldh s) head)
          (and_right (is_ldh (String.◌∷◌ c s)) (ldh rest) h),
    )

domain_visible : (s : String) → ldh (split_dots s) ≡ true → all_codes is_visible s ≡ true
unfolding split_dots all_codes ldh is_ldh
domain_visible String.[] = λ h. refl
domain_visible (String.◌∷◌ c s) = elim (Bool-cases (code c == 46)) [
  | inl d ↦ rw d (λ h. and_intro (visible_at 46 (code c) refl d) (domain_visible s h))
  | inr d ↦ rw d (λ h.
      (let (a, b) = ldh-extended c (split_dots s) h in
        and_intro (visible_ldh (code c) a) (domain_visible s b)))
]

label_is_ldh : (s : String) → is_label s ≡ true → is_ldh s ≡ true
unfolding is_label is_ldh
label_is_ldh s h = ground arith

label_ldh : (l : List String) → all_labels l ≡ true → ldh l ≡ true
unfolding all_labels ldh
label_ldh [] = λ h. refl
label_ldh (s ∷ rest) = λ h.
    and_intro (label_is_ldh s (and_left (is_label s) (all_labels rest) h))
      (label_ldh rest (and_right (is_label s) (all_labels rest) h))

sides_visible :
    (s : String)
    → all_codes is_visible (before_code 64 s) ≡ true
    → all_codes is_visible (after_code 64 s) ≡ true
    → all_codes is_visible s ≡ true
unfolding before_code after_code all_codes
sides_visible String.[] = λ h g. refl
sides_visible (String.◌∷◌ c s) = elim (Bool-cases (code c == 64)) [
  | inl t ↦ rw t (λ h g. and_intro (visible_at 64 (code c) refl t) g)
  | inr f ↦ rw f (λ h g.
      and_intro (and_left (is_visible (code c)) _ h)
        (sides_visible s (and_right (is_visible (code c)) _ h) g))
]

usable_visible :
    (t : String)
    → is_usable t ≡ true
    → (size t ≤ max_email_length) × (all_codes is_visible t ≡ true)
unfolding is_usable is_local is_domain
usable_visible t h =
    let local : is_dot_atom false (before_code 64 t) ≡ true = ground arith in
    let labels : all_labels (split_dots (after_code 64 t)) ≡ true = ground arith in
    (
      ground arith,
      sides_visible t (dot_atom_visible false (before_code 64 t) local)
          (domain_visible (after_code 64 t) (label_ldh (split_dots (after_code 64 t)) labels)),
    )

accepted :
    (s t : String)
    → trim s ≡ s
    → is_usable s ≡ true
    → s ≡ t
    → (size t ≤ max_email_length)
      × (all_codes is_visible t ≡ true)
      × (normalize_email (some t) ≡ some t)
unfolding normalize_email
accepted s t k u e =
    let (a, b) = usable_visible s u in
    subst
      (λ x.
        (size x ≤ max_email_length)
        × (all_codes is_visible x ≡ true)
        × (normalize_email (some x) ≡ some x))
      e (a, b, rw (k, u) refl)

-- An email that is accepted is short, has visible ASCII characters only, and is accepted as it is
-- when it comes again.
pub normalize_email_again :
    (email : Option String) (t : String)
    → normalize_email email ≡ some t
    → (size t ≤ max_email_length)
      × (all_codes is_visible t ≡ true)
      × (normalize_email (some t) ≡ some t)
unfolding normalize_email
normalize_email_again none t = λ h. cc
normalize_email_again (some email) t = elim (Bool-cases (is_usable (trim email))) [
  | inl u ↦
      rw u (λ h. accepted (trim email) t (trim_again email) u (let e : trim email ≡ t = cc in e))
  | inr f ↦ rw f (λ h. cc)
]
