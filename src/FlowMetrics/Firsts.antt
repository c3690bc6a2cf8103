-- ===== src/FlowMetrics/Firsts.antt =====
-- The dictionary of implementations that the lineage builds: the first event of each.
use aistat.Prelude.{
  ℕ, ◌≡◌, ◌⊎◌, refl, String, Bool, true, false, Option, none, some, List, [], ◌∷◌, str_eq,
  if◌then◌else◌, Bool-cases, inl, inr, arith, ap, ◌∙◌, eq_iff, subst, sym,
}
use aistat.FlowMetrics.Lineage.{
  QaEvent, First, untimed, first, first_event, merged, precedes, str_before, note_implementation,
  implementations_of,
}

-- The events of an implementation, and all that the dictionary holds of it.
unfoldable pub events_for : String → List QaEvent → List QaEvent
events_for i [] = []
events_for i (e ∷ rest) =
    let others = events_for i rest in if str_eq e.implementation i then e ∷ others else others

unfoldable pub firsts : String → List (String × First) → List First
firsts i [] = []
firsts i ((j, f) ∷ rest) = let others = firsts i rest in if str_eq j i then f ∷ others else others

abbrev entered : QaEvent → List First → List First
entered e [] = first_event e.at e ∷ []
entered e (f ∷ l) = merged e.at e f ∷ l

unfoldable entered_all : List QaEvent → List First → List First
entered_all [] l = l
entered_all (e ∷ rest) l = entered_all rest (entered e l)

firsts-note_implementation :
    (i : String) (e : QaEvent) (d : List (String × First))
    → firsts i (note_implementation e d)
      ≡ (if str_eq e.implementation i then entered e (firsts i d) else firsts i d)
unfolding firsts note_implementation
firsts-note_implementation i e [] = refl
firsts-note_implementation i e ((j, f) ∷ rest) = elim (Bool-cases (str_eq j e.implementation)) [
  | inl t ↦
      let same : str_eq e.implementation i ≡ str_eq j i =
        ap (λ x. str_eq x i) (sym ((eq_iff j e.implementation).0 t)) in
      elim (Bool-cases (str_eq j i)) [ inl m ↦ rw (t, same, m) refl | inr m ↦ rw (t, same, m) refl ]
  | inr n ↦ elim (Bool-cases (str_eq e.implementation i)) [
    | inl m ↦
        let other : str_eq j i ≡ false =
          subst (λ x. str_eq j x ≡ false) ((eq_iff e.implementation i).0 m) n in
        rw (n, other, firsts-note_implementation i e rest, m) refl
    | inr m ↦ rw (n, firsts-note_implementation i e rest, m) refl
  ]
]

firsts-implementations_of :
    (i : String) (events : List QaEvent) (d : List (String × First))
    → firsts i (implementations_of events d) ≡ entered_all (events_for i events) (firsts i d)
unfolding implementations_of events_for entered_all
firsts-implementations_of i [] d = refl
firsts-implementations_of i (e ∷ rest) d =
    firsts-implementations_of i rest (note_implementation e d)
    ∙ elim (Bool-cases (str_eq e.implementation i)) [
      | inl t ↦ rw (firsts-note_implementation i e d, t) refl
      | inr n ↦ rw (firsts-note_implementation i e d, n) refl
    ]

-- The order of the events is transitive.
str_before_trans :
    (s t u : String) → str_before s t ≡ true → str_before t u ≡ true → str_before s u ≡ true
unfolding str_before
str_before_trans s String.[] u h k = cc
str_before_trans s (String.◌∷◌ d t) String.[] h k = cc
str_before_trans String.[] (String.◌∷◌ d t) (String.◌∷◌ e u) h k = refl
str_before_trans (String.◌∷◌ c s) (String.◌∷◌ d t) (String.◌∷◌ e u) h k =
    ground (arith, str_before_trans s t u)

precedes_trans :
    (a b c : ℕ × QaEvent) → precedes a b ≡ true → precedes b c ≡ true → precedes a c ≡ true
precedes_trans (t, e) (u, f) (v, g) h k =
    ground (arith, str_before_trans e.qa_issue_id f.qa_issue_id g.qa_issue_id)

not_before :
    (a b c : ℕ × QaEvent) (x : Bool)
    → precedes a b ≡ x
    → precedes b c ≡ true
    → precedes a c ≡ false
    → precedes a b ≡ false
not_before a b c false e h k = e
not_before a b c true e h k = let m : precedes a c ≡ true = precedes_trans a b c e h in cc

-- The first of the events of `S`: untimed if one of them has no time, else one that none of them
-- precedes.
abbrev pub IsFirst : (QaEvent → Type 0) → First → Type 0
IsFirst S untimed = (x : QaEvent) × S x × (x.at ≡ none)
IsFirst S (first t x) =
    S x
    × (x.at ≡ some t)
    × ((y : QaEvent) → S y → (u : ℕ) × (y.at ≡ some u) × (precedes (u, y) (t, x) ≡ false))

IsFirst-iff :
    {S T : QaEvent → Type 0} (f : First)
    → ((y : QaEvent) → S y → T y)
    → ((y : QaEvent) → T y → S y)
    → IsFirst S f
    → IsFirst T f
IsFirst-iff untimed h k (x, s, e) = (x, h x s, e)
IsFirst-iff (first t x) h k (s, e, m) = (h x s, e, λ y r. m y (k y r))

abbrev With : QaEvent → (QaEvent → Type 0) → QaEvent → Type 0
With e S y = (y ≡ e) ⊎ S y

str_before_irrefl : (s : String) → str_before s s ≡ false
unfolding str_before
str_before_irrefl String.[] = refl
str_before_irrefl (String.◌∷◌ c s) = ground (arith, str_before_irrefl s)

precedes_irrefl : (a : ℕ × QaEvent) → precedes a a ≡ false
precedes_irrefl (t, e) = ground (arith, str_before_irrefl e.qa_issue_id)

-- That an event does not come before another one, with its time.
abbrev NotBefore : QaEvent → ℕ × QaEvent → Type 0
NotBefore y b = (u : ℕ) × (y.at ≡ some u) × (precedes (u, y) b ≡ false)

new_first :
    (S : QaEvent → Type 0) (e : QaEvent) (t u : ℕ) (f : QaEvent)
    → e.at ≡ some t
    → precedes (t, e) (u, f) ≡ true
    → ((y : QaEvent) → S y → NotBefore y (u, f))
    → (y : QaEvent) → With e S y
    → NotBefore y (t, e)
new_first S e t u f h p k y (inl q) =
    subst (λ z. NotBefore z (t, e)) (sym q) (t, h, precedes_irrefl (t, e))
new_first S e t u f h p k y (inr s) =
    let (v, a, m) = k y s in
    (v, a, not_before (v, y) (t, e) (u, f) (precedes (v, y) (t, e)) refl p m)

old_first :
    (S : QaEvent → Type 0) (e : QaEvent) (t u : ℕ) (f : QaEvent)
    → e.at ≡ some t
    → precedes (t, e) (u, f) ≡ false
    → ((y : QaEvent) → S y → NotBefore y (u, f))
    → (y : QaEvent) → With e S y
    → NotBefore y (u, f)
old_first S e t u f h p k y (inl q) = subst (λ z. NotBefore z (u, f)) (sym q) (t, h, p)
old_first S e t u f h p k y (inr s) = k y s

merged-IsFirst :
    (S : QaEvent → Type 0) (e : QaEvent) (o : Option ℕ) (f : First)
    → e.at ≡ o
    → IsFirst S f
    → IsFirst (With e S) (merged o e f)
merged-IsFirst S e none f h k = (e, inl refl, h)
merged-IsFirst S e (some t) untimed h (x, s, k) = (x, inr s, k)
merged-IsFirst S e (some t) (first u f) h k = elim (Bool-cases (precedes (t, e) (u, f))) [
  | inl p ↦ rw p (inl refl, h, new_first S e t u f h p k.2)
  | inr p ↦ rw p (inr k.0, k.1, old_first S e t u f h p k.2)
]

first_event-IsFirst :
    (e : QaEvent) (o : Option ℕ) → e.at ≡ o → IsFirst (λ y. y ≡ e) (first_event o e)
first_event-IsFirst e none h = (e, refl, h)
first_event-IsFirst e (some t) h =
    (refl, h, λ y q. subst (λ z. NotBefore z (t, e)) (sym q) (t, h, precedes_irrefl (t, e)))

abbrev pub Among : QaEvent → List QaEvent → Type 0
Among y [] = ⊥
Among y (e ∷ rest) = (y ≡ e) ⊎ Among y rest

-- One entry, the first of the events, for an implementation with events, and none for another.
abbrev pub IsFirstOf : List QaEvent → List First → Type 0
IsFirstOf [] l = l ≡ []
IsFirstOf (e ∷ rest) l = (f : First) × (l ≡ f ∷ []) × IsFirst (λ y. Among y (e ∷ rest)) f

abbrev Later : List QaEvent → (QaEvent → Type 0) → QaEvent → Type 0
Later es S y = Among y es ⊎ S y

entered_all-IsFirst :
    (es : List QaEvent) (S : QaEvent → Type 0) (f : First)
    → IsFirst S f
    → (g : First) × (entered_all es (f ∷ []) ≡ g ∷ []) × IsFirst (Later es S) g
unfolding entered_all
entered_all-IsFirst [] S f k = (f, refl, IsFirst-iff f (λ y s. inr s) unmoved k)
  where
    unmoved : (y : QaEvent) → Later [] S y → S y
    unmoved y (inl a) = absurd a
    unmoved y (inr s) = s
entered_all-IsFirst (e ∷ rest) S f k =
    let (g, h, m) =
      entered_all-IsFirst rest (With e S) (merged e.at e f) (merged-IsFirst S e e.at f refl k) in
    (g, h, IsFirst-iff g outward inward m)
  where
    outward : (y : QaEvent) → Later rest (With e S) y → Later (e ∷ rest) S y
    outward y (inl a) = inl (inr a)
    outward y (inr (inl q)) = inl (inl q)
    outward y (inr (inr s)) = inr s

    inward : (y : QaEvent) → Later (e ∷ rest) S y → Later rest (With e S) y
    inward y (inl (inl q)) = inr (inl q)
    inward y (inl (inr a)) = inl a
    inward y (inr s) = inr (inr s)

entered_all-IsFirstOf : (es : List QaEvent) → IsFirstOf es (entered_all es [])
unfolding entered_all
entered_all-IsFirstOf [] = refl
entered_all-IsFirstOf (e ∷ rest) =
    let (g, h, m) =
      entered_all-IsFirst rest (λ y. y ≡ e) (first_event e.at e)
        (first_event-IsFirst e e.at refl) in
    (g, h, IsFirst-iff g outward inward m)
  where
    outward : (y : QaEvent) → Later rest (λ z. z ≡ e) y → Among y (e ∷ rest)
    outward y (inl a) = inr a
    outward y (inr q) = inl q

    inward : (y : QaEvent) → Among y (e ∷ rest) → Later rest (λ z. z ≡ e) y
    inward y (inl q) = inr q
    inward y (inr a) = inl a

pub firsts-IsFirstOf :
    (i : String) (events : List QaEvent)
    → IsFirstOf (events_for i events) (firsts i (implementations_of events []))
unfolding firsts
firsts-IsFirstOf i events =
    subst (IsFirstOf (events_for i events)) (sym (firsts-implementations_of i events []))
      (entered_all-IsFirstOf (events_for i events))
