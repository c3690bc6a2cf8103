-- ===== src/Supervisor/Backoff.antt =====
-- How the backoff spaces the restarts of a contour.
use aistat.Prelude.{
  ℕ, suc, zero, ◌+◌, ◌^◌, ◌≤◌, ◌<◌, ◌≡◌, ◌≢◌, refl, false, Option, none, some, List, [], ◌∷◌, ◌++◌,
  arith, length, ltb, subst, Bool-cases, inl, inr,
}
use native.Mathlib.Omega.{pow_step}
use native.Mathlib.Nat.{mul-le-mul_left}
use aistat.Supervisor.{
  Settings, ChildState, Failure, crash_loop, Pass, backoff_for, prune, spawn_child, respawn,
}

backoff_mono : (c : Settings) (n : ℕ) → backoff_for c n ≤ backoff_for c (suc n)
unfolding backoff_for
backoff_mono c n =
    let doubled : 2 ^ n ≤ 2 ^ suc n = omega (arith, pow_step 2 n) in
    omega (arith, mul-le-mul_left c.backoff_base doubled)

positions : (k : ℕ) → suc k ≡ suc (0 + k)
positions k = omega arith

-- The time of the latest restart.
unfoldable pub last : ℕ → List ℕ → ℕ
last r [] = r
last r (r' ∷ l) = last r' l

module _ (c : Settings) where
  -- Each restart of the list comes later than the one before by the backoff of its position.
  abbrev pub Spaced : ℕ → ℕ → List ℕ → Type 0
  Spaced n r [] = Unit
  Spaced n r (r' ∷ l) = (r + backoff_for c (suc n) < r') × Spaced (suc n) r' l

  -- The deque of a running contour at time `t`.
  abbrev pub Paced : List ℕ → ℕ → Type 0
  Paced [] t = Unit
  Paced (r ∷ l) t = Spaced 0 r l × (last r l ≤ t)

  -- The deque of a contour that waits until `due`.
  abbrev pub Ready : List ℕ → ℕ → Type 0
  Ready [] due = Unit
  Ready (r ∷ l) due = Spaced 0 r l × (last r l + backoff_for c (suc (length l)) < due)

  Spaced-down : (n r : ℕ) (l : List ℕ) → Spaced (suc n) r l → Spaced n r l
  Spaced-down n r [] s = tt
  Spaced-down n r (r' ∷ l) s =
      (omega (arith, s.0, backoff_mono c (suc n)), Spaced-down (suc n) r' l s.1)

  prune-Ready : (now due : ℕ) (l : List ℕ) → Ready l due → Ready (prune c now l) due
  unfolding prune last
  prune-Ready now due [] k = tt
  prune-Ready now due (r ∷ []) k = ground arith
  prune-Ready now due (r ∷ r' ∷ l) k =
      let rest =
        prune-Ready now due (r' ∷ l)
          (Spaced-down 0 r' l k.0.1, omega (arith, k.1, backoff_mono c (suc (length l)))) in
      ground (arith, rest)

  -- What `popleft` leaves is inside the window.
  abbrev Recent : ℕ → List ℕ → Type 0
  Recent now [] = Unit
  Recent now (r ∷ l) = now ≤ r + c.restart_window

  prune-Recent : (now : ℕ) (l : List ℕ) → Recent now (prune c now l)
  unfolding prune
  prune-Recent now [] = tt
  prune-Recent now (r ∷ l) = ground (arith, prune-Recent now l)

  Spaced-append :
      (n r t : ℕ) (l : List ℕ)
      → Spaced n r l
      → last r l + backoff_for c (suc (n + length l)) < t
      → Spaced n r (l ++ t ∷ [])
  unfolding last
  Spaced-append n r t [] s h = (ground arith, tt)
  Spaced-append n r t (r' ∷ l) s h = (s.0, Spaced-append (suc n) r' t l s.1 (ground arith))

  last_append : (r t : ℕ) (l : List ℕ) → last r (l ++ t ∷ []) ≡ t
  unfolding last
  last_append r t [] = refl
  last_append r t (r' ∷ l) = last_append r' t l

  append-Paced : (due now : ℕ) (l : List ℕ) → Ready l due → due ≤ now → Paced (l ++ now ∷ []) now
  unfolding last
  append-Paced due now [] k h = (tt, omega arith)
  append-Paced due now (r ∷ l) k h = (
    Spaced-append 0 r now l k.0
        (subst (λ m. last r l + backoff_for c m < now) (positions (length l)) (omega (arith, k.1))),
    omega (arith, last_append r now l),
  )

  -- The least time between a restart and the one that comes `k` later.
  abbrev pub span : ℕ → ℕ → ℕ
  span n zero = 0
  span n (suc k) = backoff_for c (suc n) + span (suc n) k

  span_mono : (n k m : ℕ) → k ≤ m → span n k ≤ span n m
  span_mono n zero m h = omega arith
  span_mono n (suc k) zero h = absurd (omega arith)
  span_mono n (suc k) (suc m) h = omega (arith, span_mono (suc n) k m (omega arith))

  Spaced-span : (n r : ℕ) (l : List ℕ) → Spaced n r l → r + span n (length l) ≤ last r l
  unfolding last
  Spaced-span n r [] s = omega arith
  Spaced-span n r (r' ∷ l) s = omega (arith, s.0, Spaced-span (suc n) r' l s.1)

  -- A deque that starts inside the window is not longer than the limit, where the
  -- backoff of that many restarts fills the window.
  few :
      (r now : ℕ) (l : List ℕ)
      → 0 < c.max_restarts
      → c.restart_window ≤ span 0 c.max_restarts
      → Spaced 0 r l
      → last r l ≤ now
      → now ≤ r + c.restart_window
      → length l < c.max_restarts
  unfolding last
  few r now [] p w s b k = p
  few r now (r' ∷ l) p w s b k = elim (Bool-cases (ltb (suc (length l)) c.max_restarts)) [
    | inl t ↦ ground arith
    | inr f ↦
        let m : span 0 c.max_restarts ≤ span 0 (suc (length l)) =
          span_mono 0 c.max_restarts (suc (length l)) (ground arith) in
        absurd (omega (arith, m, w, k, b, s.0, Spaced-span 1 r' l s.1))
  ]

  abbrev pub Phase : ℕ → List ℕ → ℕ → Option ℕ → Type 0
  Phase t restarts due none = Ready restarts due
  Phase t restarts due (some pid) = Paced restarts t

  -- A contour at time `t`.
  abbrev pub IsPaced : ℕ → ChildState → Type 0
  IsPaced t s = Phase t s.restarts s.restart_at s.proc

  pub Paced-later : (t now : ℕ) (l : List ℕ) → t < now → Paced l t → Paced l now
  Paced-later t now [] h k = tt
  Paced-later t now (r ∷ l) h k = (k.0, omega (arith, k.1))

  pub Paced-reaped :
      (t now : ℕ) (l : List ℕ) → t < now → Paced l t → Ready l (now + backoff_for c (length l))
  Paced-reaped t now [] h k = tt
  Paced-reaped t now (r ∷ l) h k = (k.0, omega (arith, k.1))

  -- A step on a contour at time `now` is no crash loop, and keeps the pace.
  abbrev pub Fine : ℕ → ChildState × Option Failure → Type 0
  Fine now (s, e) = (e ≢ some crash_loop) × (e ≡ none → IsPaced now s)

  spawned-Fine :
      (p : Pass) (s : ChildState) (o : Option ℕ)
      → p.spawn s.contour ≡ o
      → Paced s.restarts p.now
      → Fine p.now (spawn_child p s)
  unfolding spawn_child
  spawned-Fine p s none e k = rw (e, spawn_child) ((λ h. cc), (λ h. cc))
  spawned-Fine p s (some pid) e k = rw (e, spawn_child) ((λ h. cc), (λ h. k))

  pub spawn-Fine :
      (p : Pass) (s : ChildState) → Paced s.restarts p.now → Fine p.now (spawn_child p s)
  spawn-Fine p s k = spawned-Fine p s (p.spawn s.contour) refl k

  module _ (positive : 0 < c.max_restarts) (slow : c.restart_window ≤ span 0 c.max_restarts) where
    counted_few :
        (due now : ℕ) (l : List ℕ)
        → Ready l due
        → Recent now l
        → due ≤ now
        → length (l ++ now ∷ []) ≤ c.max_restarts
    counted_few due now [] k f h = positive
    counted_few due now (r ∷ l) k f h =
        let (s, b) = append-Paced due now (r ∷ l) k h in
        few r now (l ++ now ∷ []) positive slow s b f

    pub respawn-Fine :
        (p : Pass) (s : ChildState)
        → Ready s.restarts s.restart_at
        → s.restart_at ≤ p.now
        → Fine p.now (respawn c p s)
    unfolding respawn
    respawn-Fine p s k h =
        let r = prune-Ready p.now s.restart_at s.restarts k in
        let within =
          counted_few s.restart_at p.now (prune c p.now s.restarts) r
            (prune-Recent p.now s.restarts) h in
        let paced = append-Paced s.restart_at p.now (prune c p.now s.restarts) r h in
        let short : ltb c.max_restarts (length (prune c p.now s.restarts ++ p.now ∷ [])) ≡ false =
          ground (arith, within) in
        rw (short, respawn)
          (spawn-Fine p (record s { restarts = prune c p.now s.restarts ++ p.now ∷ [] }) paced)
