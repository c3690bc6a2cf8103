-- ===== src/Handoff/Nonces.antt =====
-- That a captured worker request cannot be replayed.
use aistat.Prelude.{
  ℕ, ◌+◌, ◌*◌, ◌≡◌, ◌≤◌, ◌<◌, refl, String, Bool, true, false, ◌&&◌, List, [], ◌∷◌, All, All-map,
  leb, arith, str_eq, eq_refl, if◌then◌else◌, Bool-cases, inl, inr, ◌⊎◌,
}
use aistat.Handoff.State.{Host, worker_nonce_ttl_factor}
use aistat.Handoff.Pull.{forget, is_seen, consume_worker_nonce}

-- The test of the timestamp in `verify_worker_request`: abs(now - timestamp) <= max_age.
unfoldable pub is_fresh : ℕ → ℕ → ℕ → Bool
is_fresh timestamp max_age now = leb now (timestamp + max_age) && leb timestamp (now + max_age)

-- The requests that reach the nonce table, each with its time.
unfoldable pub consume_all : ℕ → List (ℕ × String) → Host → Host
consume_all max_age [] h = h
consume_all max_age ((now, nonce) ∷ rest) h =
    consume_all max_age rest (consume_worker_nonce nonce max_age now h).0

-- The table holds the nonce with a time not before `at`.
Holds : String → ℕ → List (String × ℕ) → Type 0
Holds nonce at [] = ⊥
Holds nonce at ((n, seen_at) ∷ rest) =
    ((str_eq n nonce ≡ true) × (at ≤ seen_at)) ⊎ Holds nonce at rest

Holds-forget :
    (nonce : String) (at ttl now : ℕ) (l : List (String × ℕ))
    → now < at + ttl
    → Holds nonce at l
    → Holds nonce at (forget ttl now l)
unfolding Holds forget
Holds-forget nonce at ttl now [] b k = k
Holds-forget nonce at ttl now ((n, seen_at) ∷ rest) b (inl k) =
    let young : leb (seen_at + ttl) now ≡ false = ground (arith, k.1) in rw young (inl k)
Holds-forget nonce at ttl now ((n, seen_at) ∷ rest) b (inr k) =
    dropped (leb (seen_at + ttl) now) (forget ttl now rest) (Holds-forget nonce at ttl now rest b k)
  where
    dropped :
        (old : Bool) (kept : List (String × ℕ))
        → Holds nonce at kept
        → Holds nonce at (if old then kept else (n, seen_at) ∷ kept)
    dropped true kept x = x
    dropped false kept x = inr x

Holds-is_seen :
    (nonce : String) (at : ℕ) (l : List (String × ℕ)) → Holds nonce at l → is_seen nonce l ≡ true
unfolding Holds is_seen
Holds-is_seen nonce at [] k = absurd k
Holds-is_seen nonce at ((n, seen_at) ∷ rest) (inl k) = rw k.0 refl
Holds-is_seen nonce at ((n, seen_at) ∷ rest) (inr k) = ground (arith, Holds-is_seen nonce at rest k)

consume-Holds :
    (nonce other : String) (at max_age now : ℕ) (h : Host)
    → now < at + max_age * worker_nonce_ttl_factor
    → Holds nonce at h.nonces
    → Holds nonce at (consume_worker_nonce other max_age now h).0.nonces
unfolding consume_worker_nonce Holds
consume-Holds nonce other at max_age now h b k =
    let kept = forget (max_age * worker_nonce_ttl_factor) now h.nonces in
    elim (Bool-cases (is_seen other kept)) [
      | inl t ↦ rw (t, consume_worker_nonce) k
      | inr f ↦
          rw (f, consume_worker_nonce)
            (inr (Holds-forget nonce at (max_age * worker_nonce_ttl_factor) now h.nonces b k))
    ]

all-Holds :
    (nonce : String) (at max_age : ℕ) (us : List (ℕ × String)) (h : Host)
    → All (λ u. u.0 < at + max_age * worker_nonce_ttl_factor) us
    → Holds nonce at h.nonces
    → Holds nonce at (consume_all max_age us h).nonces
unfolding consume_all
all-Holds nonce at max_age [] h b k = k
all-Holds nonce at max_age ((now, other) ∷ us) h b k =
    all-Holds nonce at max_age us (consume_worker_nonce other max_age now h).0 b.1
      (consume-Holds nonce other at max_age now h b.0 k)

accepted-Holds :
    (nonce : String) (max_age now : ℕ) (h : Host)
    → (consume_worker_nonce nonce max_age now h).1 ≡ true
    → Holds nonce now (consume_worker_nonce nonce max_age now h).0.nonces
unfolding consume_worker_nonce Holds
accepted-Holds nonce max_age now h e =
    let kept = forget (max_age * worker_nonce_ttl_factor) now h.nonces in
    elim (Bool-cases (is_seen nonce kept)) [
      | inl t ↦ absurd (seen_twice t e)
      | inr f ↦ rw (f, consume_worker_nonce) (inl (eq_refl nonce, omega arith))
    ]
  where
    seen_twice :
        is_seen nonce (forget (max_age * worker_nonce_ttl_factor) now h.nonces) ≡ true
        → (consume_worker_nonce nonce max_age now h).1 ≡ true
        → ⊥
    seen_twice t = rw (t, consume_worker_nonce) (λ e. cc)

refused :
    (nonce : String) (at max_age t : ℕ) (h : Host)
    → t < at + max_age * worker_nonce_ttl_factor
    → Holds nonce at h.nonces
    → (consume_worker_nonce nonce max_age t h).1 ≡ false
unfolding consume_worker_nonce
refused nonce at max_age t h b k =
    rw
      (
        Holds-is_seen nonce at (forget (max_age * worker_nonce_ttl_factor) t h.nonces)
            (Holds-forget nonce at (max_age * worker_nonce_ttl_factor) t h.nonces b k),
        consume_worker_nonce,
      )
      refl

-- A request that was accepted at `now` is refused until the time to live of its nonce ends, whatever
-- other requests came in between.
pub consume_worker_nonce_again :
    (nonce : String) (max_age now t : ℕ) (us : List (ℕ × String)) (h : Host)
    → t < now + max_age * worker_nonce_ttl_factor
    → All (λ u. u.0 ≤ t) us
    → (consume_worker_nonce nonce max_age now h).1 ≡ true
    → (consume_worker_nonce nonce max_age t
        (consume_all max_age us (consume_worker_nonce nonce max_age now h).0)).1
      ≡ false
consume_worker_nonce_again nonce max_age now t us h soon b e =
    refused nonce now max_age t
      (consume_all max_age us (consume_worker_nonce nonce max_age now h).0) soon
      (all-Holds nonce now max_age us (consume_worker_nonce nonce max_age now h).0
        (All-map (λ u k. omega (arith, k, soon)) us b) (accepted-Holds nonce max_age now h e))
