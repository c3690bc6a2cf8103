-- ===== src/Security/Throttle.antt =====
-- The login throttle: five failures in a window lock the client.
use aistat.Prelude.{
  padded, moved, one_more, ℕ, suc, ◌+◌, ◌-◌, ◌≡◌, ◌≤◌, ◌<◌, refl, String, none, some, arith, List,
  [], ◌∷◌, if◌then◌else◌, ltb, length, Bool-cases, ltb→lt, inl, inr, subst,
}
use aistat.Security.Rows.{look, look-put}
use aistat.Security.{
  SecurityDb, LoginThrottle, login_window_seconds, login_lock_seconds, login_max_failures,
  failure_row, retry_row, login_retry_after, record_login_failure,
}

retry_of : (now : ℕ) (row : LoginThrottle) → (retry_row now (some row)).1 ≡ row.locked_until - now
unfolding retry_row
retry_of now row = ground arith

-- What a failure answers is what the client is told when it asks at once.
pub record_login_failure-login_retry_after :
    (key : String) (now : ℕ) (db : SecurityDb)
    → (login_retry_after key now (record_login_failure key now db).0).1
      ≡ (record_login_failure key now db).1
unfolding login_retry_after record_login_failure
record_login_failure-login_retry_after key now db =
    let row = failure_row now (look key db.login_throttle) in
    rw (look-put key row db.login_throttle) (retry_of now row)

-- Failures of one client, at the given times.
unfoldable pub fail_at : String → List ℕ → SecurityDb → SecurityDb
fail_at key [] db = db
fail_at key (t ∷ ts) db = fail_at key ts (record_login_failure key t db).0

-- Times in order, from `t` on and before `limit`.
abbrev pub Within : ℕ → ℕ → List ℕ → Type 0
Within limit t [] = Unit
Within limit t (u ∷ us) = (t ≤ u) × (u < limit) × Within limit u us

unfoldable pub latest : ℕ → List ℕ → ℕ
latest t [] = t
latest t (u ∷ us) = latest u us

-- The row after `n` failures of the window of `start`, the latest at `t`.
record IsCounted (start n t : ℕ) (row : LoginThrottle) : Type 0 where
  window : row.window_started ≡ start
  count : row.failures ≡ n
  free : n < login_max_failures → row.locked_until ≡ 0
  lock : login_max_failures ≤ n → row.locked_until ≡ t + login_lock_seconds

IsCounted-first : (t : ℕ) → IsCounted t 1 t (failure_row t none)
unfolding failure_row
IsCounted-first t = record {
  window = refl;
  count = refl;
  free = λ h. refl;
  lock = λ h. absurd (omega (arith, h));
}

IsCounted-next :
    (start n t u : ℕ) (row : LoginThrottle)
    → IsCounted start n t row
    → t ≤ u
    → u < start + login_window_seconds
    → IsCounted start (suc n) u (failure_row u (some row))
unfolding failure_row
IsCounted-next start n t u row k h l = record {
  window = ground (arith, k.window);
  count = ground (arith, k.window, k.count);
  free = λ b. ground (arith, k.window, k.count, k.free);
  lock = λ b. ground (arith, k.window, k.count, k.free, k.lock);
}

IsCounted-all :
    (key : String) (us : List ℕ) (start n t : ℕ) (db : SecurityDb) (row : LoginThrottle)
    → look key db.login_throttle ≡ some row
    → IsCounted start n t row
    → Within (start + login_window_seconds) t us
    → (row' : LoginThrottle) × (look key (fail_at key us db).login_throttle ≡ some row')
      × IsCounted start (n + length us) (latest t us) row'
unfolding fail_at latest record_login_failure
IsCounted-all key [] start n t db row e k w =
    (row, e, subst (λ m. IsCounted start m t row) (padded n) k)
IsCounted-all key (u ∷ us) start n t db row e k w =
    let db' : SecurityDb = (record_login_failure key u db).0 in
    let found : look key db'.login_throttle ≡ some (failure_row u (some row)) =
      rw e (look-put key (failure_row u (some row)) db.login_throttle) in
    subst
      (λ m.
        (row' : LoginThrottle) × (look key (fail_at key us db').login_throttle ≡ some row')
        × IsCounted start m (latest u us) row')
      (moved n (length us))
      (IsCounted-all key us start (suc n) u db' (failure_row u (some row)) found
        (IsCounted-next start n t u row k w.0 w.1) w.2)

retry_counted :
    (start n t now : ℕ) (row : LoginThrottle)
    → IsCounted start n t row
    → t ≤ now
    → (retry_row now (some row)).1
      ≡ (if ltb n login_max_failures then 0 else (t + login_lock_seconds) - now)
unfolding retry_row
retry_counted start n t now row k h = elim (Bool-cases (ltb n login_max_failures)) [
  | inl b ↦ ground (arith, k.free (ltb→lt n login_max_failures b))
  | inr b ↦ let m : login_max_failures ≤ n = ground arith in ground (arith, k.lock m)
]

-- For a client without a row, and failures in order that all fall into the window of the first: up
-- to four of them leave the client free, and from the fifth on the client waits until the lock of
-- the latest failure ends.
pub fail_at-login_retry_after :
    (key : String) (t : ℕ) (us : List ℕ) (now : ℕ) (db : SecurityDb)
    → look key db.login_throttle ≡ none
    → Within (t + login_window_seconds) t us
    → latest t us ≤ now
    → (login_retry_after key now (fail_at key (t ∷ us) db)).1 ≡ (
        if ltb (suc (length us)) login_max_failures
        then 0
        else (latest t us + login_lock_seconds) - now)
unfolding login_retry_after record_login_failure fail_at
fail_at-login_retry_after key t us now db e w h =
    let db' : SecurityDb = (record_login_failure key t db).0 in
    let found : look key db'.login_throttle ≡ some (failure_row t none) =
      rw e (look-put key (failure_row t none) db.login_throttle) in
    let (row, f, k) =
      IsCounted-all key us t 1 t db' (failure_row t none) found (IsCounted-first t) w in
    let counted : IsCounted t (suc (length us)) (latest t us) row =
      subst (λ m. IsCounted t m (latest t us) row) (one_more (length us)) k in
    rw f (retry_counted t (suc (length us)) (latest t us) now row counted h)
