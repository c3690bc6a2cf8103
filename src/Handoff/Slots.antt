-- ===== src/Handoff/Slots.antt =====
-- How many submissions a window grants.
use aistat.Prelude.{
  padded, moved, one_more, ℕ, suc, ◌+◌, ◌-◌, ◌≡◌, ◌<◌, refl, Option, none, some, List, [], ◌∷◌,
  arith, ltb, min, length, if◌then◌else◌, subst, ap, ◌∙◌, ==_refl,
}
use aistat.Table.{find, find-upsert}
use aistat.Tenant.{canonical_tenant_id, int}
use aistat.Handoff.State.{Host, Throttle, ok, connection_window_seconds, connection_max_submissions}
use aistat.Handoff.Intake.{reserve_row, write_throttle, reserve_connection_submission}

-- The row after `n` attempts in the window of `start`.
record IsUsed (start n : ℕ) (row : Throttle) : Type 0 where
  window : row.window_started ≡ start
  count : row.submissions ≡ min n connection_max_submissions

-- Attempts of one user, at the given times.
unfoldable pub attempt_at : ℕ → List ℕ → Host → Host
attempt_at u [] h = h
attempt_at u (t ∷ ts) h = attempt_at u ts (reserve_connection_submission (int u) t h).0

abbrev pub Inside : ℕ → List ℕ → Type 0
Inside limit [] = Unit
Inside limit (t ∷ ts) = (t < limit) × Inside limit ts

kept_or : Throttle → Option Throttle → Throttle
kept_or row none = row
kept_or row (some new) = new

next-IsUsed :
    (start n now : ℕ) (row : Throttle)
    → IsUsed start n row
    → now < start + connection_window_seconds
    → IsUsed start (suc n) (kept_or row (reserve_row now (some row)).0)
unfolding kept_or reserve_row
next-IsUsed start n now row k b = record {
  window = ground (arith, k.window);
  count = ground (arith, k.window, k.count);
}

answer_used :
    (start n now : ℕ) (row : Throttle)
    → IsUsed start n row
    → now < start + connection_window_seconds
    → (reserve_row now (some row)).1
      ≡ (if ltb n connection_max_submissions then 0 else start + connection_window_seconds - now)
unfolding reserve_row
answer_used start n now row k b = ground (arith, k.window, k.count)

throttle_written :
    (u : ℕ) (row : Throttle) (new : Option Throttle) (h : Host)
    → find u h.throttle ≡ some row
    → find u (write_throttle u new h.throttle) ≡ some (kept_or row new)
unfolding write_throttle kept_or
throttle_written u row none h f = f
throttle_written u row (some new) h f = rw (find-upsert, ==_refl u) refl

reserved_row :
    (u now : ℕ) (row : Throttle) (h : Host)
    → canonical_tenant_id (int u) ≡ some u
    → find u h.throttle ≡ some row
    → find u (reserve_connection_submission (int u) now h).0.throttle
      ≡ some (kept_or row (reserve_row now (some row)).0)
unfolding reserve_connection_submission
reserved_row u now row h c f =
    rw (c, reserve_connection_submission, f)
      (throttle_written u row (reserve_row now (some row)).0 h f)

first_row :
    (u now : ℕ) (h : Host)
    → canonical_tenant_id (int u) ≡ some u
    → find u h.throttle ≡ none
    → find u (reserve_connection_submission (int u) now h).0.throttle
      ≡ some (record { window_started = now; submissions = 1 })
unfolding reserve_connection_submission reserve_row write_throttle
first_row u now h c f = rw (c, reserve_connection_submission, f, find-upsert, ==_refl u) refl

answered :
    (u now : ℕ) (row : Throttle) (h : Host)
    → canonical_tenant_id (int u) ≡ some u
    → find u h.throttle ≡ some row
    → (reserve_connection_submission (int u) now h).1 ≡ ok (reserve_row now (some row)).1
unfolding reserve_connection_submission
answered u now row h c f = rw (c, reserve_connection_submission, f) refl

IsUsed-all :
    (u start n : ℕ) (ts : List ℕ) (row : Throttle) (h : Host)
    → canonical_tenant_id (int u) ≡ some u
    → find u h.throttle ≡ some row
    → IsUsed start n row
    → Inside (start + connection_window_seconds) ts
    → (row' : Throttle) × (find u (attempt_at u ts h).throttle ≡ some row')
      × IsUsed start (n + length ts) row'
unfolding attempt_at
IsUsed-all u start n [] row h c f k b = (row, f, subst (λ m. IsUsed start m row) (padded n) k)
IsUsed-all u start n (t ∷ ts) row h c f k b =
    let h' : Host = (reserve_connection_submission (int u) t h).0 in
    subst
      (λ m.
        (row' : Throttle) × (find u (attempt_at u ts h').throttle ≡ some row')
        × IsUsed start m row')
      (moved n (length ts))
      (IsUsed-all u start (suc n) ts (kept_or row (reserve_row t (some row)).0) h' c
        (reserved_row u t row h c f) (next-IsUsed start n t row k b.0) b.1)

-- For a canonical user without a throttle row, after a first attempt at `t` and others within 900
-- seconds of it: an attempt within these 900 seconds is granted as long as fewer than ten came
-- before it, and else is told the seconds to the end of the window.
pub attempt_at-reserve_connection_submission :
    (u t now : ℕ) (ts : List ℕ) (h : Host)
    → canonical_tenant_id (int u) ≡ some u
    → find u h.throttle ≡ none
    → Inside (t + connection_window_seconds) ts
    → now < t + connection_window_seconds
    → (reserve_connection_submission (int u) now (attempt_at u (t ∷ ts) h)).1
      ≡ ok (
          if ltb (suc (length ts)) connection_max_submissions
          then 0
          else t + connection_window_seconds - now)
unfolding attempt_at
attempt_at-reserve_connection_submission u t now ts h c f b l =
    let h' : Host = (reserve_connection_submission (int u) t h).0 in
    let (row, g, k) =
      IsUsed-all u t 1 ts (record { window_started = t; submissions = 1 }) h' c
        (first_row u t h c f) (record { window = refl; count = refl }) b in
    let used : IsUsed t (suc (length ts)) row =
      subst (λ m. IsUsed t m row) (one_more (length ts)) k in
    answered u now row (attempt_at u ts h') c g
    ∙ ap ok (answer_used t (suc (length ts)) now row used l)
