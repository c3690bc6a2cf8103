-- ===== src/Supervisor/CrashLoop.antt =====
-- When the crash-loop cut-off cannot fire.
use aistat.Prelude.{
  ℕ, ◌≤◌, ◌<◌, ◌≡◌, ◌≢◌, refl, Bool, true, false, Option, none, some, List, [], ◌∷◌, All, arith,
  ltb, inl, inr, Bool-cases, subst, sym, ◌∙◌, if◌then◌else◌,
}
use aistat.Supervisor.{
  Settings, ChildState, Supervisor, Failure, crash_loop, spawn_failed, Pass, ExitCode, backoff_for,
  spawn_child, reap, visit, visit_dead, visit_live, visit_as, after_visit, visit_all, poll_once,
  start, spawn_all, noted, concluded, after_spawn, started_with, Visit, Visits, respawn,
}
use aistat.Supervisor.Shutdown.{
  Ending, Run, returned, loop, run, failed_with, stop_with, signal_noted, after_pass,
}
use aistat.Supervisor.Backoff.{
  span, IsPaced, Fine, respawn-Fine, spawn-Fine, Ready, Paced, Phase, Paced-later, Paced-reaped,
}

-- A contour that was never restarted.
abbrev pub IsFresh : ChildState → Type 0
IsFresh s = s.restarts ≡ []

module _ (c : Settings) (positive : 0 < c.max_restarts)
    (slow : c.restart_window ≤ span c 0 c.max_restarts) where
  dead-Fine :
      (p : Pass) (s : ChildState) (t : ℕ)
      → s.proc ≡ none
      → IsPaced c t s
      → Fine c p.now ((visit_dead c false p s).child, (visit_dead c false p s).failure)
  unfolding visit_dead
  dead-Fine p s t e k =
      let r : Ready c s.restarts s.restart_at =
        subst (λ o. Phase c t s.restarts s.restart_at o) e k in
      elim (Bool-cases (ltb p.now s.restart_at)) [
        | inl b ↦
            rw (b, visit_dead)
              ((λ h. cc), (λ h. subst (λ o. Phase c p.now s.restarts s.restart_at o) (sym e) r))
        | inr b ↦ rw (b, visit_dead) (respawn-Fine c positive slow p s r (ground arith))
      ]

  live-Fine :
      (p : Pass) (s : ChildState) (t pid : ℕ) (o : Option ExitCode)
      → s.proc ≡ some pid
      → IsPaced c t s
      → t < p.now
      → Fine c p.now ((visit_live c false p s o).child, (visit_live c false p s o).failure)
  unfolding visit_live reap
  live-Fine p s t pid none e k h = (
    (λ n. cc),
    λ n.
        subst (λ o. Phase c p.now s.restarts s.restart_at o) (sym e)
          (Paced-later c t p.now s.restarts h
            (subst (λ o. Phase c t s.restarts s.restart_at o) e k)),
  )
  live-Fine p s t pid (some rc) e k h = (
    (λ n. cc),
    λ n. Paced-reaped c t p.now s.restarts h (subst (λ o. Phase c t s.restarts s.restart_at o) e k),
  )

  visit-Fine :
      (p : Pass) (s : ChildState) (t : ℕ) (o : Option ℕ)
      → s.proc ≡ o
      → IsPaced c t s
      → t < p.now
      → Fine c p.now ((visit_as c false p s o).child, (visit_as c false p s o).failure)
  unfolding visit_as
  visit-Fine p s t none e k h = dead-Fine p s t e k
  visit-Fine p s t (some pid) e k h = live-Fine p s t pid (p.poll pid) e k h

  AllFine : ℕ → Visits → Type 0
  AllFine now r = (r.failed ≢ some crash_loop) × (r.failed ≡ none → All (IsPaced c now) r.visited)

  after-Fine :
      (now : ℕ) (v : Visit) (rest : List ChildState) (r : Visits)
      → Fine c now (v.child, v.failure)
      → AllFine now r
      → AllFine now (after_visit v rest r)
  unfolding after_visit AllFine
  after-Fine now v rest r f k = after_cases v.failure refl
    where
      after_cases : (o : Option Failure) → v.failure ≡ o → AllFine now (after_visit v rest r)
      after_cases none e = rw (e, after_visit) (k.0, λ h. (f.1 e, k.1 h))
      after_cases (some f') e = rw (e, after_visit) ((λ h. f.0 (e ∙ h)), (λ h. cc))

  visits_fine :
      (p : Pass) (t : ℕ) (children : List ChildState)
      → All (IsPaced c t) children
      → t < p.now
      → AllFine p.now (visit_all c false p children)
  unfolding visit_all AllFine visit
  visits_fine p t [] k h = ((λ e. cc), λ e. tt)
  visits_fine p t (s ∷ rest) k h =
      after-Fine p.now (visit c false p s) rest (visit_all c false p rest)
        (visit-Fine p s t s.proc refl k.0 h) (visits_fine p t rest k.1 h)

  noted_children : (w b : Bool) (v : Supervisor) → (noted w b v).children ≡ v.children
  unfolding noted aistat.Supervisor.write_status
  noted_children w true v = refl
  noted_children w false v = refl

  -- A supervisor and the failure of the pass that left it.
  abbrev Paces : ℕ → Supervisor × Option Failure → Type 0
  Paces now (v, e) = (e ≢ some crash_loop) × (e ≡ none → All (IsPaced c now) v.children)

  concluded_fine :
      (now : ℕ) (w : Bool) (v : Supervisor) (b : Bool) (o : Option Failure)
      → (o ≢ some crash_loop) × (o ≡ none → All (IsPaced c now) v.children)
      → Paces now (concluded w v b o)
  unfolding concluded
  concluded_fine now w v b none k =
      ((λ h. cc), λ h. subst (All (IsPaced c now)) (sym (noted_children w b v)) (k.1 refl))
  concluded_fine now w v b (some e) k = (k.0, λ h. cc)

  polled_fine :
      (p : Pass) (t : ℕ) (v : Supervisor)
      → All (IsPaced c t) v.children
      → t < p.now
      → v.stopping ≡ false
      → Paces p.now (poll_once c p v)
  unfolding AllFine poll_once
  polled_fine p t v k h run =
      let r = visit_all c v.stopping p v.children in
      concluded_fine p.now p.writable (record v { children = r.visited }) r.any_changed r.failed
        (subst (λ b. AllFine p.now (visit_all c b p v.children)) (sym run)
          (visits_fine p t v.children k h))

  -- Passes at later and later times.
  abbrev pub Later : ℕ → List Pass → Type 0
  Later t [] = Unit
  Later t (p ∷ passes) = (t < p.now) × Later p.now passes

  stopped_code :
      (code : ℕ) (e : Ending) (v : Supervisor) → (stop_with code e v).exit ≡ some (returned code)
  unfolding stop_with
  stopped_code code e v = refl

  zero_not_three : some (returned 0) ≢ some (returned 3)
  zero_not_three h = cc

  after_pass_fine :
      (e : Ending) (rest : Run) (v : Supervisor) (o : Option Failure)
      → o ≢ some crash_loop
      → (o ≡ none → rest.exit ≢ some (returned 3))
      → (after_pass e rest v o).exit ≢ some (returned 3)
  unfolding after_pass failed_with
  after_pass_fine e rest v none k h = h refl
  after_pass_fine e rest v (some crash_loop) k h = absurd (k refl)
  after_pass_fine e rest v (some spawn_failed) k h = λ x. cc

  chosen :
      (b : Bool) (x y : Run)
      → x.exit ≢ some (returned 3)
      → (b ≡ false → y.exit ≢ some (returned 3))
      → (if b then x else y).exit ≢ some (returned 3)
  chosen true x y h k = h
  chosen false x y h k = k refl

  loop_fine :
      (e : Ending) (passes : List Pass) (t : ℕ) (v : Supervisor)
      → All (IsPaced c t) v.children
      → Later t passes
      → (loop c e passes v).exit ≢ some (returned 3)
  unfolding loop
  loop_fine e [] t v k l = elim (Bool-cases v.stopping) [
    | inl b ↦ rw (b, loop, stopped_code) zero_not_three
    | inr b ↦ rw (b, loop) (λ h. cc)
  ]
  loop_fine e (p ∷ passes) t v k l =
      let r = poll_once c p v in
      let rest = loop c e passes (signal_noted p.signalled r.0) in
      chosen v.stopping (stop_with 0 e v) (after_pass e rest r.0 r.1)
        (rw stopped_code zero_not_three)
        (λ b.
          let f = polled_fine p t v k l.0 b in
          after_pass_fine e rest r.0 r.1 f.0
            (λ n. loop_fine e passes p.now (signal_noted p.signalled r.0) (f.1 n) l.1))

  abbrev Started : ℕ → List ChildState × Option Failure → Type 0
  Started now (l, e) = (e ≢ some crash_loop) × (e ≡ none → All (IsPaced c now) l)

  after_spawn-Fine :
      (now : ℕ) (r : ChildState × Option Failure) (rest : List ChildState)
      (next : List ChildState × Option Failure)
      → Fine c now r
      → Started now next
      → Started now (after_spawn r rest next)
  unfolding after_spawn
  after_spawn-Fine now (s, none) rest (spawned, e) f k = (k.0, λ h. (f.1 refl, k.1 h))
  after_spawn-Fine now (s, some e) rest next f k = (f.0, λ h. cc)

  spawned_all_fine :
      (p : Pass) (children : List ChildState)
      → All IsFresh children
      → Started p.now (spawn_all p children)
  unfolding spawn_all
  spawned_all_fine p [] k = ((λ h. cc), λ h. tt)
  spawned_all_fine p (s ∷ rest) k =
      after_spawn-Fine p.now (spawn_child p s) rest (spawn_all p rest)
        (spawn-Fine c p s (subst (λ l. Paced c l p.now) (sym k.0) tt)) (spawned_all_fine p rest k.1)

  started_fine :
      (now : ℕ) (w : Bool) (v : Supervisor) (o : Option Failure)
      → (o ≢ some crash_loop) × (o ≡ none → All (IsPaced c now) v.children)
      → Paces now (started_with w v o)
  unfolding started_with aistat.Supervisor.write_status
  started_fine now w v none k = ((λ h. cc), λ h. k.1 refl)
  started_fine now w v (some e) k = (k.0, λ h. cc)

  -- Where the backoff of `max_restarts` restarts fills the restart window, no supervisor ever exits
  -- with the code of a crash loop, whatever its contours do, if each pass reads a later clock than
  -- the one before.
  pub run_no_crash_loop :
      (e : Ending) (first : Pass) (passes : List Pass) (v : Supervisor)
      → All IsFresh v.children
      → Later first.now passes
      → (run c e first passes v).exit ≢ some (returned 3)
  unfolding run start
  run_no_crash_loop e first passes v k l =
      let f =
        started_fine first.now first.writable
          (record v { children = (spawn_all first v.children).0; started = true })
          (spawn_all first v.children).1 (spawned_all_fine first v.children k) in
      let r = start first v in
      after_pass_fine e (loop c e passes (signal_noted first.signalled r.0)) r.0 r.1 f.0
        (λ n. loop_fine e passes first.now (signal_noted first.signalled r.0) (f.1 n) l)
