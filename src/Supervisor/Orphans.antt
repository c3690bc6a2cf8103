-- ===== src/Supervisor/Orphans.antt =====
-- What a supervisor that returns leaves behind, and what it asked of the processes.
use aistat.Prelude.{
  ℕ, ◌≡◌, ◌⊎◌, refl, Bool, true, false, Option, none, some, List, [], ◌∷◌, ◌++◌, map, All, inl, inr,
  if◌then◌else◌, Bool-cases, All-map,
}
use aistat.Supervisor.{
  Settings, ChildState, Supervisor, Failure, crash_loop, spawn_failed, Pass, poll_once,
  write_status, start,
}
use aistat.Supervisor.Shutdown.{
  Signal, terminate, kill, Ending, Run, returned, signals_for, terminated, terminate_all, dropped,
  stop, stop_with, failed_with, after_pass, signal_noted, loop, run,
}

abbrev pub Sent : Signal → List Signal → Type 0
Sent x [] = ⊥
Sent x (y ∷ l) = (x ≡ y) ⊎ Sent x l

Sent-left : (x : Signal) (l m : List Signal) → Sent x l → Sent x (l ++ m)
Sent-left x [] m k = absurd k
Sent-left x (y ∷ l) m (inl e) = inl e
Sent-left x (y ∷ l) m (inr k) = inr (Sent-left x l m k)

Sent-right : (x : Signal) (l m : List Signal) → Sent x m → Sent x (l ++ m)
Sent-right x [] m k = k
Sent-right x (y ∷ l) m k = inr (Sent-right x l m k)

-- A process that still runs is asked to end, and killed if it does not within the grace period.
abbrev pub IsSignalled : Ending → List Signal → ChildState → Type 0
IsSignalled e l s =
    (pid : ℕ)
    → s.proc ≡ some pid
    → e.poll pid ≡ none
    → Sent (terminate pid) l × (e.obeys pid ≡ false → Sent (kill pid) l)

signalled : (e : Ending) (s : ChildState) → IsSignalled e (terminated e s.proc) s
unfolding terminated signals_for
signalled e s pid h k = elim (Bool-cases (e.obeys pid)) [
  | inl b ↦ rw (h, k, b) (inl refl, λ f. cc)
  | inr b ↦ rw (h, k, b) (inl refl, λ f. inr (inl refl))
]

-- `stop` signals every process that still runs.
terminate_all-IsSignalled :
    (e : Ending) (l : List ChildState) → All (IsSignalled e (terminate_all e l)) l
unfolding terminate_all
terminate_all-IsSignalled e [] = tt
terminate_all-IsSignalled e (s ∷ rest) =
    let first = terminated e s.proc in
    let others = terminate_all e rest in
    (
      λ pid h k.
          let (t, q) = signalled e s pid h k in
          (Sent-left (terminate pid) first others t, λ b. Sent-left (kill pid) first others (q b)),
      All-map
          (λ x a pid h k.
            let (t, q) = a pid h k in
            (
              Sent-right (terminate pid) first others t,
              λ b. Sent-right (kill pid) first others (q b),
            ))
          rest (terminate_all-IsSignalled e rest),
    )

-- A run that left `w` to `stop`: each process that a contour of `w` held and that still runs was
-- asked to end, and killed if it did not within the grace period; the supervisor holds no process
-- any more, its lock is released, and new passes start nothing.
pub record IsDown (e : Ending) (w : Supervisor) (r : Run) : Type 0 where
  pub signalled : All (IsSignalled e r.signals) w.children
  pub no_process : All (λ s. s.proc ≡ none) r.left.children
  pub released : r.left.started ≡ false
  pub no_restart : r.left.stopping ≡ true

dropped_all : (l : List ChildState) → All (λ s. s.proc ≡ none) (map dropped l)
dropped_all [] = tt
dropped_all (s ∷ l) = (refl, dropped_all l)

-- A run that returned is down.
abbrev pub IsClean : Ending → Supervisor → Run → Type 0
IsClean e w r = (code : ℕ) → r.exit ≡ some (returned code) → IsDown e w r

stopped-IsDown :
    (code : ℕ) (e : Ending) (v : Supervisor) (b : Bool)
    → v.started ≡ b
    → IsDown e v (stop_with code e v)
unfolding stop_with stop write_status
stopped-IsDown code e v true h =
    rw (h, stop_with, stop)
      (record {
        signalled = terminate_all-IsSignalled e v.children;
        no_process = dropped_all v.children;
        released = refl;
        no_restart = refl;
      })
stopped-IsDown code e v false h =
    rw (h, stop_with, stop)
      (record {
        signalled = terminate_all-IsSignalled e v.children;
        no_process = dropped_all v.children;
        released = refl;
        no_restart = refl;
      })

stop_with-IsClean : (code : ℕ) (e : Ending) (v : Supervisor) → IsClean e v (stop_with code e v)
stop_with-IsClean code e v n h = stopped-IsDown code e v v.started refl

-- The supervisor that the loop comes to, without any stop.
abbrev pub last_after : Supervisor → Supervisor → Option Failure → Supervisor
last_after rest v none = rest
last_after rest v (some f) = v

unfoldable pub last_state : Settings → List Pass → Supervisor → Supervisor
last_state c [] v = v
last_state c (p ∷ passes) v =
    let r = poll_once c p v in
    let rest = last_state c passes (signal_noted p.signalled r.0) in
    if v.stopping then v else last_after rest r.0 r.1

unfoldable pub last_of_run : Settings → Pass → List Pass → Supervisor → Supervisor
last_of_run c first passes v =
    let r = start first v in
    last_after (last_state c passes (signal_noted first.signalled r.0)) r.0 r.1

after_pass-IsClean :
    (e : Ending) (rest : Run) (w v : Supervisor) (o : Option Failure)
    → IsClean e w rest
    → IsClean e (last_after w v o) (after_pass e rest v o)
unfolding after_pass failed_with
after_pass-IsClean e rest w v none k = k
after_pass-IsClean e rest w v (some crash_loop) k = stop_with-IsClean 3 e v
after_pass-IsClean e rest w v (some spawn_failed) k = λ n h. cc

chosen-IsClean :
    (e : Ending) (b : Bool) (v w : Supervisor) (x y : Run)
    → IsClean e v x
    → IsClean e w y
    → IsClean e (if b then v else w) (if b then x else y)
chosen-IsClean e true v w x y h k = h
chosen-IsClean e false v w x y h k = k

either-IsClean :
    (e : Ending) (b : Bool) (w : Supervisor) (x y : Run)
    → IsClean e w x
    → IsClean e w y
    → IsClean e w (if b then x else y)
either-IsClean e true w x y h k = h
either-IsClean e false w x y h k = k

loop-IsClean :
    (c : Settings) (e : Ending) (passes : List Pass) (v : Supervisor)
    → IsClean e (last_state c passes v) (loop c e passes v)
unfolding loop last_state
loop-IsClean c e [] v =
    either-IsClean e v.stopping v (stop_with 0 e v) _ (stop_with-IsClean 0 e v) (λ n h. cc)
loop-IsClean c e (p ∷ passes) v =
    let r = poll_once c p v in
    let next = signal_noted p.signalled r.0 in
    let rest = loop c e passes next in
    chosen-IsClean e v.stopping v (last_after (last_state c passes next) r.0 r.1) (stop_with 0 e v)
      (after_pass e rest r.0 r.1) (stop_with-IsClean 0 e v)
      (after_pass-IsClean e rest (last_state c passes next) r.0 r.1 (loop-IsClean c e passes next))

-- Whatever the contours do: when `run` returns a code, for a signal or for a crash loop, each
-- process that a contour held at its last pass and that still runs was asked to end, and killed if
-- it did not within the grace period; the lock is released, and the supervisor restarts nothing.
pub run-IsDown :
    (c : Settings) (e : Ending) (first : Pass) (passes : List Pass) (v : Supervisor) (code : ℕ)
    → (run c e first passes v).exit ≡ some (returned code)
    → IsDown e (last_of_run c first passes v) (run c e first passes v)
unfolding run last_of_run
run-IsDown c e first passes v code =
    let r = start first v in
    let next = signal_noted first.signalled r.0 in
    after_pass-IsClean e (loop c e passes next) (last_state c passes next) r.0 r.1
      (loop-IsClean c e passes next) code
