-- ===== src/Supervisor/Tests.antt =====
-- A supervisor whose only contour dies at once, every time.
use aistat.Prelude.{ℕ, ◌≡◌, ◌≢◌, ◌≤◌, refl, true, false, none, some, List, [], ◌∷◌, arith}
use aistat.Supervisor.{
  default_settings, ChildState, Supervisor, Pass, exited, start, spawn_all, spawn_child,
  write_status, payload, backoff_for, poll_once, visit_all, visit, noted, reap, respawn, prune,
}
use aistat.Supervisor.Shutdown.{
  Ending, returned, run, loop, stop, stop_with, terminate_all, terminated, after_pass,
}
use aistat.Supervisor.Backoff.{span}
use aistat.Supervisor.CrashLoop.{run_no_crash_loop}
use aistat.Supervisor.Orphans.{IsDown, run-IsDown, last_of_run}

abbrev child : ChildState
child = record {
  contour = record { name = "collector"; argv = "python" ∷ "-m" ∷ "aistat.collector" ∷ [] };
  proc = none;
  restart_at = 0;
  restarts = [];
  start_count = 0;
  last_exit = none;
}

abbrev supervisor : Supervisor
supervisor = record {
  pid = 10;
  children = child ∷ [];
  stopping = false;
  started = false;
  status = none;
}

abbrev pass : ℕ → Pass
pass now = record {
  now = now;
  writable = true;
  spawn = λ c. some 11;
  poll = λ pid. some (exited 1);
  signalled = false;
}

abbrev last_pass : Pass
last_pass = record {
  now = 3000;
  writable = true;
  spawn = λ c. some 11;
  poll = λ pid. none;
  signalled = true;
}

abbrev ending : Ending
ending = record { poll = λ pid. none; obeys = λ pid. false; writable = true }

window_filled : 60000 ≤ span default_settings 0 5
unfolding backoff_for
window_filled = omega arith

run_no_crash_loop_example :
    (run default_settings ending (pass 100) (pass 600 ∷ pass 1700 ∷ last_pass ∷ []) supervisor).exit
    ≢ some (returned 3)
run_no_crash_loop_example =
    run_no_crash_loop default_settings (omega arith) window_filled ending (pass 100)
      (pass 600 ∷ pass 1700 ∷ last_pass ∷ []) supervisor (refl, tt)
      (omega arith, (omega arith, (omega arith, tt)))

returns_zero :
    (run default_settings ending (pass 100) (pass 600 ∷ pass 1700 ∷ last_pass ∷ []) supervisor).exit
    ≡ some (returned 0)
unfolding run start spawn_all spawn_child write_status payload poll_once visit_all visit loop stop
    stop_with terminate_all terminated after_pass backoff_for noted reap respawn prune
returns_zero = refl

run-IsDown_example :
    IsDown ending
      (last_of_run default_settings (pass 100) (pass 600 ∷ pass 1700 ∷ last_pass ∷ []) supervisor)
      (run default_settings ending (pass 100) (pass 600 ∷ pass 1700 ∷ last_pass ∷ []) supervisor)
run-IsDown_example =
    run-IsDown default_settings ending (pass 100) (pass 600 ∷ pass 1700 ∷ last_pass ∷ []) supervisor
      0 returns_zero

abbrev running : List ChildState
running = record child { proc = some 11 } ∷ child ∷ []

abbrev written : Supervisor
written = write_status true (record supervisor { children = running; started = true })
