-- ===== src/Supervisor/Shutdown.antt =====
-- The shutdown and the main loop (`stop`, `_terminate`, `run`).
use aistat.Prelude.{
  ℕ, Bool, true, false, Option, none, some, List, [], ◌∷◌, ◌++◌, map, if◌then◌else◌,
}
use aistat.Supervisor.{
  Settings, ChildState, Supervisor, Failure, crash_loop, spawn_failed, Pass, ExitCode, poll_once,
  write_status, start,
}

pub data Signal : Type 0 where
  terminate kill : ℕ → Signal

-- What `stop` meets: whether a process has ended, and whether it ends within the grace period after
-- `terminate`.
pub record Ending : Type 0 where
  pub poll : ℕ → Option ExitCode
  pub obeys : ℕ → Bool
  -- whether the last status can be written
  pub writable : Bool

unfoldable pub signals_for : Ending → ℕ → Option ExitCode → List Signal
signals_for e pid (some rc) = []
signals_for e pid none = if e.obeys pid then terminate pid ∷ [] else terminate pid ∷ kill pid ∷ []

-- The signals that `_terminate` sends.
unfoldable pub terminated : Ending → Option ℕ → List Signal
unfolding signals_for
terminated e none = []
terminated e (some pid) = signals_for e pid (e.poll pid)

unfoldable pub terminate_all : Ending → List ChildState → List Signal
terminate_all e [] = []
terminate_all e (s ∷ rest) = terminated e s.proc ++ terminate_all e rest

abbrev pub dropped : ChildState → ChildState
dropped s = record s { proc = none }

unfoldable pub stop : Ending → Supervisor → Supervisor × List Signal
stop e v =
    let v' : Supervisor = record v { stopping = true; children = map dropped v.children } in
    let released : Supervisor = record (write_status e.writable v') { started = false } in
    (if v.started then released else v', terminate_all e v.children)

-- How `run` ends: the code that it returns, or an error of `spawn` that it lets through.
pub data Exit : Type 0 where
  returned : ℕ → Exit
  escaped : Exit

pub record Run : Type 0 where
  pub left : Supervisor
  pub signals : List Signal
  -- `none` when it still runs after the last pass
  pub exit : Option Exit

unfoldable pub stop_with : ℕ → Ending → Supervisor → Run
stop_with code e v =
    let (v', signals) = stop e v in
    record { left = v'; signals = signals; exit = some (returned code) }

-- A failure in `start` or in a pass.
unfoldable pub failed_with : Ending → Failure → Supervisor → Run
failed_with e crash_loop v = stop_with 3 e v
failed_with e spawn_failed v = record { left = v; signals = []; exit = some escaped }

unfoldable pub after_pass : Ending → Run → Supervisor → Option Failure → Run
after_pass e rest v none = rest
after_pass e rest v (some f) = failed_with e f v

abbrev pub signal_noted : Bool → Supervisor → Supervisor
signal_noted signalled v = record v { stopping = if signalled then true else v.stopping }

-- `while not self._stopping`, over the passes that the clock grants.
unfoldable pub loop : Settings → Ending → List Pass → Supervisor → Run
unfolding after_pass
loop c e [] v =
    if v.stopping then stop_with 0 e v else record { left = v; signals = []; exit = none }
loop c e (p ∷ passes) v =
    let r = poll_once c p v in
    let rest = loop c e passes (signal_noted p.signalled r.0) in
    if v.stopping then stop_with 0 e v else after_pass e rest r.0 r.1

unfoldable pub run : Settings → Ending → Pass → List Pass → Supervisor → Run
unfolding after_pass
run c e first passes v =
    let (v', f) = start first v in
    after_pass e (loop c e passes (signal_noted first.signalled v')) v' f
