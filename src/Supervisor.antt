-- ===== src/Supervisor.antt =====
-- The supervisor of the local runtime (aistat/supervisor.py): restarts with backoff, the crash-loop
-- cut-off, the status file and the shutdown. Times are milliseconds of the monotonic clock. The
-- processes are outside: what `spawn` and `poll` answer in a pass are arguments.
pub mod Shutdown
pub mod Status
pub mod Orphans
pub mod Backoff
pub mod CrashLoop
mod Tests
use aistat.Prelude.{
  ℕ, ◌+◌, ◌*◌, ◌^◌, String, Bool, true, false, Option, none, some, List, [], ◌∷◌, ◌++◌, map, ltb,
  leb, if◌then◌else◌, length, min, is_some, ◌||◌,
}

-- The keyword arguments of `__init__`.
pub record Settings : Type 0 where
  pub max_restarts : ℕ
  pub restart_window : ℕ
  pub backoff_base : ℕ
  pub backoff_cap : ℕ

abbrev pub default_settings : Settings
default_settings = record {
  max_restarts = 5;
  restart_window = 60000;
  backoff_base = 1000;
  backoff_cap = 30000;
}

-- What `poll` answers for a process that ended.
pub data ExitCode : Type 0 where
  exited killed : ℕ → ExitCode

pub record Contour : Type 0 where
  pub name : String
  pub argv : List String

pub record ChildState : Type 0 where
  pub contour : Contour
  -- the pid of the process
  pub proc : Option ℕ
  pub restart_at : ℕ
  -- oldest first
  pub restarts : List ℕ
  pub start_count : ℕ
  pub last_exit : Option ExitCode

pub record ContourStatus : Type 0 where
  pub name : String
  pub pid : Option ℕ
  pub running : Bool
  pub starts : ℕ
  pub restarts_in_window : ℕ
  pub last_exit : Option ExitCode

-- `supervisor.status.json`
pub record StatusFile : Type 0 where
  pub pid : ℕ
  pub stopping : Bool
  pub contours : List ContourStatus

pub record Supervisor : Type 0 where
  -- `os.getpid()`
  pub pid : ℕ
  pub children : List ChildState
  pub stopping : Bool
  -- holds the lock file
  pub started : Bool
  pub status : Option StatusFile

-- What ends a pass: `CrashLoop`, or an OSError of `spawn`.
pub data Failure : Type 0 where
  crash_loop spawn_failed : Failure

-- What the processes, the clock and the file of the status do in one pass of `run`.
pub record Pass : Type 0 where
  pub now : ℕ
  -- whether the status can be written: an OSError is logged and passed over
  pub writable : Bool
  pub spawn : Contour → Option ℕ
  pub poll : ℕ → Option ExitCode
  -- SIGTERM or SIGINT arrives during the pass or the sleep after it
  pub signalled : Bool

pub contour_status : ChildState → ContourStatus
contour_status s = record {
  name = s.contour.name;
  pid = s.proc;
  running = is_some s.proc;
  starts = s.start_count;
  restarts_in_window = length s.restarts;
  last_exit = s.last_exit;
}

-- The payload of `_write_status`.
unfoldable pub payload : Supervisor → StatusFile
payload v = record { pid = v.pid; stopping = v.stopping; contours = map contour_status v.children }

-- Where the file cannot be written, the old one stays.
unfoldable pub write_status : Bool → Supervisor → Supervisor
write_status writable v = record v { status = if writable then some (payload v) else v.status }

unfoldable pub backoff_for : Settings → ℕ → ℕ
backoff_for c n = min c.backoff_cap (c.backoff_base * 2 ^ n)

-- `while restarts and restarts[0] < window_start: popleft()`
unfoldable pub prune : Settings → ℕ → List ℕ → List ℕ
prune c now [] = []
prune c now (r ∷ rest) =
    let kept = prune c now rest in if ltb (r + c.restart_window) now then kept else r ∷ rest

unfoldable pub spawn_child : Pass → ChildState → ChildState × Option Failure
spawn_child p s = elim (p.spawn s.contour) [
  | none ↦ (s, some spawn_failed)
  | some pid ↦ (record s { proc = some pid; start_count = s.start_count + 1 }, none)
]

unfoldable pub respawn : Settings → Pass → ChildState → ChildState × Option Failure
respawn c p s =
    let counted : ChildState = record s { restarts = prune c p.now s.restarts ++ p.now ∷ [] } in
    let spawned = spawn_child p counted in
    if ltb c.max_restarts (length counted.restarts) then (counted, some crash_loop) else spawned

-- A child whose process has ended with `rc`.
unfoldable pub reap : Settings → Bool → ℕ → ExitCode → ChildState → ChildState
reap c stopping now rc s =
    let seen : ChildState = record s { last_exit = some rc; proc = none } in
    if stopping then seen else record seen { restart_at = now + backoff_for c (length s.restarts) }

-- What the body of the loop did to a child.
pub record Visit : Type 0 where
  pub child : ChildState
  pub failure : Option Failure
  pub changed : Bool

visit_dead : Settings → Bool → Pass → ChildState → Visit
visit_dead c stopping p s =
    let r = respawn c p s in
    if stopping || ltb p.now s.restart_at
    then record { child = s; failure = none; changed = false }
    else record { child = r.0; failure = r.1; changed = true }

visit_live : Settings → Bool → Pass → ChildState → Option ExitCode → Visit
visit_live c stopping p s none = record { child = s; failure = none; changed = false }
visit_live c stopping p s (some rc) = record {
  child = reap c stopping p.now rc s;
  failure = none;
  changed = true;
}

visit_as : Settings → Bool → Pass → ChildState → Option ℕ → Visit
visit_as c stopping p s none = visit_dead c stopping p s
visit_as c stopping p s (some pid) = visit_live c stopping p s (p.poll pid)

unfoldable pub visit : Settings → Bool → Pass → ChildState → Visit
unfolding visit_dead visit_live visit_as
visit c stopping p s = visit_as c stopping p s s.proc

pub record Visits : Type 0 where
  pub visited : List ChildState
  pub failed : Option Failure
  pub any_changed : Bool

-- A failure ends the loop: the children after it are not looked at.
after_visit : Visit → List ChildState → Visits → Visits
after_visit v rest next = elim v.failure [
  | none ↦ record {
    visited = v.child ∷ next.visited;
    failed = next.failed;
    any_changed = v.changed || next.any_changed;
  }
  | some e ↦ record { visited = v.child ∷ rest; failed = some e; any_changed = true }
]

unfoldable pub visit_all : Settings → Bool → Pass → List ChildState → Visits
unfolding after_visit
visit_all c stopping p [] = record { visited = []; failed = none; any_changed = false }
visit_all c stopping p (s ∷ rest) =
    after_visit (visit c stopping p s) rest (visit_all c stopping p rest)

unfoldable pub noted : Bool → Bool → Supervisor → Supervisor
unfolding write_status
noted writable changed v = if changed then write_status writable v else v

pub concluded : Bool → Supervisor → Bool → Option Failure → Supervisor × Option Failure
concluded writable v changed none = (noted writable changed v, none)
concluded writable v changed (some e) = (v, some e)

unfoldable pub poll_once : Settings → Pass → Supervisor → Supervisor × Option Failure
unfolding concluded
poll_once c p v =
    let r = visit_all c v.stopping p v.children in
    concluded p.writable (record v { children = r.visited }) r.any_changed r.failed

-- A contour that cannot be started ends the loop of `start`.
pub after_spawn :
    ChildState × Option Failure
    → List ChildState
    → List ChildState × Option Failure
    → List ChildState × Option Failure
after_spawn (s, none) rest (spawned, e) = (s ∷ spawned, e)
after_spawn (s, some e) rest next = (s ∷ rest, some e)

unfoldable pub spawn_all : Pass → List ChildState → List ChildState × Option Failure
unfolding after_spawn
spawn_all p [] = ([], none)
spawn_all p (s ∷ rest) = after_spawn (spawn_child p s) rest (spawn_all p rest)

pub started_with : Bool → Supervisor → Option Failure → Supervisor × Option Failure
started_with writable v none = (write_status writable v, none)
started_with writable v (some e) = (v, some e)

-- `start`, by the holder of the lock.
unfoldable pub start : Pass → Supervisor → Supervisor × Option Failure
unfolding started_with
start p v =
    let (children, e) = spawn_all p v.children in
    started_with p.writable (record v { children = children; started = true }) e
