-- ===== src/Daemon/State.antt =====
-- The state of the daemon: its client (agent-daemon/src/client.js), the runners
-- (agent-daemon/src/runner.js) and their child processes. Callbacks keep a runner alive that the
-- client has dropped, so the runners are numbered, and the client's map holds their numbers.
use code_caller.Prelude.{
  ℕ, zero, suc, Bool, Option, none, some, List, [], ◌∷◌, ◌++◌, ◌==◌, if◌then◌else◌,
}
use code_caller.Events.{DaemonResultStatus}
use code_caller.Units.{Text}
use code_caller.Daemon.Failures.{Failure}

pub record Config : Type 0 where
  pub use_shell : Bool
  pub command_template : Text
  pub cwd : Text

-- `input` of a task: its field `prompt`, if it has one, and its JSON
pub record Input : Type 0 where
  pub prompt : Option Text
  pub json : Text

pub data Signal : Type 0 where
  sigterm sigkill : Signal

-- A child process: `exitCode`, whether its standard input is still open, and what it was sent.
pub record Child : Type 0 where
  pub exit_code : Option ℕ
  pub stdin_open : Bool
  pub written : List Text
  pub signals : List Signal

pub record Runner : Type 0 where
  pub task_id : ℕ
  pub input : Input
  pub child : Option Child
  pub awaiting_approval : Bool
  pub killed_by_hub : Bool
  pub last_chunk : Text
  pub tail : Text
  pub exit_handled : Bool

-- The field `result` of a `task:result`, without the failure that stands beside it.
pub data Output : Type 0 where
  exited : (exit_code : Option ℕ) → (signal : Option Text) → (last_chunk : Text) → Output
  error : Text → Output

-- What the daemon emits.
pub data Message : Type 0 where
  heartbeat : Message
  task_running : ℕ → Message
  task_log : ℕ → Text → Message
  approval_request : ℕ → Text → Message
  task_result : ℕ → DaemonResultStatus → Option Failure → Output → Message

pub record Daemon : Type 0 where
  pub config : Config
  -- `socket && socket.connected`
  pub connected : Bool
  -- oldest first
  pub buffer : List Message
  -- what was passed to `socket.emit`, oldest first
  pub wire : List Message
  pub runners : List (ℕ × ℕ)
  pub objects : List Runner
  pub heartbeat_on : Bool
  pub exit_status : Option ℕ

-- `emit` of the client
unfoldable pub emit : Message → Daemon → Daemon
emit m d =
    if d.connected
    then record d { wire = d.wire ++ m ∷ [] }
    else record d { buffer = d.buffer ++ m ∷ [] }

unfoldable pub lookup : ℕ → List (ℕ × ℕ) → Option ℕ
lookup t [] = none
lookup t ((u, i) ∷ l) = if u == t then some i else lookup t l

unfoldable pub without : ℕ → List (ℕ × ℕ) → List (ℕ × ℕ)
without t [] = []
without t ((u, i) ∷ l) = let rest = without t l in if u == t then rest else (u, i) ∷ rest

-- `dropTask`
unfoldable pub drop_task : ℕ → Daemon → Daemon
unfolding without
drop_task t d = record d { runners = without t d.runners }

unfoldable pub get_elem? : List Runner → ℕ → Option Runner
get_elem? [] i = none
get_elem? (r ∷ l) zero = some r
get_elem? (r ∷ l) (suc i) = get_elem? l i

unfoldable pub alter : ℕ → (Runner → Runner) → List Runner → List Runner
alter i f [] = []
alter zero f (r ∷ l) = f r ∷ l
alter (suc i) f (r ∷ l) = r ∷ alter i f l

-- Assignments to the fields of a runner.
abbrev pub assign : ℕ → (Runner → Runner) → Daemon → Daemon
assign i f d = record d { objects = alter i f d.objects }
