-- ===== src/Daemon/Runner.antt =====
-- agent-daemon/src/runner.js: the methods of `TaskRunner`, for a runner by its number.
use code_caller.Prelude.{ℕ, Bool, true, false, Option, none, some, [], ◌∷◌, ◌++◌, if◌then◌else◌}
use code_caller.Events.{DaemonResultStatus}
use code_caller.Units.{Text, codes, is_empty, take_last}
use code_caller.Daemon.Approvals.{detect}
use code_caller.Daemon.Failures.{detect_structured_failure, exited_well}
use code_caller.Daemon.Command.{Placeholders, build_spawn_plan}
use code_caller.Daemon.State.{
  Config, Input, sigterm, sigkill, Child, Runner, exited, error, task_running, task_log,
  approval_request, task_result, Daemon, emit, drop_task, get_elem?, assign,
}

abbrev pub tail_limit : ℕ
tail_limit = 8192

abbrev prompt_of : Option Text → Text
prompt_of none = []
prompt_of (some prompt) = prompt

abbrev pub placeholders : Config → Input → Placeholders
placeholders c input = record { prompt = prompt_of input.prompt; input = input.json; cwd = c.cwd }

-- `child && child.exitCode === null`, where something is done to the child
abbrev pub if_alive : (Child → Child) → Option Child → Option Child
if_alive f none = none
if_alive f (some c) = elim c.exit_code [ none ↦ some (f c) | some _ ↦ some c ]

abbrev pub on_runner : ℕ → (Runner → Daemon → Daemon) → Daemon → Daemon
on_runner i f d = elim (get_elem? d.objects i) [ none ↦ d | some r ↦ f r d ]

abbrev pub handled : Runner → Runner
handled r = record r { exit_handled = true }

unfoldable pub finish_failed : ℕ → Text → Daemon → Daemon
finish_failed i reason = on_runner i λ r d.
    if r.exit_handled
    then d
    else drop_task r.task_id (
        emit
          (task_result r.task_id DaemonResultStatus.failed
            (detect_structured_failure none none reason) (error reason))
          (assign i handled d))

-- The child after `spawn` and `stdin.end()`.
abbrev pub spawned : Child
spawned = record { exit_code = none; stdin_open = false; written = []; signals = [] }

-- the rest of `start`, by what `spawn` does: it may throw an error
unfoldable pub started : ℕ → Option Text → Runner → Daemon → Daemon
unfolding finish_failed
started i (some message) r d = finish_failed i (codes "spawn failed: " ++ message) d
started i none r d =
    emit (task_running r.task_id) (assign i (λ r. record r { child = some spawned }) d)

-- `start`; nobody catches the exception of `buildSpawnPlan`, which ends the process.
unfoldable pub start : ℕ → Option Text → Daemon → Daemon
unfolding started
start i failure = on_runner i λ r d.
    elim (build_spawn_plan d.config.use_shell d.config.command_template
      (placeholders d.config r.input)) [
        | none ↦ record d { exit_status = some 1 }
        | some plan ↦ started i failure r d
      ]

abbrev pub received : Text → Runner → Runner
received chunk r = record r { last_chunk = chunk; tail = take_last tail_limit (r.tail ++ chunk) }

abbrev pub asked : Runner → Runner
asked r = record r { awaiting_approval = true }

unfoldable pub on_data : ℕ → Text → Daemon → Daemon
on_data i chunk = on_runner i λ r d.
    let logged = emit (task_log r.task_id chunk) (assign i (received chunk) d) in
    if r.awaiting_approval then logged else elim (detect (take_last tail_limit (r.tail ++ chunk))) [
      | none ↦ logged
      | some reason ↦ emit (approval_request r.task_id reason) (assign i asked logged)
    ]

abbrev pub killed : Runner → Runner
killed r = record r {
  killed_by_hub = true;
  child = if_alive (λ c. record c { signals = sigterm ∷ c.signals }) r.child;
}

-- An error of `child.kill` is only logged.
unfoldable pub kill : ℕ → Daemon → Daemon
kill i = assign i killed

abbrev pub resumed : Runner → Runner
resumed r = record r {
  awaiting_approval = false;
  tail = [];
  child =
      if_alive (λ c. if c.stdin_open then record c { written = codes "y\n" ∷ c.written } else c)
        r.child;
}

unfoldable pub decide : ℕ → Bool → Daemon → Daemon
unfolding kill
decide i false = kill i
decide i true = on_runner i λ r d. if r.awaiting_approval then assign i resumed d else d

-- `this.tail || this.lastChunk`
abbrev pub output_of : Runner → Text
output_of r = if is_empty r.tail then r.last_chunk else r.tail

abbrev pub status_of : Bool → DaemonResultStatus
status_of true = DaemonResultStatus.completed
status_of false = DaemonResultStatus.failed

abbrev pub result_of : Runner → Option ℕ → Option Text → Daemon → Daemon
result_of r code signal = emit (
    task_result r.task_id (status_of (exited_well code signal))
      (detect_structured_failure code signal (output_of r)) (exited code signal r.last_chunk))

unfoldable pub on_close : ℕ → Option ℕ → Option Text → Daemon → Daemon
on_close i code signal = on_runner i λ r d.
    if r.exit_handled
    then d
    else drop_task r.task_id (
        if r.killed_by_hub
        then assign i handled d
        else result_of r code signal (assign i handled d))

unfoldable pub on_error : ℕ → Text → Daemon → Daemon
unfolding finish_failed
on_error i message = finish_failed i (codes "child process error: " ++ message)

abbrev pub disposed : Runner → Runner
disposed r = record r { child = if_alive (λ c. record c { signals = sigkill ∷ c.signals }) r.child }
