-- ===== src/Tests/Daemon.antt =====
-- The theorems on the daemon at concrete inputs.
use code_caller.Prelude.{
  ◌≤◌, ◌≡◌, refl, true, false, none, some, List, [], ◌∷◌, ◌++◌, String, In, head, suc,
}
use code_caller.Events.{DaemonResultStatus, FailureCategory}
use code_caller.Platform.Memory.{memory}
use code_caller.TaskResults.{handle_daemon_task_result, handle_retryable_capacity_failure}
use code_caller.Units.{
  trim, trim_start, trim_end, take_last, codes, drop, after, replace_from, replace_all, lines,
  lines_from, drop_return, filter, join,
}
use code_caller.Daemon.Command.{
  Placeholders, build_spawn_plan, default_command_template, shell_escape, tokenize, tokenize_from,
  strip_outer_quotes, drop_quote, substitute,
}
use code_caller.Daemon.Command.Quoting.{read_word, plain, doubled, read_word-shell_escape}
use code_caller.Daemon.Command.Arguments.{filled, build_spawn_plan-default}
use code_caller.Daemon.State.{
  Config, Input, Output, error, task_result, emit, lookup, get_elem?, alter, drop_task, Runner,
  Daemon,
}
use code_caller.Daemon.Patterns.{found_any, matches, match_many, match_one}
use code_caller.Daemon.Failures
use code_caller.Daemon.Failures.{Failure, detect_structured_failure, last_lines, drop_lines}
use code_caller.Daemon.Runner.{start, started, finish_failed, spawned, on_close}
use code_caller.Daemon.Client.{
  Event, socket_connect, socket_disconnect, submit, cancel, heartbeat_due, child_data, child_exit,
  child_close, run, step, on_event, on_task_submit, initial, new_runner, flush_buffer,
}
use code_caller.Daemon.Client.Steady.{online}
use code_caller.Daemon.Client.Delivery.{kept, run-online}
use code_caller.Daemon.Client.Live.{all_quiet}
use code_caller.Daemon.Client.Silence.{cancelled_is_silent}
use code_caller.Daemon.Client.Due.{results, emitted}
use code_caller.Daemon.Client.Results.{submissions, results-submissions}
use code_caller.Daemon.Client.Kept.{all}
use code_caller.Daemon.Client.Tails.{is_sent_nothing, run-is_sent_nothing}
use code_caller.Daemon.Link.{result_payload}
use code_caller.Daemon.Link.Results.{hub_reaction}
use code_caller.Tests.World.{world}
use code_caller.Daemon.Client.Arrivals.{close-arrives}
use code_caller.Daemon.Client.Agreement.{agrees}
use code_caller.Daemon.Client.Registry.{run-agrees}

abbrev config : Config
config = record {
  use_shell = false;
  command_template = default_command_template;
  cwd = codes "/srv";
}

abbrev input : Input
input = record { prompt = some (codes "it's done"); json = codes "{}" }

abbrev no_text : String
no_text = ""

-- A task is submitted, the connection is lost while it ends, and comes back.
abbrev events : List Event
events =
    socket_connect
    ∷ submit (some 4) input none
    ∷ socket_disconnect false
    ∷ child_data 0 (codes "all green")
    ∷ child_exit 0 0
    ∷ child_close 0 (some 0) none
    ∷ socket_connect
    ∷ []

read_word-shell_escape_example :
    (read_word plain [] (shell_escape (codes "it's") ++ codes " x")
      ≡ read_word plain (codes "it's") (codes " x"))
    × (read_word doubled [] (shell_escape (b'$' ∷ codes "it's") ++ codes " x") ≡ none)
read_word-shell_escape_example = read_word-shell_escape (codes "it's") [] (codes " x")

abbrev harmful : Placeholders
harmful = record { prompt = codes "$(id)"; input = codes "{}"; cwd = codes "/srv" }

-- With the default template and a shell, the quoted prompt stands within double quotes.
shell_plan :
    build_spawn_plan true default_command_template harmful
    ≡ some (record { shell = true; command = codes "codex exec \"'$(id)'\""; args = [] })
unfolding build_spawn_plan substitute shell_escape replace_all replace_from after
shell_plan = refl

shell_expands : read_word plain [] (codes "\"'$(id)'\"") ≡ none
unfolding read_word
shell_expands = refl

abbrev placeholders : Placeholders
placeholders = record { prompt = codes "say {{cwd}}"; input = codes "{}"; cwd = codes "/srv" }

build_spawn_plan-default_example :
    build_spawn_plan false default_command_template placeholders
    ≡ some (record {
      shell = false;
      command = codes "codex";
      args = codes "exec" ∷ filled placeholders ∷ [];
    })
build_spawn_plan-default_example = build_spawn_plan-default placeholders

-- The prompt does not arrive as it was written.
changed_prompt : filled placeholders ≡ codes "say /srv"
unfolding replace_all replace_from after
changed_prompt = refl

run-online_example :
    online (run events (initial config)) ≡ online (run (kept events) (online (initial config)))
run-online_example = run-online events (initial config) refl

run-agrees_example :
    agrees (run events (initial config)).objects (run events (initial config)).runners ≡ true
run-agrees_example = run-agrees config events

results-submissions_example :
    results 4 (emitted (run events (initial config))) ≤ submissions 4 events
results-submissions_example = results-submissions 4 config events

run-is_sent_nothing_example : all is_sent_nothing (run events (initial config)).objects ≡ true
run-is_sent_nothing_example = run-is_sent_nothing config events

-- A worker that has used up its quota cannot start.
abbrev limited_events : List Event
limited_events = submit (some 1) input (some (codes "usage limit")) ∷ []

abbrev failure : Failure
failure = record {
  category = FailureCategory.capacity_exhausted;
  retryable = true;
  message = codes "Worker capacity, quota, or rate-limit signal detected.";
  detail = codes "spawn failed: usage limit";
}

abbrev output : Output
output = error (codes "spawn failed: usage limit")

failure_sent :
    In
      (task_result 1 DaemonResultStatus.failed (some failure) output)
      (emitted (run limited_events (initial config)))
unfolding run step on_event on_task_submit start started finish_failed emit lookup get_elem? alter
    drop_task build_spawn_plan tokenize tokenize_from substitute strip_outer_quotes drop_quote
    replace_all replace_from after detect_structured_failure Failures.excerpt trim trim_start
    trim_end lines lines_from drop_return filter last_lines drop_lines join take_last drop found_any
    matches match_many match_one
failure_sent = head refl

hub_reaction_example :
    handle_daemon_task_result
      (result_payload
        (λ s. no_text)
        (λ o. no_text)
        1
        DaemonResultStatus.failed
        (some failure)
        output)
      world
    ≡ handle_retryable_capacity_failure
        (result_payload
          (λ s. no_text)
          (λ o. no_text)
          1
          DaemonResultStatus.failed
          (some failure)
          output)
        world
hub_reaction_example =
    hub_reaction (λ s. no_text) (λ o. no_text) config limited_events 1 DaemonResultStatus.failed
      (some failure) output world failure_sent

-- Task 4 runs under runner 0.
abbrev running : Runner
running = record (new_runner 4 input) { child = some spawned }

abbrev busy : Daemon
busy = record (initial config) { runners = (4, 0) ∷ []; objects = running ∷ [] }

abbrev later : List Event
later = socket_connect ∷ socket_disconnect false ∷ []

stays_up : (run (child_close 0 (some 0) none ∷ later) busy).exit_status ≡ none
unfolding run step on_event on_close get_elem? emit drop_task flush_buffer
stays_up = refl

running_there : get_elem? busy.objects 0 ≡ some running
unfolding get_elem?
running_there = refl

close-arrives_example :
    suc (results 4 (emitted busy))
    ≤ results 4 (run ((child_close 0 (some 0) none ∷ later) ++ socket_connect ∷ []) busy).wire
close-arrives_example =
    close-arrives 0 (some 0) none running busy running_there later refl refl refl stays_up

-- A prompt that names the input ends the quotes around it.
abbrev hostile : Placeholders
hostile = record { prompt = codes "{{input}}"; input = codes "$(id)"; cwd = codes "/srv" }

shell_command :
    build_spawn_plan true (codes "x {{prompt}}") hostile
    ≡ some (record { shell = true; command = codes "x ''$(id)''"; args = [] })
unfolding build_spawn_plan substitute shell_escape replace_all replace_from after
shell_command = refl

-- A task that the hub cancels while its child works; the child closes with an error.
abbrev until_cancel : List Event
until_cancel = socket_connect ∷ submit (some 4) input none ∷ child_data 0 (codes "working") ∷ []

abbrev after_cancel : List Event
after_cancel = child_exit 0 143 ∷ child_close 0 (some 143) none ∷ heartbeat_due ∷ []

no_restart : all_quiet 4 after_cancel ≡ true
unfolding all_quiet
no_restart = refl

cancelled_is_silent_example :
    let d = run until_cancel (initial config) in
    results 4 (emitted (run (cancel (some 4) ∷ after_cancel) d)) ≤ results 4 (emitted d)
cancelled_is_silent_example = cancelled_is_silent 4 config until_cancel after_cancel no_restart
