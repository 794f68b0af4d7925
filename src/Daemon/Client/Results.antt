-- ===== src/Daemon/Client/Results.antt =====
-- How many results the daemon (agent-daemon/src/client.js and runner.js) reports of a task.
use code_caller.Prelude.{
  ℕ, ◌+◌, ◌≤◌, refl, inl, inr, Bool, true, false, Option, none, some, List, [], ◌∷◌, ◌++◌, ◌==◌,
  arith, length, Option-cases, one_if,
}
use code_caller.Units.{Text, codes}
use code_caller.Daemon.State.{Config, Input, heartbeat, Daemon, lookup}
use code_caller.Daemon.Runner.{decide, kill, killed, on_error}
use code_caller.Daemon.Client.{
  Event, socket_connect, socket_disconnect, socket_error, submit, cancel, decision, heartbeat_due,
  child_data, child_error, child_exit, child_close, stop_signal, on_event, step, run, initial,
  on_task_submit, on_task_cancel, on_approval_decision, with_runner, flush_buffer, shutdown, exits,
  new_runner,
}
use code_caller.Daemon.Client.Due.{
  results, emitted, due, pending, results-++, pending-++, emit-due, assign-due, start-due,
  finish_failed-due, on_close-due, on_data-due, decide-due, dispose_all-pending, with_task-due,
}

abbrev submits : ℕ → Event → Bool
submits t (submit (some u) input failure) = u == t
submits t _ = false

-- How often the hub submitted a task.
unfoldable pub submissions : ℕ → List Event → ℕ
submissions t [] = 0
submissions t (e ∷ l) = one_if (submits t e) + submissions t l

module _ (t : ℕ) where
  submit-due :
      (u : ℕ) (input : Input) (failure : Option Text) (d : Daemon)
      → due t (on_task_submit (some u) input failure d) ≤ one_if (u == t) + due t d
  unfolding on_task_submit pending
  submit-due u input failure d = elim (Option-cases (lookup u d.runners)) [
    | inl unknown ↦ ground (
      arith,
      start-due t (length d.objects) failure (with_runner u input d),
      pending-++ t d.objects (new_runner u input ∷ []),
    )
    | inr (i, e) ↦ ground arith
  ]

  on_event-due : (e : Event) (d : Daemon) → due t (on_event e d) ≤ one_if (submits t e) + due t d
  unfolding on_event flush_buffer shutdown on_task_submit on_task_cancel on_approval_decision
      on_error kill results
  on_event-due socket_connect d = omega (arith, results-++ t d.wire d.buffer)
  on_event-due (socket_disconnect true) d = omega arith
  on_event-due (socket_disconnect false) d = omega arith
  on_event-due socket_error d = omega arith
  on_event-due (submit (some u) input failure) d = submit-due u input failure d
  on_event-due (submit none input failure) d = omega arith
  on_event-due (cancel u) d =
      omega
        (arith, with_task-due t u kill d (λ i. omega (arith, assign-due t killed i d (λ r. refl))))
  on_event-due (decision u approved) d =
      omega (arith, with_task-due t u (λ i. decide i approved) d (λ i. decide-due t i approved d))
  on_event-due heartbeat_due d = omega (arith, emit-due t heartbeat d)
  on_event-due (child_data i chunk) d = omega (arith, on_data-due t i chunk d)
  on_event-due (child_error i message) d =
      omega (arith, finish_failed-due t i (codes "child process error: " ++ message) d)
  on_event-due (child_exit i code) d = omega (arith, assign-due t (exits code) i d (λ r. refl))
  on_event-due (child_close i code signal) d = omega (arith, on_close-due t i code signal d)
  on_event-due stop_signal d = omega (arith, dispose_all-pending t d.runners d.objects)

  run-due : (l : List Event) (d : Daemon) → due t (run l d) ≤ submissions t l + due t d
  unfolding run step submissions
  run-due [] d = omega arith
  run-due (e ∷ l) d = elim (Option-cases d.exit_status) [
    | inl runs ↦ ground (arith, run-due l (on_event e d), on_event-due e d)
    | inr (status, ended) ↦ ground (arith, run-due l d)
  ]

  -- Whatever happens to the daemon, the results of a task that it emits are at most as many as
  -- the hub's submissions of that task.
  pub results-submissions :
      (config : Config) (l : List Event)
      → results t (emitted (run l (initial config))) ≤ submissions t l
  unfolding results pending
  results-submissions config l =
      let d = run l (initial config) in
      omega (arith, results-++ t d.wire d.buffer, run-due l (initial config))
