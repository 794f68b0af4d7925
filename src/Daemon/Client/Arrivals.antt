-- ===== src/Daemon/Client/Arrivals.antt =====
-- That the result of a task reaches the hub (agent-daemon/src/client.js and runner.js).
use code_caller.Prelude.{
  ℕ, suc, ◌+◌, ◌≤◌, ◌≡◌, refl, ap, inl, inr, Bool, true, false, Option, none, some, List, [], ◌∷◌,
  ◌++◌, ==_refl, arith, length, Option-cases, one_if,
}
use code_caller.Events.{DaemonResultStatus}
use code_caller.Units.{Text, codes, take_last}
use code_caller.Daemon.Approvals.{detect}
use code_caller.Daemon.Failures.{detect_structured_failure, exited_well}
use code_caller.Daemon.State.{
  Input, Runner, Message, heartbeat, Daemon, emit, get_elem?, lookup, assign, drop_task,
  task_running, task_log, approval_request, task_result, exited, error,
}
use code_caller.Daemon.Runner.{
  start, started, finish_failed, on_data, decide, kill, on_close, on_error, received, handled,
  asked, spawned, output_of, status_of, tail_limit,
}
use code_caller.Daemon.Client.{
  Event, socket_connect, socket_disconnect, socket_error, submit, cancel, decision, heartbeat_due,
  child_data, child_error, child_exit, child_close, stop_signal, on_event, step, run,
  on_task_submit, on_task_cancel, on_approval_decision, with_runner, with_task, flush_buffer,
  shutdown,
}
use code_caller.Daemon.Client.Due.{is_result, results, results-++, emitted}

-- How many results of a task were emitted.
abbrev out : ℕ → Daemon → ℕ
out t d = results t d.wire + results t d.buffer

module _ (t : ℕ) where
  emit-out : (m : Message) (d : Daemon) → out t (emit m d) ≡ one_if (is_result t m) + out t d
  unfolding emit results
  emit-out m d = ground (arith, results-++ t d.wire (m ∷ []), results-++ t d.buffer (m ∷ []))

  finish_failed-out :
      (i : ℕ) (reason : Text) (d : Daemon) → out t d ≤ out t (finish_failed i reason d)
  unfolding finish_failed drop_task
  finish_failed-out i reason d = elim (Option-cases (get_elem? d.objects i)) [
    | inl gone ↦ ground arith
    | inr (r, e) ↦ ground (
      arith,
      emit-out
          (task_result r.task_id DaemonResultStatus.failed
            (detect_structured_failure none none reason) (error reason))
          (assign i handled d),
    )
  ]

  on_close-out :
      (i : ℕ) (code : Option ℕ) (signal : Option Text) (d : Daemon)
      → out t d ≤ out t (on_close i code signal d)
  unfolding on_close drop_task
  on_close-out i code signal d = elim (Option-cases (get_elem? d.objects i)) [
    | inl gone ↦ ground arith
    | inr (r, e) ↦ ground (
      arith,
      emit-out
          (task_result r.task_id (status_of (exited_well code signal))
            (detect_structured_failure code signal (output_of r)) (exited code signal r.last_chunk))
          (assign i handled d),
    )
  ]

  start-out : (i : ℕ) (failure : Option Text) (d : Daemon) → out t d ≤ out t (start i failure d)
  unfolding start started
  start-out i failure d = elim (Option-cases (get_elem? d.objects i)) [
    | inl gone ↦ ground arith
    | inr (r, e) ↦ elim (Option-cases failure) [
      | inl works ↦ ground (
        arith,
        emit-out (task_running r.task_id) (assign i (λ r. record r { child = some spawned }) d),
      )
      | inr (message, fails) ↦
          ground (arith, finish_failed-out i (codes "spawn failed: " ++ message) d)
    ]
  ]

  on_data-out : (i : ℕ) (chunk : Text) (d : Daemon) → out t d ≤ out t (on_data i chunk d)
  unfolding on_data
  on_data-out i chunk d = elim (Option-cases (get_elem? d.objects i)) [
    | inl gone ↦ ground arith
    | inr (r, e) ↦
        let taken = assign i (received chunk) d in
        let logged = emit (task_log r.task_id chunk) taken in
        let log_out = emit-out (task_log r.task_id chunk) taken in
        elim (Option-cases (detect (take_last tail_limit (r.tail ++ chunk)))) [
          | inl quiet ↦ ground (arith, log_out)
          | inr (reason, hit) ↦
              ground (
                arith,
                log_out,
                emit-out (approval_request r.task_id reason) (assign i asked logged),
              )
        ]
  ]

  decide-out : (i : ℕ) (approved : Bool) (d : Daemon) → out t d ≤ out t (decide i approved d)
  unfolding decide kill
  decide-out i false d = omega arith
  decide-out i true d = elim (Option-cases (get_elem? d.objects i)) [
    | inl gone ↦ ground arith
    | inr (r, e) ↦ ground arith
  ]

  with_task-out :
      (u : Option ℕ) (f : ℕ → Daemon → Daemon) (d : Daemon)
      → ((i : ℕ) → out t d ≤ out t (f i d))
      → out t d ≤ out t (with_task u f d)
  with_task-out none f d k = omega arith
  with_task-out (some u) f d k = elim (Option-cases (lookup u d.runners)) [
    | inl unknown ↦ ground arith
    | inr (i, e) ↦ ground (arith, k i)
  ]

  submit-out :
      (u : ℕ) (input : Input) (failure : Option Text) (d : Daemon)
      → out t d ≤ out t (on_task_submit (some u) input failure d)
  unfolding on_task_submit
  submit-out u input failure d = elim (Option-cases (lookup u d.runners)) [
    | inl unknown ↦ ground (arith, start-out (length d.objects) failure (with_runner u input d))
    | inr (i, e) ↦ ground arith
  ]

  on_event-out : (e : Event) (d : Daemon) → out t d ≤ out t (on_event e d)
  unfolding on_event flush_buffer shutdown on_task_submit on_task_cancel on_approval_decision
      on_error kill results
  on_event-out socket_connect d = omega (arith, results-++ t d.wire d.buffer)
  on_event-out (submit (some u) input failure) d = submit-out u input failure d
  on_event-out (submit none input failure) d = omega arith
  on_event-out (cancel u) d = with_task-out u kill d (λ i. omega arith)
  on_event-out (decision u approved) d =
      with_task-out u (λ i. decide i approved) d (λ i. decide-out i approved d)
  on_event-out heartbeat_due d = omega (arith, emit-out heartbeat d)
  on_event-out (child_data i chunk) d = on_data-out i chunk d
  on_event-out (child_error i message) d =
      finish_failed-out i (codes "child process error: " ++ message) d
  on_event-out (child_close i code signal) d = on_close-out i code signal d
  on_event-out (socket_disconnect true) d = omega arith
  on_event-out (socket_disconnect false) d = omega arith
  on_event-out socket_error d = omega arith
  on_event-out (child_exit i code) d = omega arith
  on_event-out stop_signal d = omega arith

  run-out : (l : List Event) (d : Daemon) → out t d ≤ out t (run l d)
  unfolding run step
  run-out [] d = omega arith
  run-out (e ∷ l) d = elim (Option-cases d.exit_status) [
    | inl runs ↦ ground (arith, run-out l (on_event e d), on_event-out e d)
    | inr (status, ended) ↦ ground (arith, run-out l d)
  ]

run-++ : (l k : List Event) (d : Daemon) → run (l ++ k) d ≡ run k (run l d)
unfolding run
run-++ [] k d = refl
run-++ (e ∷ l) k d = run-++ l k (step e d)

module _ (i : ℕ) (code : Option ℕ) (signal : Option Text) (r : Runner) (d : Daemon)
    (there : get_elem? d.objects i ≡ some r) where
  -- The close of a child that has not ended yet, and that the hub did not stop, is reported.
  close-out :
      r.exit_handled ≡ false
      → r.killed_by_hub ≡ false
      → out r.task_id (on_close i code signal d) ≡ suc (out r.task_id d)
  unfolding on_close drop_task
  close-out fresh wanted = ground (
    arith,
    ==_refl r.task_id,
    emit-out r.task_id
        (task_result r.task_id (status_of (exited_well code signal))
          (detect_structured_failure code signal (output_of r)) (exited code signal r.last_chunk))
        (assign i handled d),
  )

  connected-results :
      (t : ℕ) (d : Daemon)
      → d.exit_status ≡ none
      → results t (run (socket_connect ∷ []) d).wire ≡ out t d
  unfolding run step on_event flush_buffer
  connected-results t d runs = ground (arith, results-++ t d.wire d.buffer)

  close-first :
      (l : List Event)
      → d.exit_status ≡ none
      → run (child_close i code signal ∷ l) d ≡ run l (on_close i code signal d)
  unfolding run step on_event
  close-first l runs = ground arith

  -- When the child of a runner closes that has not reported its end and was not stopped by the
  -- hub, then after any further events in which the process goes on, the next connection has sent
  -- at least one result of the task more than had been emitted before the close.
  pub close-arrives :
      (l : List Event)
      → r.exit_handled ≡ false
      → r.killed_by_hub ≡ false
      → d.exit_status ≡ none
      → (run (child_close i code signal ∷ l) d).exit_status ≡ none
      → suc (results r.task_id (emitted d))
        ≤ results r.task_id (run ((child_close i code signal ∷ l) ++ socket_connect ∷ []) d).wire
  close-arrives l fresh wanted runs lasts =
      let after = run (child_close i code signal ∷ l) d in
      omega (
        arith,
        results-++ r.task_id d.wire d.buffer,
        ap (λ x. results r.task_id x.wire)
            (run-++ (child_close i code signal ∷ l) (socket_connect ∷ []) d),
        connected-results r.task_id after lasts,
        closed,
      )
    where
      closed : suc (out r.task_id d) ≤ out r.task_id (run (child_close i code signal ∷ l) d)
      closed = omega (
        arith,
        close-out fresh wanted,
        run-out r.task_id l (on_close i code signal d),
        ap (out r.task_id) (close-first l runs),
      )
