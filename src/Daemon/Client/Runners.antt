-- ===== src/Daemon/Client/Runners.antt =====
-- What holds of every runner (agent-daemon/src/runner.js) and of every message, whatever happens to
-- the daemon.
use code_caller.Prelude.{
  ℕ, ◌≡◌, refl, inl, inr, Bool, true, false, Option, none, some, List, [], ◌∷◌, ◌++◌, arith, length,
  Option-cases,
}
use code_caller.Events.{DaemonResultStatus}
use code_caller.Units.{Text, codes, take_last}
use code_caller.Daemon.Approvals.{detect}
use code_caller.Daemon.Failures.{detect_structured_failure, exited_well}
use code_caller.Daemon.State.{
  Input, Runner, Message, heartbeat, Daemon, emit, get_elem?, lookup, assign, alter, drop_task,
  task_running, task_log, approval_request, task_result, exited, error,
}
use code_caller.Daemon.Runner.{
  start, started, finish_failed, on_data, decide, kill, killed, on_close, on_error, resumed,
  received, handled, asked, spawned, output_of, status_of, tail_limit, disposed,
}
use code_caller.Daemon.Client.{
  Event, socket_connect, socket_disconnect, socket_error, submit, cancel, decision, heartbeat_due,
  child_data, child_error, child_exit, child_close, stop_signal, on_event, step, run,
  on_task_submit, on_task_cancel, on_approval_decision, with_runner, with_task, flush_buffer,
  shutdown, exits, dispose_all, new_runner,
}
use code_caller.Daemon.Client.Kept.{IsKept, all, all-++, all-alter}

module _ (P : Runner → Bool) (Q : Message → Bool) (laws : IsKept P Q) where
  abbrev pub Holds : Daemon → Type 0
  Holds d = (all P d.objects ≡ true) × (all Q d.wire ≡ true) × (all Q d.buffer ≡ true)

  emit-Holds : (m : Message) (d : Daemon) → Q m ≡ true → Holds d → Holds (emit m d)
  unfolding emit all
  emit-Holds m d q (o, w, b) =
      ground (
        arith,
        all-++ Q d.wire (m ∷ []) w (all-one m q),
        all-++ Q d.buffer (m ∷ []) b (all-one m q),
      )
    where
      all-one : (m : Message) → Q m ≡ true → all Q (m ∷ []) ≡ true
      all-one m q = ground arith

  assign-Holds :
      (f : Runner → Runner) (i : ℕ) (d : Daemon)
      → ((r : Runner) → P r ≡ true → P (f r) ≡ true)
      → Holds d
      → Holds (assign i f d)
  assign-Holds f i d k (o, w, b) = (all-alter P f i d.objects k o, w, b)

  finish_failed-Holds :
      (i : ℕ) (reason : Text) (d : Daemon) → Holds d → Holds (finish_failed i reason d)
  unfolding finish_failed drop_task
  finish_failed-Holds i reason d h = elim (Option-cases (get_elem? d.objects i)) [
    | inl gone ↦ ground arith
    | inr (r, e) ↦ ground (
      arith,
      emit-Holds
          (task_result r.task_id DaemonResultStatus.failed
            (detect_structured_failure none none reason) (error reason))
          (assign i handled d) (laws.say_failed r.task_id reason)
          (assign-Holds handled i d laws.handle h),
    )
  ]

  start-Holds : (i : ℕ) (failure : Option Text) (d : Daemon) → Holds d → Holds (start i failure d)
  unfolding start started
  start-Holds i failure d h = elim (Option-cases (get_elem? d.objects i)) [
    | inl gone ↦ ground arith
    | inr (r, e) ↦ elim (Option-cases failure) [
      | inl works ↦ ground (
        arith,
        emit-Holds (task_running r.task_id) (assign i (λ r. record r { child = some spawned }) d)
            (laws.say_running r.task_id)
            (assign-Holds (λ r. record r { child = some spawned }) i d laws.launch h),
      )
      | inr (message, fails) ↦
          ground (arith, finish_failed-Holds i (codes "spawn failed: " ++ message) d h)
    ]
  ]

  on_data-Holds : (i : ℕ) (chunk : Text) (d : Daemon) → Holds d → Holds (on_data i chunk d)
  unfolding on_data
  on_data-Holds i chunk d h = elim (Option-cases (get_elem? d.objects i)) [
    | inl gone ↦ ground arith
    | inr (r, e) ↦
        let taken = assign i (received chunk) d in
        let logged = emit (task_log r.task_id chunk) taken in
        let log_holds =
          emit-Holds (task_log r.task_id chunk) taken (laws.say_log r.task_id chunk)
            (assign-Holds (received chunk) i d (laws.receive chunk) h) in
        elim (Option-cases (detect (take_last tail_limit (r.tail ++ chunk)))) [
          | inl quiet ↦ ground arith
          | inr (reason, hit) ↦ ground (
            arith,
            emit-Holds (approval_request r.task_id reason) (assign i asked logged)
                (laws.say_request r.task_id (take_last tail_limit (r.tail ++ chunk)) reason hit)
                (assign-Holds asked i logged laws.ask log_holds),
          )
        ]
  ]

  on_close-Holds :
      (i : ℕ) (code : Option ℕ) (signal : Option Text) (d : Daemon)
      → Holds d
      → Holds (on_close i code signal d)
  unfolding on_close drop_task
  on_close-Holds i code signal d h = elim (Option-cases (get_elem? d.objects i)) [
    | inl gone ↦ ground arith
    | inr (r, e) ↦
        let ended = assign-Holds handled i d laws.handle h in
        ground (
          arith,
          emit-Holds
              (task_result r.task_id (status_of (exited_well code signal))
                (detect_structured_failure code signal (output_of r))
                (exited code signal r.last_chunk))
              (assign i handled d)
              (laws.say_result r.task_id code signal (output_of r) r.last_chunk) ended,
        )
  ]

  decide-Holds : (i : ℕ) (approved : Bool) (d : Daemon) → Holds d → Holds (decide i approved d)
  unfolding decide kill
  decide-Holds i false d h = assign-Holds killed i d laws.cancel h
  decide-Holds i true d h = elim (Option-cases (get_elem? d.objects i)) [
    | inl gone ↦ ground arith
    | inr (r, e) ↦ ground (arith, assign-Holds resumed i d laws.resume h)
  ]

  all-dispose_all :
      (l : List (ℕ × ℕ)) (objects : List Runner)
      → all P objects ≡ true
      → all P (dispose_all l objects) ≡ true
  unfolding dispose_all
  all-dispose_all [] objects h = h
  all-dispose_all ((u, i) ∷ l) objects h =
      all-dispose_all l (alter i disposed objects) (all-alter P disposed i objects laws.dispose h)

  with_task-Holds :
      (u : Option ℕ) (f : ℕ → Daemon → Daemon) (d : Daemon)
      → Holds d
      → ((i : ℕ) → Holds (f i d))
      → Holds (with_task u f d)
  with_task-Holds none f d h k = h
  with_task-Holds (some u) f d h k = elim (Option-cases (lookup u d.runners)) [
    | inl unknown ↦ ground arith
    | inr (i, e) ↦ ground (arith, k i)
  ]

  all-new : (u : ℕ) (input : Input) → all P (new_runner u input ∷ []) ≡ true
  unfolding all
  all-new u input = ground (arith, laws.new u input)

  with_runner-Holds : (u : ℕ) (input : Input) (d : Daemon) → Holds d → Holds (with_runner u input d)
  with_runner-Holds u input d (o, w, b) =
      (all-++ P d.objects (new_runner u input ∷ []) o (all-new u input), w, b)

  submit-Holds :
      (u : ℕ) (input : Input) (failure : Option Text) (d : Daemon)
      → Holds d
      → Holds (on_task_submit (some u) input failure d)
  unfolding on_task_submit
  submit-Holds u input failure d h = elim (Option-cases (lookup u d.runners)) [
    | inl unknown ↦ ground (
      arith,
      start-Holds (length d.objects) failure (with_runner u input d)
          (with_runner-Holds u input d h),
    )
    | inr (i, e) ↦ ground arith
  ]

  on_event-Holds : (e : Event) (d : Daemon) → Holds d → Holds (on_event e d)
  unfolding on_event flush_buffer shutdown on_task_submit on_task_cancel on_approval_decision
      on_error kill all
  on_event-Holds socket_connect d (o, w, b) = (o, all-++ Q d.wire d.buffer w b, refl)
  on_event-Holds (socket_disconnect true) d h = h
  on_event-Holds (socket_disconnect false) d h = h
  on_event-Holds socket_error d h = h
  on_event-Holds (submit (some u) input failure) d h = submit-Holds u input failure d h
  on_event-Holds (submit none input failure) d h = h
  on_event-Holds (cancel u) d h =
      with_task-Holds u kill d h (λ i. assign-Holds killed i d laws.cancel h)
  on_event-Holds (decision u approved) d h =
      with_task-Holds u (λ i. decide i approved) d h (λ i. decide-Holds i approved d h)
  on_event-Holds heartbeat_due d h = emit-Holds heartbeat d laws.say_heartbeat h
  on_event-Holds (child_data i chunk) d h = on_data-Holds i chunk d h
  on_event-Holds (child_error i message) d h =
      finish_failed-Holds i (codes "child process error: " ++ message) d h
  on_event-Holds (child_exit i code) d h = assign-Holds (exits code) i d (laws.leave code) h
  on_event-Holds (child_close i code signal) d h = on_close-Holds i code signal d h
  on_event-Holds stop_signal d (o, w, b) = (all-dispose_all d.runners d.objects o, w, b)

  pub run-Holds : (l : List Event) (d : Daemon) → Holds d → Holds (run l d)
  unfolding run step
  run-Holds [] d h = h
  run-Holds (e ∷ l) d h = elim (Option-cases d.exit_status) [
    | inl runs ↦ ground (arith, run-Holds l (on_event e d) (on_event-Holds e d h))
    | inr (status, ended) ↦ ground (arith, run-Holds l d h)
  ]
