-- ===== src/Daemon/Client/Registry.antt =====
-- Which runners the client's map names (agent-daemon/src/client.js).
use code_caller.Prelude.{
  ℕ, ◌≡◌, refl, ◌∙◌, inl, inr, Bool, true, false, Option, none, some, List, [], ◌∷◌, ◌++◌, arith,
  length, Option-cases,
}
use code_caller.Events.{DaemonResultStatus}
use code_caller.Units.{Text, codes, take_last}
use code_caller.Daemon.Approvals.{detect}
use code_caller.Daemon.Failures.{detect_structured_failure, exited_well}
use code_caller.Daemon.State.{
  Config, Input, Runner, Message, heartbeat, Daemon, emit, get_elem?, lookup, assign, drop_task,
  task_running, task_log, approval_request, task_result, exited, error,
}
use code_caller.Daemon.Runner.{
  start, started, finish_failed, on_data, decide, kill, killed, on_close, on_error, resumed,
  received, handled, asked, spawned, output_of, status_of, tail_limit,
}
use code_caller.Daemon.Client.{
  Event, socket_connect, socket_disconnect, socket_error, submit, cancel, decision, heartbeat_due,
  child_data, child_error, child_exit, child_close, stop_signal, on_event, step, run, initial,
  on_task_submit, on_task_cancel, on_approval_decision, with_runner, with_task, flush_buffer,
  shutdown, exits,
}
use code_caller.Daemon.Client.Agreement.{is_of, agrees, agrees-alter, agrees-handled, agrees-new}

abbrev Agrees : Daemon → Type 0
Agrees d = agrees d.objects d.runners ≡ true

emit-Agrees : (m : Message) (d : Daemon) → Agrees d → Agrees (emit m d)
unfolding emit
emit-Agrees m d h = ground arith

assign-Agrees :
    (f : Runner → Runner) (i : ℕ) (d : Daemon)
    → ((t : ℕ) (r : Runner) → is_of t (some (f r)) ≡ is_of t (some r))
    → Agrees d
    → Agrees (assign i f d)
assign-Agrees f i d k h = agrees-alter f i d.objects d.runners k ∙ h

-- What is emitted at the end of a task does not matter.
ended-Agrees :
    (i : ℕ) (r : Runner) (m : Message) (d : Daemon)
    → get_elem? d.objects i ≡ some r
    → Agrees d
    → Agrees (drop_task r.task_id (emit m (assign i handled d)))
unfolding drop_task emit
ended-Agrees i r m d e h = ground (arith, agrees-handled i d.objects r d.runners e h)

dropped-Agrees :
    (i : ℕ) (r : Runner) (d : Daemon)
    → get_elem? d.objects i ≡ some r
    → Agrees d
    → Agrees (drop_task r.task_id (assign i handled d))
unfolding drop_task
dropped-Agrees i r d e h = agrees-handled i d.objects r d.runners e h

finish_failed-Agrees :
    (i : ℕ) (reason : Text) (d : Daemon) → Agrees d → Agrees (finish_failed i reason d)
unfolding finish_failed
finish_failed-Agrees i reason d h = elim (Option-cases (get_elem? d.objects i)) [
  | inl gone ↦ ground arith
  | inr (r, e) ↦ ground (
    arith,
    ended-Agrees i r
        (task_result r.task_id DaemonResultStatus.failed
          (detect_structured_failure none none reason) (error reason))
        d e h,
  )
]

on_close-Agrees :
    (i : ℕ) (code : Option ℕ) (signal : Option Text) (d : Daemon)
    → Agrees d
    → Agrees (on_close i code signal d)
unfolding on_close
on_close-Agrees i code signal d h = elim (Option-cases (get_elem? d.objects i)) [
  | inl gone ↦ ground arith
  | inr (r, e) ↦ ground (
    arith,
    ended-Agrees i r
        (task_result r.task_id (status_of (exited_well code signal))
          (detect_structured_failure code signal (output_of r)) (exited code signal r.last_chunk))
        d e h,
    dropped-Agrees i r d e h,
  )
]

start-Agrees : (i : ℕ) (failure : Option Text) (d : Daemon) → Agrees d → Agrees (start i failure d)
unfolding start started
start-Agrees i failure d h = elim (Option-cases (get_elem? d.objects i)) [
  | inl gone ↦ ground arith
  | inr (r, e) ↦ elim (Option-cases failure) [
    | inl works ↦ ground (
      arith,
      emit-Agrees (task_running r.task_id) (assign i (λ r. record r { child = some spawned }) d)
          (assign-Agrees (λ r. record r { child = some spawned }) i d (λ t r. refl) h),
    )
    | inr (message, fails) ↦
        ground (arith, finish_failed-Agrees i (codes "spawn failed: " ++ message) d h)
  ]
]

on_data-Agrees : (i : ℕ) (chunk : Text) (d : Daemon) → Agrees d → Agrees (on_data i chunk d)
unfolding on_data
on_data-Agrees i chunk d h = elim (Option-cases (get_elem? d.objects i)) [
  | inl gone ↦ ground arith
  | inr (r, e) ↦
      let taken = assign i (received chunk) d in
      let logged = emit (task_log r.task_id chunk) taken in
      let log_agrees =
        emit-Agrees (task_log r.task_id chunk) taken
          (assign-Agrees (received chunk) i d (λ t r. refl) h) in
      elim (Option-cases (detect (take_last tail_limit (r.tail ++ chunk)))) [
        | inl quiet ↦ ground arith
        | inr (reason, hit) ↦ ground (
          arith,
          emit-Agrees (approval_request r.task_id reason) (assign i asked logged)
              (assign-Agrees asked i logged (λ t r. refl) log_agrees),
        )
      ]
]

decide-Agrees : (i : ℕ) (approved : Bool) (d : Daemon) → Agrees d → Agrees (decide i approved d)
unfolding decide kill
decide-Agrees i false d h = assign-Agrees killed i d (λ t r. refl) h
decide-Agrees i true d h = elim (Option-cases (get_elem? d.objects i)) [
  | inl gone ↦ ground arith
  | inr (r, e) ↦ ground (arith, assign-Agrees resumed i d (λ t r. refl) h)
]

with_task-Agrees :
    (u : Option ℕ) (f : ℕ → Daemon → Daemon) (d : Daemon)
    → Agrees d
    → ((i : ℕ) → Agrees (f i d))
    → Agrees (with_task u f d)
with_task-Agrees none f d h k = h
with_task-Agrees (some u) f d h k = elim (Option-cases (lookup u d.runners)) [
  | inl unknown ↦ ground arith
  | inr (i, e) ↦ ground (arith, k i)
]

submit-Agrees :
    (u : ℕ) (input : Input) (failure : Option Text) (d : Daemon)
    → Agrees d
    → Agrees (on_task_submit (some u) input failure d)
unfolding on_task_submit
submit-Agrees u input failure d h = elim (Option-cases (lookup u d.runners)) [
  | inl unknown ↦ ground (
    arith,
    start-Agrees (length d.objects) failure (with_runner u input d)
        (agrees-new u input d.objects d.runners h),
  )
  | inr (i, e) ↦ ground arith
]

on_event-Agrees : (e : Event) (d : Daemon) → Agrees d → Agrees (on_event e d)
unfolding on_event flush_buffer shutdown on_task_submit on_task_cancel on_approval_decision on_error
    kill agrees
on_event-Agrees (submit (some u) input failure) d h = submit-Agrees u input failure d h
on_event-Agrees (submit none input failure) d h = h
on_event-Agrees (cancel u) d h =
    with_task-Agrees u kill d h (λ i. assign-Agrees killed i d (λ t r. refl) h)
on_event-Agrees (decision u approved) d h =
    with_task-Agrees u (λ i. decide i approved) d h (λ i. decide-Agrees i approved d h)
on_event-Agrees heartbeat_due d h = emit-Agrees heartbeat d h
on_event-Agrees (child_data i chunk) d h = on_data-Agrees i chunk d h
on_event-Agrees (child_error i message) d h =
    finish_failed-Agrees i (codes "child process error: " ++ message) d h
on_event-Agrees (child_exit i code) d h = assign-Agrees (exits code) i d (λ t r. refl) h
on_event-Agrees (child_close i code signal) d h = on_close-Agrees i code signal d h
on_event-Agrees socket_connect d h = h
on_event-Agrees (socket_disconnect true) d h = h
on_event-Agrees (socket_disconnect false) d h = h
on_event-Agrees socket_error d h = h
on_event-Agrees stop_signal d h = refl

run-keeps : (l : List Event) (d : Daemon) → Agrees d → Agrees (run l d)
unfolding run step
run-keeps [] d h = h
run-keeps (e ∷ l) d h = elim (Option-cases d.exit_status) [
  | inl runs ↦ ground (arith, run-keeps l (on_event e d) (on_event-Agrees e d h))
  | inr (status, ended) ↦ ground (arith, run-keeps l d h)
]

-- In any run from the daemon's start, each entry of the client's map names a runner of that very
-- task, which has not reported its end.
pub run-agrees :
    (config : Config) (l : List Event)
    → agrees (run l (initial config)).objects (run l (initial config)).runners ≡ true
unfolding agrees
run-agrees config l = run-keeps l (initial config) refl
