-- ===== src/Daemon/Client/Steady.antt =====
-- What each event does to the daemon (agent-daemon/src/client.js) while there is no connection, compared with what it
-- does while there is one.
use code_caller.Prelude.{
  ℕ, ◌≡◌, refl, inl, inr, Bool, true, false, not, Option, none, some, List, [], ◌∷◌, ◌++◌, arith,
  if◌then◌else◌, length, Option-cases,
}
use mathlib.Core.List.{append-nil, append_assoc}
use code_caller.Events.{DaemonResultStatus}
use code_caller.Units.{Text, codes, take_last}
use code_caller.Daemon.Approvals.{detect}
use code_caller.Daemon.Failures.{detect_structured_failure, exited_well}
use code_caller.Daemon.State.{
  Input, Runner, Message, heartbeat, Daemon, emit, get_elem?, lookup, assign, drop_task,
  task_running, task_log, approval_request, task_result, exited, error,
}
use code_caller.Daemon.Runner.{
  start, started, finish_failed, on_data, decide, kill, on_close, on_error, received, handled,
  asked, spawned, output_of, status_of, tail_limit,
}
use code_caller.Daemon.Client.{
  Event, socket_connect, socket_disconnect, socket_error, submit, cancel, decision, heartbeat_due,
  child_data, child_error, child_exit, child_close, stop_signal, on_event, on_task_submit,
  on_task_cancel, on_approval_decision, with_runner, with_task,
}

-- The daemon as if it had been connected all along.
abbrev pub online : Daemon → Daemon
online d = record d { connected = true; wire = d.wire ++ d.buffer; buffer = [] }

-- Nothing waits while there is a connection.
abbrev pub none_waits : List Message → Bool
none_waits [] = true
none_waits (m ∷ l) = false

abbrev pub IsOrdered : Daemon → Type 0
IsOrdered d = (if d.connected then none_waits d.buffer else true) ≡ true

none_waits-nil : (l : List Message) → none_waits l ≡ true → l ≡ []
none_waits-nil [] h = refl
none_waits-nil (m ∷ l) h = cc

-- What a change does to a daemon it does to the one that was connected all along.
abbrev pub Steady : (Daemon → Daemon) → Daemon → Type 0
Steady f d = (online (f d) ≡ f (online d)) × IsOrdered (f d)

emit-Steady : (m : Message) (d : Daemon) → IsOrdered d → Steady (emit m) d
unfolding emit
emit-Steady m d o = ground (
  arith,
  none_waits-nil d.buffer,
  append_assoc d.wire d.buffer (m ∷ []),
  append-nil d.wire,
  append-nil (d.wire ++ m ∷ []),
)

finish_failed-Steady :
    (i : ℕ) (reason : Text) (d : Daemon) → IsOrdered d → Steady (finish_failed i reason) d
unfolding finish_failed drop_task
finish_failed-Steady i reason d o = elim (Option-cases (get_elem? d.objects i)) [
  | inl gone ↦ ground arith
  | inr (r, e) ↦ ground (
    arith,
    emit-Steady
        (task_result r.task_id DaemonResultStatus.failed
          (detect_structured_failure none none reason) (error reason))
        (assign i handled d),
  )
]

started-Steady :
    (i : ℕ) (failure : Option Text) (r : Runner) (d : Daemon)
    → IsOrdered d
    → Steady (started i failure r) d
unfolding started
started-Steady i (some message) r d o =
    finish_failed-Steady i (codes "spawn failed: " ++ message) d o
started-Steady i none r d o =
    emit-Steady (task_running r.task_id) (assign i (λ r. record r { child = some spawned }) d) o

start-Steady :
    (i : ℕ) (failure : Option Text) (d : Daemon) → IsOrdered d → Steady (start i failure) d
unfolding start
start-Steady i failure d o = elim (Option-cases (get_elem? d.objects i)) [
  | inl gone ↦ ground arith
  | inr (r, e) ↦ ground (arith, started-Steady i failure r d o)
]

on_data-Steady : (i : ℕ) (chunk : Text) (d : Daemon) → IsOrdered d → Steady (on_data i chunk) d
unfolding on_data
on_data-Steady i chunk d o = elim (Option-cases (get_elem? d.objects i)) [
  | inl gone ↦ ground arith
  | inr (r, e) ↦
      let logged = emit (task_log r.task_id chunk) (assign i (received chunk) d) in
      let log_steady = emit-Steady (task_log r.task_id chunk) (assign i (received chunk) d) o in
      elim (Option-cases (detect (take_last tail_limit (r.tail ++ chunk)))) [
        | inl quiet ↦ ground arith
        | inr (reason, hit) ↦ ground (
          arith,
          emit-Steady (approval_request r.task_id reason) (assign i asked logged) (log_steady.1),
        )
      ]
]

on_close-Steady :
    (i : ℕ) (code : Option ℕ) (signal : Option Text) (d : Daemon)
    → IsOrdered d
    → Steady (on_close i code signal) d
unfolding on_close drop_task
on_close-Steady i code signal d o = elim (Option-cases (get_elem? d.objects i)) [
  | inl gone ↦ ground arith
  | inr (r, e) ↦ ground (
    arith,
    emit-Steady
        (task_result r.task_id (status_of (exited_well code signal))
          (detect_structured_failure code signal (output_of r)) (exited code signal r.last_chunk))
        (assign i handled d),
  )
]

decide-Steady : (i : ℕ) (approved : Bool) (d : Daemon) → IsOrdered d → Steady (decide i approved) d
unfolding decide kill
decide-Steady i true d o = ground arith
decide-Steady i false d o = ground arith

-- The events that only say whether there is a connection.
abbrev pub is_loss : Event → Bool
is_loss socket_connect = true
is_loss (socket_disconnect by_server) = not by_server
is_loss socket_error = true
is_loss _ = false

submit-Steady :
    (t : Option ℕ) (input : Input) (failure : Option Text) (d : Daemon)
    → IsOrdered d
    → Steady (on_task_submit t input failure) d
unfolding on_task_submit
submit-Steady none input failure d o = (refl, o)
submit-Steady (some t) input failure d o =
    ground (arith, start-Steady (length d.objects) failure (with_runner t input d) o)

with_task-Steady :
    (t : Option ℕ) (f : ℕ → Daemon → Daemon) (d : Daemon)
    → IsOrdered d
    → ((i : ℕ) → Steady (f i) d)
    → Steady (with_task t f) d
with_task-Steady none f d o k = (refl, o)
with_task-Steady (some t) f d o k = elim (Option-cases (lookup t d.runners)) [
  | inl unknown ↦ ground arith
  | inr (i, e) ↦ ground (arith, k i)
]

-- The events that end the process.
abbrev pub is_end : Event → Bool
is_end (socket_disconnect by_server) = by_server
is_end stop_signal = true
is_end _ = false

pub on_event-Steady :
    (e : Event) (d : Daemon)
    → IsOrdered d
    → is_loss e ≡ false
    → is_end e ≡ false
    → Steady (on_event e) d
unfolding on_event on_task_cancel on_approval_decision on_error kill
on_event-Steady socket_connect d o k n = cc
on_event-Steady (socket_disconnect true) d o k n = cc
on_event-Steady (socket_disconnect false) d o k n = cc
on_event-Steady socket_error d o k n = cc
on_event-Steady (submit t input failure) d o k n = submit-Steady t input failure d o
on_event-Steady (cancel t) d o k n = with_task-Steady t kill d o (λ i. (refl, o))
on_event-Steady (decision t approved) d o k n =
    with_task-Steady t (λ i. decide i approved) d o (λ i. decide-Steady i approved d o)
on_event-Steady heartbeat_due d o k n = emit-Steady heartbeat d o
on_event-Steady (child_data i chunk) d o k n = on_data-Steady i chunk d o
on_event-Steady (child_error i message) d o k n =
    finish_failed-Steady i (codes "child process error: " ++ message) d o
on_event-Steady (child_exit i code) d o k n = (refl, o)
on_event-Steady (child_close i code signal) d o k n = on_close-Steady i code signal d o
on_event-Steady stop_signal d o k n = cc
