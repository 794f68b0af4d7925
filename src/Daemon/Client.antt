-- ===== src/Daemon/Client.antt =====
-- agent-daemon/src/client.js and index.js: what the daemon does at each event.
pub mod Steady
pub mod Delivery
pub mod Due
pub mod Results
pub mod Arrivals
pub mod Kept
pub mod Runners
pub mod Tails
pub mod Agreement
pub mod Registry
pub mod Single
pub mod Live
pub mod Silence
use code_caller.Prelude.{
  ℕ, zero, suc, Bool, true, false, not, Option, none, some, List, [], ◌∷◌, ◌++◌, ◌==◌, length,
  if◌then◌else◌,
}
use code_caller.Units.{Text}
use code_caller.Daemon.State.{
  Config, Input, Child, Runner, Message, heartbeat, Daemon, emit, lookup, drop_task, get_elem?,
  alter, assign,
}
use code_caller.Daemon.Runner.{start, on_data, kill, decide, on_close, on_error, if_alive, disposed}

-- `connect` and `error` are events of the socket, the next three are messages of the hub. A message
-- to submit comes with what `spawn` will do; the events of children name their runner.
pub data Event : Type 0 where
  socket_connect : Event
  socket_disconnect : (by_server : Bool) → Event
  socket_error : Event
  submit : Option ℕ → Input → (spawn_error : Option Text) → Event
  cancel : Option ℕ → Event
  decision : Option ℕ → (approved : Bool) → Event
  heartbeat_due : Event
  child_data : (runner : ℕ) → Text → Event
  child_error : (runner : ℕ) → Text → Event
  child_exit : (runner : ℕ) → (code : ℕ) → Event
  child_close : (runner : ℕ) → (code : Option ℕ) → (signal : Option Text) → Event
  stop_signal : Event

abbrev pub new_runner : ℕ → Input → Runner
new_runner task_id input = record {
  task_id = task_id;
  input = input;
  child = none;
  awaiting_approval = false;
  killed_by_hub = false;
  last_chunk = [];
  tail = [];
  exit_handled = false;
}

unfoldable pub flush_buffer : Daemon → Daemon
flush_buffer d = record d { wire = d.wire ++ d.buffer; buffer = [] }

-- `new TaskRunner(…)` and `runners.set(…)`
abbrev pub with_runner : ℕ → Input → Daemon → Daemon
with_runner task_id input d = record d {
  objects = d.objects ++ new_runner task_id input ∷ [];
  runners = d.runners ++ (task_id, length d.objects) ∷ [];
}

unfoldable pub on_task_submit : Option ℕ → Input → Option Text → Daemon → Daemon
unfolding start
on_task_submit none input failure d = d
on_task_submit (some task_id) input failure d = elim (lookup task_id d.runners) [
  | some _ ↦ d
  | none ↦ start (length d.objects) failure (with_runner task_id input d)
]

-- `runners.get(taskId)`
abbrev pub with_task : Option ℕ → (ℕ → Daemon → Daemon) → Daemon → Daemon
with_task none f d = d
with_task (some task_id) f d = elim (lookup task_id d.runners) [ none ↦ d | some i ↦ f i d ]

unfoldable pub on_task_cancel : Option ℕ → Daemon → Daemon
unfolding kill
on_task_cancel task_id = with_task task_id kill

unfoldable pub on_approval_decision : Option ℕ → Bool → Daemon → Daemon
unfolding decide
on_approval_decision task_id approved = with_task task_id (λ i. decide i approved)

unfoldable pub dispose_all : List (ℕ × ℕ) → List Runner → List Runner
dispose_all [] objects = objects
dispose_all ((t, i) ∷ l) objects = dispose_all l (alter i disposed objects)

unfoldable pub shutdown : Daemon → Daemon
unfolding dispose_all
shutdown d = record d {
  heartbeat_on = false;
  objects = dispose_all d.runners d.objects;
  runners = [];
  connected = false;
}

-- the process that `exit` ends
abbrev pub exit : ℕ → Daemon → Daemon
exit status d = record d { exit_status = some status }

abbrev pub exits : ℕ → Runner → Runner
exits code r = record r { child = if_alive (λ c. record c { exit_code = some code }) r.child }

unfoldable pub on_event : Event → Daemon → Daemon
unfolding flush_buffer on_task_submit on_task_cancel on_approval_decision on_data on_error on_close
    shutdown
on_event socket_connect d = flush_buffer (record d { connected = true })
on_event (socket_disconnect true) d = exit 1 (record d { connected = false })
on_event (socket_disconnect false) d = record d { connected = false }
on_event socket_error d = d
on_event (submit task_id input failure) d = on_task_submit task_id input failure d
on_event (cancel task_id) d = on_task_cancel task_id d
on_event (decision task_id approved) d = on_approval_decision task_id approved d
on_event heartbeat_due d = emit heartbeat d
on_event (child_data i chunk) d = on_data i chunk d
on_event (child_error i message) d = on_error i message d
on_event (child_exit i code) d = assign i (exits code) d
on_event (child_close i code signal) d = on_close i code signal d
on_event stop_signal d = exit 0 (shutdown d)

-- A process that has ended does nothing more.
unfoldable pub step : Event → Daemon → Daemon
unfolding on_event
step e d = elim d.exit_status [ none ↦ on_event e d | some _ ↦ d ]

unfoldable pub run : List Event → Daemon → Daemon
unfolding step
run [] d = d
run (e ∷ l) d = run l (step e d)

-- `new DaemonClient(…)` and `connect()`
abbrev pub initial : Config → Daemon
initial config = record {
  config = config;
  connected = false;
  buffer = [];
  wire = [];
  runners = [];
  objects = [];
  heartbeat_on = true;
  exit_status = none;
}
