-- ===== src/Mobile/Screen/Events.antt =====
-- What happens to the screen of the app (mobile-app/App.tsx): taps, and the messages of the socket.
use code_caller.Prelude.{
  ℕ, String, ◌<>◌, Bool, false, Option, none, some, List, [], ◌∷◌, if◌then◌else◌,
}
use code_caller.Schema.{WorkerType}
use code_caller.Mobile.{AuthTokens, Outcome}
use code_caller.Mobile.Items.{
  Tab, servers_tab, approvals_tab, RegistrationItem, TaskItem, ApprovalItem, AllData, Screen,
}
use code_caller.Mobile.Screen.{
  has_server, load_all, decide_approval, decide_registration, create_task, register_push_token,
  logout, put_task, put_approval, replace_approval, other_tasks, other_approvals,
}

-- A tap chooses among the servers that are shown. `signed_in` are new tokens, whose effect loads all.
pub data Event : Type 0 where
  signed_in : AuthTokens → Outcome AllData → Event
  reload : Outcome AllData → Event
  decide_tap : ApprovalItem → (approve : Bool) → Outcome (Unit {0}) → Outcome AllData → Event
  registration_tap :
      RegistrationItem → (approve : Bool) → Outcome (Unit {0}) → Outcome AllData → Event
  create_tap : (String → String) → Outcome TaskItem → Outcome AllData → Event
  push_tap : Outcome String → Outcome (Unit {0}) → Event
  logout_tap : Event
  server_tap : ℕ → Event
  task_tap : Option ℕ → Event
  tab_tap : Tab → Event
  worker_tap : WorkerType → Event
  prompt_typed : String → Event
  socket_connected : Event
  socket_lost : Event
  socket_failed : String → Event
  task_updated : TaskItem → Event
  approval_pending : ApprovalItem → Event
  approval_resolved : ApprovalItem → Event

unfoldable pub on_event : Event → Screen → Screen
unfolding load_all decide_approval decide_registration create_task register_push_token logout
    other_tasks other_approvals replace_approval has_server
on_event (signed_in t answers) s = load_all answers (record s { tokens = some t })
on_event (reload answers) s = load_all answers s
on_event (decide_tap a approve answer answers) s = decide_approval a approve answer answers s
on_event (registration_tap r approve answer answers) s =
    decide_registration r approve answer answers s
on_event (create_tap trim answer answers) s = create_task trim answer answers s
on_event (push_tap token answer) s = register_push_token token answer s
on_event logout_tap s = logout s
on_event (server_tap i) s =
    if has_server i s.servers then record s { selected_server = some i } else s
on_event (task_tap i) s = record s { selected_task = i }
on_event (tab_tap tab) s = record s { tab = tab }
on_event (worker_tap w) s = record s { worker_type = w }
on_event (prompt_typed p) s = record s { prompt = p }
on_event socket_connected s = record s { socket_state = "connected" }
on_event socket_lost s = record s { socket_state = "offline" }
on_event (socket_failed e) s = record s { socket_state = "error: " <> e }
on_event (task_updated t) s = record s { tasks = put_task t s.tasks }
on_event (approval_pending a) s = record s {
  approvals = put_approval a s.approvals;
  tab = approvals_tab;
}
on_event (approval_resolved a) s = record s { approvals = replace_approval a s.approvals }

unfoldable pub run : List Event → Screen → Screen
unfolding on_event
run [] s = s
run (e ∷ l) s = run l (on_event e s)

-- The first values of the hooks.
abbrev pub initial : Screen
initial = record {
  tokens = none;
  busy = false;
  error = none;
  tab = servers_tab;
  servers = [];
  registrations = [];
  tasks = [];
  approvals = [];
  selected_server = none;
  selected_task = none;
  worker_type = WorkerType.codex;
  prompt = "";
  socket_state = "offline";
  push_state = "not registered";
  calls = [];
}
