-- ===== src/Mobile/Screen.antt =====
-- The state of the app's screen (mobile-app/App.tsx), and what its callbacks and the messages of the
-- hub do to it. The answers of the hub are inputs, as are a push token and its errors; what the app
-- asks the hub for is kept in `calls`. A callback keeps the state that it was made in: here no event
-- comes between its start and its end.

pub mod Events
pub mod Selection
pub mod Updates
use code_caller.Prelude.{
  ℕ, String, ◌<>◌, Bool, true, false, not, ◌&&◌, ◌||◌, Option, none, some, is_some, List, [], ◌∷◌,
  ◌==◌, str_eq, if◌then◌else◌,
}
use code_caller.Schema.{WorkerType}
use code_caller.Text.{take_chars}
use code_caller.Mobile.{AuthTokens, Outcome, done, thrown}
use code_caller.Mobile.Items.{
  Tab, ServerItem, RegistrationItem, TaskItem, ApprovalItem, Call, Screen, AllData, servers_tab,
  new_task_tab, tasks_tab, approvals_tab, decide_approval_call, decide_registration_call,
  create_task_call, push_token_call, logout_call,
}

unfoldable pub has_server : ℕ → List ServerItem → Bool
has_server i [] = false
has_server i (s ∷ l) = let later = has_server i l in s.id == i || later

-- `serverData.find(…)?.id`
unfoldable pub named : String → List ServerItem → Option ℕ
named name [] = none
named name (s ∷ l) = let later = named name l in if str_eq s.name name then some s.id else later

abbrev pub first_id : List ServerItem → Option ℕ
first_id [] = none
first_id (s ∷ l) = some s.id

-- `a ?? b`
abbrev pub or_id : Option ℕ → Option ℕ → Option ℕ
or_id none b = b
or_id (some a) b = some a

abbrev default_server : List ServerItem → Option ℕ
default_server l = or_id (named "MacBook-Local" l) (first_id l)

-- The server that is selected after new servers have come.
unfoldable pub next_selected : List ServerItem → Option ℕ → Option ℕ
unfolding has_server named
next_selected l none = default_server l
next_selected l (some i) = if has_server i l then some i else default_server l

abbrev pub begin : Screen → Screen
begin s = record s { busy = true; error = none }

abbrev pub fail : String → Screen → Screen
fail e s = record s { busy = false; error = some e }

abbrev pub show : AllData → Screen → Screen
show d s = record s {
  servers = d.servers;
  registrations = d.registrations;
  selected_server = next_selected d.servers s.selected_server;
  tasks = d.tasks;
  approvals = d.approvals;
  busy = false;
}

-- `loadAll`, with what becomes of its four requests
unfoldable pub load_all : Outcome AllData → Screen → Screen
unfolding next_selected
load_all answers s = elim s.tokens [
  | none ↦ s
  | some t ↦ elim answers [ done d ↦ show d (begin s) | thrown e ↦ fail e (begin s) ]
]

abbrev pub call : Call → Screen → Screen
call c s = record s { calls = c ∷ s.calls }

-- After a request: the error, or the further steps.
abbrev pub after_request : {A : Type 0} → Outcome A → (A → Screen → Screen) → Screen → Screen
after_request answer next s = elim answer [
  | done a ↦ record (next a s) { busy = false }
  | thrown e ↦ fail e s
]

-- The reason that the app sends with a decision.
abbrev pub decision_reason : Bool → String
decision_reason true = "Approved from Android app"
decision_reason false = "Rejected from Android app"

-- `request` throws an error without a session, and asks nothing.
abbrev pub requested : {A : Type 0} → Call → Outcome A → (A → Screen → Screen) → Screen → Screen
requested c answer next s = elim s.tokens [
  | none ↦ fail "not authenticated" s
  | some t ↦ after_request answer next (call c s)
]

-- `decideApproval`
unfoldable pub decide_approval :
    ApprovalItem → Bool → Outcome (Unit {0}) → Outcome AllData → Screen → Screen
unfolding load_all
decide_approval approval approve answer answers s =
    requested (decide_approval_call approval.id approve (decision_reason approve)) answer
      (λ _. load_all answers) (begin s)

-- `decideServerRegistration`
unfoldable pub decide_registration :
    RegistrationItem → Bool → Outcome (Unit {0}) → Outcome AllData → Screen → Screen
unfolding load_all
decide_registration item approve answer answers s =
    requested (decide_registration_call item.id approve (decision_reason approve)) answer
      (λ _. load_all answers) (begin s)

-- `current.filter(item => item.id !== id)`
unfoldable pub other_tasks : ℕ → List TaskItem → List TaskItem
other_tasks i [] = []
other_tasks i (t ∷ l) = let others = other_tasks i l in if t.id == i then others else t ∷ others

unfoldable pub other_approvals : ℕ → List ApprovalItem → List ApprovalItem
other_approvals i [] = []
other_approvals i (a ∷ l) =
    let others = other_approvals i l in if a.id == i then others else a ∷ others

abbrev pub put_task : TaskItem → List TaskItem → List TaskItem
put_task t l = t ∷ other_tasks t.id l

abbrev pub put_approval : ApprovalItem → List ApprovalItem → List ApprovalItem
put_approval a l = a ∷ other_approvals a.id l

abbrev pub created : TaskItem → Screen → Screen
created t s = record s {
  tasks = put_task t s.tasks;
  prompt = "";
  worker_type = WorkerType.codex;
  tab = tasks_tab;
  selected_task = some t.id;
}

-- `createTask`, with `trim` of a text
unfoldable pub create_task :
    (String → String) → Outcome TaskItem → Outcome AllData → Screen → Screen
unfolding load_all other_tasks
create_task trim answer answers s = elim s.selected_server [
  | none ↦ s
  | some server_id ↦
      if str_eq (trim s.prompt) ""
      then s
      else requested (create_task_call server_id s.worker_type (trim s.prompt)) answer
          (λ t s. load_all answers (created t s)) (begin s)
]

-- `registerPushToken`, with the token that Firebase gives
unfoldable pub register_push_token : Outcome String → Outcome (Unit {0}) → Screen → Screen
unfolding take_chars
register_push_token token answer s = elim s.tokens [
  | none ↦ s
  | some t ↦ elim token [
    | thrown e ↦ refused e s
    | done token ↦ elim answer [
      | thrown e ↦ refused e (call (push_token_call token) s)
      | done _ ↦ record (call (push_token_call token) s) {
        error = none;
        push_state = "registered " <> (take_chars 12 token <> "...");
      }
    ]
  ]
]
  where
    refused : String → Screen → Screen
    refused e s = record s {
      push_state = "registration unavailable";
      error = some ("FCM registration failed: " <> e);
    }

abbrev refresh_call : Option AuthTokens → List Call → List Call
refresh_call none l = l
refresh_call (some t) l = if str_eq t.refresh_token "" then l else logout_call t.refresh_token ∷ l

-- `logout`, and the effect of the tokens that are gone
unfoldable pub logout : Screen → Screen
logout s = record s {
  tokens = none;
  servers = [];
  registrations = [];
  tasks = [];
  approvals = [];
  selected_server = none;
  selected_task = none;
  prompt = "";
  socket_state = "offline";
  calls = refresh_call s.tokens s.calls;
}

-- `approval:resolved`
unfoldable pub replace_approval : ApprovalItem → List ApprovalItem → List ApprovalItem
replace_approval a [] = []
replace_approval a (b ∷ l) = (if b.id == a.id then a else b) ∷ replace_approval a l

-- `tasks.find(task => task.id === id)`
unfoldable pub find_task : ℕ → List TaskItem → Option TaskItem
find_task i [] = none
find_task i (t ∷ l) = let later = find_task i l in if t.id == i then some t else later

unfoldable pub find_server : ℕ → List ServerItem → Option ServerItem
find_server i [] = none
find_server i (s ∷ l) = let later = find_server i l in if s.id == i then some s else later

-- The task that is open, its server, and the approval that it waits for.
abbrev pub open_task : Screen → Option TaskItem
open_task s = elim s.selected_task [ none ↦ none | some i ↦ find_task i s.tasks ]

abbrev pub open_task_server : Screen → Option ServerItem
open_task_server s = elim (open_task s) [ none ↦ none | some t ↦ find_server t.server_id s.servers ]

unfoldable pub pending_approval : ℕ → List ApprovalItem → Option ApprovalItem
pending_approval i [] = none
pending_approval i (a ∷ l) =
    let later = pending_approval i l in
    if a.task_id == i && str_eq a.status "PENDING" then some a else later

abbrev pub open_task_approval : Screen → Option ApprovalItem
open_task_approval s = elim (open_task s) [
  | none ↦ none
  | some t ↦ pending_approval t.id s.approvals
]
