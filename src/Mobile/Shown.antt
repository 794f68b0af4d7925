-- ===== src/Mobile/Shown.antt =====
-- What the app shows of its state (mobile-app/App.tsx), without the layout.
use code_caller.Prelude.{
  ℕ, ◌≡◌, refl, String, Bool, false, not, ◌&&◌, ◌||◌, Option, none, some, is_some, inl, inr,
  Option-cases, List, [], ◌∷◌, length, str_eq, if◌then◌else◌, arith,
}
use code_caller.Mobile.{Outcome}
use code_caller.Mobile.Items.{Tab, TaskItem, ApprovalItem, AllData, Screen}
use code_caller.Mobile.Screen.{create_task, open_task, replace_approval}

-- Which of the app's views is there.
pub data View : Type 0 where
  restoring login_form main : View
  detail : TaskItem → View

abbrev signed_in_view : Option TaskItem → View
signed_in_view none = main
signed_in_view (some t) = detail t

-- the early returns of `CodeCallerApp`
unfoldable pub view : (booting : Bool) → Screen → View
view booting s =
    if booting
    then restoring
    else if is_some s.tokens
    then signed_in_view (open_task s)
    else login_form

-- `canSubmit` of the form for a new task
abbrev pub can_submit : (String → String) → Screen → Bool
can_submit trim s = (is_some s.selected_server && not (str_eq (trim s.prompt) "")) && not s.busy

-- The approvals that the list shows.
unfoldable pub pending_approvals : List ApprovalItem → List ApprovalItem
pending_approvals [] = []
pending_approvals (a ∷ l) =
    let rest = pending_approvals l in if str_eq a.status "PENDING" then a ∷ rest else rest

-- The number beside the name of a tab, if it has one.
abbrev pub badge : Screen → Tab → Option ℕ
badge s Tab.servers_tab = some (length s.servers)
badge s Tab.new_task_tab = none
badge s Tab.tasks_tab = some (length s.tasks)
badge s Tab.approvals_tab = some (length s.approvals)

-- `isLive` of a task, with `toUpperCase` of a text
abbrev pub is_live : (String → String) → TaskItem → Bool
is_live upper t =
    let status = upper t.status in
    str_eq status "QUEUED" || (str_eq status "RUNNING" || str_eq status "AWAITING_APPROVAL")

-- A form that cannot be sent is left alone, unless it is only busy.
create_task-idle :
    (trim : String → String) (answer : Outcome TaskItem) (answers : Outcome AllData) (s : Screen)
    → can_submit trim s ≡ false
    → s.busy ≡ false
    → create_task trim answer answers s ≡ s
unfolding create_task
create_task-idle trim answer answers s h b = elim (Option-cases s.selected_server) [
  | inl unselected ↦ ground arith
  | inr (i, e) ↦ ground arith
]

-- An approval that was decided elsewhere still counts in the number beside the tab.
length-replace_approval :
    (a : ApprovalItem) (l : List ApprovalItem) → length (replace_approval a l) ≡ length l
unfolding replace_approval
length-replace_approval a [] = refl
length-replace_approval a (b ∷ l) = ground (arith, length-replace_approval a l)
