-- ===== src/Mobile/Pages.antt =====
-- The pages of the app: the restoring of a session, the login, the details of a task, and the page
-- with the tabs (mobile-app/App.tsx).
use code_caller.Prelude.{
  ℕ, String, Bool, false, ◌||◌, Option, none, some, List, [], ◌∷◌, ◌++◌, str_eq, leb, if◌then◌else◌,
}
use code_caller.Text.{decimal}
use code_caller.Units.{Text, codes, trim}
use code_caller.Mobile.Display.{Tone, success, danger, warning, normalize_status}
use code_caller.Mobile.Results.{extract_result}
use code_caller.Mobile.Wording.{format_date, push_summary}
use code_caller.Mobile.Items.{
  Tab, servers_tab, new_task_tab, tasks_tab, approvals_tab, ServerItem, TaskItem, ApprovalItem,
  Screen,
}
use code_caller.Mobile.Screen.{open_task_server, open_task_approval}
use code_caller.Mobile.Shown.{view, restoring, login_form, main, detail, badge, is_live}
use code_caller.Mobile.Parts.{
  Locale, Line, words, dot, log_in, reload, log_out, register_push, show_task, change_tab, Input,
  Part, line, spinner, input, button, say, or_text, reason_or, status_pill, error_banner,
  labelled_button, spinner_if, each,
}
use code_caller.Mobile.Views.{
  id, prompt_text, no_reason, decision_buttons, servers_list, new_task_screen, tasks_list,
  approvals_list,
}

-- `task.logs?.trim() || …`
abbrev pub logs_text : Option String → Text
logs_text none = codes "아직 로그가 없습니다."
logs_text (some logs) = or_text (trim (codes logs)) (codes "아직 로그가 없습니다.")

-- `server?.name ?? …`
abbrev pub server_name_or : Option ServerItem → Text → Text
server_name_or none b = b
server_name_or (some server) b = codes server.name

-- What the login asks for, and the address that it goes to.
pub record Form : Type 0 where
  pub active_url : String
  pub email : String
  pub password : String

abbrev pub tabs : List Tab
tabs = servers_tab ∷ new_task_tab ∷ tasks_tab ∷ approvals_tab ∷ []

abbrev pub tab_icon : Tab → String
tab_icon Tab.servers_tab = "S"
tab_icon Tab.new_task_tab = "+"
tab_icon Tab.tasks_tab = "T"
tab_icon Tab.approvals_tab = "A"

abbrev pub tab_label : Tab → String
tab_label Tab.servers_tab = "Servers"
tab_label Tab.new_task_tab = "New"
tab_label Tab.tasks_tab = "Tasks"
tab_label Tab.approvals_tab = "Approvals"

abbrev pub badge_lines : Option ℕ → List Line
badge_lines none = []
badge_lines (some count) =
    if leb count 0
    then []
    else words (if leb count 99 then codes (decimal count) else codes "99+") ∷ []

abbrev pub tab_button : Screen → Tab → List Part
tab_button s tab =
    button false (change_tab tab) (
      words (codes (tab_icon tab))
      ∷ (badge_lines (badge s tab) ++ (words (codes (tab_label tab)) ∷ [])))
    ∷ []

-- `BottomNavigation`
unfoldable pub bottom_navigation : Screen → List Part
unfolding each
bottom_navigation s = each (tab_button s) tabs

abbrev pub dot_tone : Tone → Tone
dot_tone Tone.success = success
dot_tone Tone.danger = danger
dot_tone _ = warning

module _ (locale : Locale) where
  abbrev pub approval_section : Bool → Option ApprovalItem → List Part
  approval_section busy none = []
  approval_section busy (some approval) =
      say "승인 요청"
      ∷ line (words (reason_or approval.reason (no_reason locale)))
      ∷ decision_buttons locale busy approval

  -- `TaskDetailScreen`
  unfoldable pub task_detail_screen :
      Bool → Option ServerItem → Option ApprovalItem → TaskItem → List Part
  task_detail_screen busy server approval task =
      button false (show_task none) (words (codes "Back") ∷ [])
      ∷ say "Task Detail"
      ∷ line (
          words (
            codes task.worker_type
            ++ (codes " / " ++ server_name_or server (id locale task.server_id))))
      ∷ line (status_pill locale task.status)
      ∷ say task.worker_type
      ∷ line (
          words (
            server_name_or server (codes "Unknown server")
            ++ (codes " / 요청 " ++ format_date locale.format (some (codes task.created_at)))))
      ∷ line (status_pill locale task.status)
      ∷ line (words (codes "Task " ++ id locale task.id))
      ∷ line (words (codes "Server " ++ id locale task.server_id))
      ∷ (approval_section busy approval
          ++ (say "프롬프트"
              ∷ line (words (prompt_text locale task))
              ∷ say "결과"
              ∷ line (words (extract_result locale.stringify task.result))
              ∷ say "로그"
              ∷ ((if is_live locale.upper task then say "실행 중에는 최신 로그로 자동 이동합니다." ∷ [] else [])
                  ++ (line (words (logs_text task.logs)) ∷ []))))

  -- The early return for a session that is being restored.
  abbrev pub restoring_page : List Part
  restoring_page = spinner ∷ say "세션을 복원하는 중" ∷ []

  -- the early return without a session
  abbrev pub login_page : Form → Screen → List Part
  login_page form s =
      say "Code Caller"
      ∷ line (words (codes "Hub API: " ++ codes form.active_url))
      ∷ input Input.email (codes "Email") (codes form.email)
      ∷ input Input.password (codes "Password") (codes form.password)
      ∷ labelled_button (s.busy || (str_eq form.email "" || str_eq form.password "")) "Login" log_in
      ∷ (spinner_if s.busy ++ error_banner s.error)

  -- `content`
  abbrev pub content : Tab → Screen → List Part
  content Tab.servers_tab s = servers_list locale s
  content Tab.new_task_tab s = new_task_screen locale s
  content Tab.tasks_tab s = tasks_list locale s
  content Tab.approvals_tab s = approvals_list locale s

  -- what stands above the content
  unfoldable pub header : Screen → List Part
  unfolding normalize_status push_summary
  header s =
      let socket = normalize_status locale.upper s.socket_state in
      let push = push_summary (codes s.push_state) in
      say "Code Caller"
      ∷ line (dot (dot_tone socket.tone))
      ∷ say socket.label
      ∷ labelled_button s.busy (if s.busy then "..." else "R") reload
      ∷ labelled_button false "Logout" log_out
      ∷ line (words push.title)
      ∷ line (words push.detail)
      ∷ labelled_button false "등록" register_push
      ∷ (error_banner s.error ++ spinner_if s.busy)

  abbrev pub main_page : Screen → List Part
  main_page s = header s ++ (content s.tab s ++ bottom_navigation s)

  -- What `CodeCallerApp` returns.
  unfoldable pub page : (booting : Bool) → Form → Screen → List Part
  unfolding view task_detail_screen header servers_list new_task_screen tasks_list approvals_list
      bottom_navigation
  page booting form s = elim (view booting s) [
    | restoring ↦ restoring_page
    | login_form ↦ login_page form s
    | main ↦ main_page s
    | detail task ↦ task_detail_screen s.busy (open_task_server s) (open_task_approval s) task
  ]
