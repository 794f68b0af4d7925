-- ===== src/Mobile/Views.antt =====
-- The views behind the tabs of the app (mobile-app/App.tsx).
use code_caller.Prelude.{
  ℕ, String, Bool, true, false, not, ◌==◌, Option, none, some, List, [], ◌∷◌, ◌++◌, length,
  if◌then◌else◌,
}
use code_caller.Schema.{WorkerType}
use code_caller.Text.{decimal}
use code_caller.Units.{Text, codes}
use code_caller.Workers.{worker_type_name}
use code_caller.Mobile.Results.{extract_prompt}
use code_caller.Mobile.Wording.{compact_id, format_date, format_relative_time}
use code_caller.Mobile.Items.{ServerItem, RegistrationItem, TaskItem, ApprovalItem, Screen}
use code_caller.Mobile.Screen.{find_server}
use code_caller.Mobile.Shown.{can_submit, pending_approvals}
use code_caller.Mobile.Parts.{
  Locale, Line, words, submit, decide, decide_request, choose_server, show_task, choose_worker,
  confirm, Input, Part, line, input, button, say, option_text, or_text, reason_or, status_pill,
  screen_heading, empty_state, info_block, labelled_button, each, items,
}

abbrev pub worker_types : List WorkerType
worker_types = WorkerType.codex ∷ WorkerType.claude ∷ WorkerType.gemini ∷ []

-- `{server.osType} / {server.tailscaleIp}`
abbrev pub slash : String → String → Text
slash os_type tailscale_ip = codes os_type ++ (codes " / " ++ codes tailscale_ip)

abbrev pub is_chosen : Option ℕ → ℕ → Bool
is_chosen none i = false
is_chosen (some j) i = j == i

module _ (locale : Locale) where
  abbrev pub id : ℕ → Text
  id i = compact_id (some (locale.id_text i))

  abbrev pub chosen_server : Screen → Option ServerItem
  chosen_server s = elim s.selected_server [ none ↦ none | some i ↦ find_server i s.servers ]

  abbrev pub dispatch_summary : WorkerType → Option ServerItem → Text
  dispatch_summary w none = codes "서버를 하나 선택하면 작업을 보낼 수 있습니다."
  dispatch_summary w (some server) =
      codes server.name ++ (codes "에서 " ++ (codes (worker_type_name w) ++ codes "로 실행됩니다."))

  abbrev pub selected_mark : Bool → List Line
  selected_mark true = words (codes "Selected") ∷ []
  selected_mark false = []

  abbrev pub server_option : Option ℕ → ServerItem → List Part
  server_option chosen server =
      button false (choose_server server.id) (
        words (codes server.name)
        ∷ words (slash server.os_type server.tailscale_ip)
        ∷ (selected_mark (is_chosen chosen server.id) ++ (status_pill locale server.status ∷ [])))
      ∷ []

  abbrev pub worker_option : WorkerType → List Part
  worker_option w = labelled_button false (worker_type_name w) (choose_worker w) ∷ []

  abbrev pub chosen_line : Option ServerItem → List Part
  chosen_line none = []
  chosen_line (some server) =
      line (words (codes "선택됨: " ++ (codes server.name ++ (codes " / " ++ codes server.os_type))))
      ∷ []

  -- `NewTaskScreen`
  unfoldable pub new_task_screen : Screen → List Part
  unfolding each
  new_task_screen s =
      screen_heading "새 작업" "먼저 목표를 적고, 실행 대상은 필요한 만큼 조정하세요."
      ++ (say "1. 작업 목표"
          ∷ line (words (codes (decimal (length (codes s.prompt))) ++ codes "자"))
          ∷ input Input.prompt (codes "예: 이 프로젝트의 로그인 화면을 모바일에 맞게 정리해 줘.") (codes s.prompt)
          ∷ say "실행 준비"
          ∷ line (words (dispatch_summary s.worker_type (chosen_server s)))
          ∷ say "2. 실행 서버"
          ∷ (items (server_option s.selected_server) (empty_state "서버를 불러온 뒤 작업을 만들 수 있습니다.")
                s.servers
              ++ (say "3. AI Worker"
                  ∷ (each worker_option worker_types
                      ++ (chosen_line (chosen_server s)
                          ++ (labelled_button (not (can_submit locale.trim s))
                                (if s.busy then "전송 중" else "작업 실행") submit
                              ∷ []))))))

  abbrev pub registration_card : Bool → RegistrationItem → List Part
  registration_card busy item =
      say item.name
      ∷ line (words (slash item.os_type item.tailscale_ip))
      ∷ say item.verification_code
      ∷ line (
          words (
            codes "Fingerprint "
            ++ (compact_id (some (codes item.fingerprint))
                ++ (codes " / 만료 " ++ format_date locale.format (some (codes item.expires_at))))))
      ∷ labelled_button busy "서버 승인" (decide_request item true)
      ∷ labelled_button busy "거절"
          (confirm (codes "서버 등록을 거절할까요?") (codes item.name) (decide_request item false))
      ∷ []

  -- `RegistrationRequestsPanel`
  unfoldable pub registration_requests_panel : Bool → List RegistrationItem → List Part
  unfolding each
  registration_requests_panel busy [] = []
  registration_requests_panel busy (r ∷ l) =
      say "등록 요청"
      ∷ say "서버 터미널의 코드와 앱의 코드를 확인하세요."
      ∷ line (words (codes (decimal (length (r ∷ l)))))
      ∷ each (registration_card busy) (r ∷ l)

  abbrev pub server_card : Option ℕ → ServerItem → List Part
  server_card chosen item =
      button false (choose_server item.id) (
        words (codes item.name)
        ∷ words (slash item.os_type item.tailscale_ip)
        ∷ status_pill locale item.status
        ∷ words (
            codes "마지막 연결 "
            ++ (format_relative_time locale.format locale.time_of locale.now
                  (option_text item.last_heartbeat_at)
                ++ (if is_chosen chosen item.id then codes " / 기본 실행 대상" else [])))
        ∷ [])
      ∷ []

  -- `ServersList`
  unfoldable pub servers_list : Screen → List Part
  unfolding each registration_requests_panel
  servers_list s =
      screen_heading "서버" "작업을 실행할 수 있는 워커 서버 상태입니다."
      ++ (registration_requests_panel s.busy s.registrations
          ++ items (server_card s.selected_server) (empty_state "등록된 서버가 없습니다.") s.servers)

  abbrev pub prompt_text : TaskItem → Text
  prompt_text item = or_text (extract_prompt locale.stringify item.input) (codes "입력 내용 없음")

  abbrev pub recent_log : Option String → List Line
  recent_log none = []
  recent_log (some String.[]) = []
  recent_log (some logs) = info_block "최근 로그" (codes logs)

  abbrev pub task_card : TaskItem → List Part
  task_card item =
      button false (show_task (some item.id)) (
        words (codes item.worker_type)
        ∷ status_pill locale item.status
        ∷ (info_block "프롬프트" (prompt_text item)
            ++ (recent_log item.logs
                ++ (words (codes "Task " ++ id item.id)
                    ∷ words (codes "Server " ++ id item.server_id)
                    ∷ words
                        (codes "요청 " ++ format_date locale.format (some (codes item.created_at)))
                    ∷ words (codes "상세 보기")
                    ∷ []))))
      ∷ []

  -- `TasksList`
  unfoldable pub tasks_list : Screen → List Part
  unfolding each
  tasks_list s =
      screen_heading "작업" "최근 작업의 상태와 마지막 로그를 확인하세요."
      ++ items task_card (empty_state "아직 생성된 작업이 없습니다.") s.tasks

  abbrev pub task_line : Option TaskItem → List Part
  task_line none = []
  task_line (some t) =
      line (words (codes t.worker_type ++ (codes " / Server " ++ id t.server_id))) ∷ []

  abbrev pub no_reason : Text
  no_reason = codes "승인 요청 사유가 없습니다."

  -- the two buttons of an approval
  abbrev pub decision_buttons : (disabled : Bool) → ApprovalItem → List Part
  decision_buttons disabled item =
      labelled_button disabled "승인" (decide item true)
      ∷ labelled_button disabled "거절" (
          confirm (codes "승인 요청을 거절할까요?") (reason_or item.reason (locale.id_text item.task_id))
            (decide item false))
      ∷ []

  abbrev pub approval_card : ApprovalItem → List Part
  approval_card item =
      say "승인 요청"
      ∷ line (status_pill locale item.status)
      ∷ line (
          words (
            codes "Task "
            ++ (id item.task_id
                ++ (codes " / 요청 " ++ format_date locale.format (some (codes item.requested_at))))))
      ∷ (task_line item.task
          ++ (say "요청 내용"
              ∷ line (words (reason_or item.reason no_reason))
              ∷ decision_buttons false item))

  -- `ApprovalsList`
  unfoldable pub approvals_list : Screen → List Part
  unfolding each pending_approvals
  approvals_list s =
      screen_heading "승인" "대기 중인 승인 요청을 검토하고 결정하세요."
      ++ items approval_card (empty_state "대기 중인 승인 요청이 없습니다.") (pending_approvals s.approvals)
