-- ===== src/Mobile/Offers.antt =====
-- What the views behind the tabs of the app offer (mobile-app/App.tsx).
use code_caller.Prelude.{
  String, ◌≡◌, refl, Bool, true, false, not, Option, none, some, is_some, List, [], ◌∷◌, ◌++◌, In,
  if◌then◌else◌, arith,
}
use code_caller.Mobile.Items.{ServerItem, RegistrationItem, TaskItem, ApprovalItem, Screen}
use code_caller.Mobile.Shown.{can_submit, pending_approvals}
use code_caller.Mobile.Parts.{
  Locale, Tap, Part, all_taps, each, items, line, say, empty_state, reason_or, words,
  labelled_button, submit,
}
use code_caller.Mobile.Views.{
  no_reason, server_card, server_option, worker_option, worker_types, registration_card,
  registration_requests_panel, servers_list, new_task_screen, tasks_list, approvals_list, task_card,
  approval_card, task_line, chosen_line, chosen_server, decision_buttons,
}
use code_caller.Mobile.Taps.{
  waits, is_offered, IsOffered, joined, all_taps-++, all_taps-each, all_taps-items, has_server-In,
  has_request-In, has_task-In, waits-In,
}

module _ (locale : Locale) (s : Screen) (signed_in : is_some s.tokens ≡ true) where
  abbrev offered : Tap → Bool
  offered = is_offered locale.trim s

  server_card-IsOffered :
      (a : ServerItem)
      → In a s.servers
      → IsOffered locale s (server_card locale s.selected_server a)
  unfolding all_taps is_offered
  server_card-IsOffered a there = ground (arith, has_server-In a s.servers there)

  registration_card-IsOffered :
      (busy : Bool) (a : RegistrationItem)
      → s.busy ≡ busy
      → In a s.registrations
      → IsOffered locale s (registration_card locale busy a)
  unfolding all_taps is_offered
  registration_card-IsOffered true a is there = refl
  registration_card-IsOffered false a is there =
      ground (arith, signed_in, is, has_request-In a s.registrations there)

  pub decision_buttons-IsOffered :
      (disabled : Bool) (a : ApprovalItem)
      → waits a.id s.approvals ≡ true
      → IsOffered locale s (decision_buttons locale disabled a)
  unfolding all_taps is_offered
  decision_buttons-IsOffered true a there = refl
  decision_buttons-IsOffered false a there = ground (arith, signed_in, there)

  task_line-IsOffered : (t : Option TaskItem) → IsOffered locale s (task_line locale t)
  unfolding all_taps
  task_line-IsOffered none = refl
  task_line-IsOffered (some t) = refl

  approval_card-IsOffered :
      (a : ApprovalItem)
      → In a (pending_approvals s.approvals)
      → IsOffered locale s (approval_card locale a)
  unfolding all_taps
  approval_card-IsOffered a there = ground (
    arith,
    all_taps-++ offered (task_line locale a.task) (
        say "요청 내용"
        ∷ line (words (reason_or a.reason (no_reason locale)))
        ∷ decision_buttons locale false a),
    task_line-IsOffered a.task,
    decision_buttons-IsOffered false a (waits-In a s.approvals there),
  )

  registration_requests_panel-IsOffered :
      (l : List RegistrationItem)
      → ((a : RegistrationItem) → In a l → In a s.registrations)
      → IsOffered locale s (registration_requests_panel locale s.busy l)
  unfolding registration_requests_panel all_taps
  registration_requests_panel-IsOffered [] among = refl
  registration_requests_panel-IsOffered (r ∷ l) among =
      all_taps-each offered (registration_card locale s.busy) (r ∷ l)
        λ a there. registration_card-IsOffered s.busy a refl (among a there)

  pub servers_list-IsOffered : IsOffered locale s (servers_list locale s)
  unfolding servers_list all_taps
  servers_list-IsOffered =
      joined locale s (registration_requests_panel locale s.busy s.registrations) _
        (registration_requests_panel-IsOffered s.registrations (λ a there. there))
        (all_taps-items offered (server_card locale s.selected_server) (empty_state "등록된 서버가 없습니다.")
          s.servers server_card-IsOffered refl)

  pub tasks_list-IsOffered : IsOffered locale s (tasks_list locale s)
  unfolding tasks_list all_taps is_offered
  tasks_list-IsOffered =
      all_taps-items offered (task_card locale) (empty_state "아직 생성된 작업이 없습니다.") s.tasks
        (λ a there. ground (arith, signed_in, has_task-In a s.tasks there)) refl

  pub approvals_list-IsOffered : IsOffered locale s (approvals_list locale s)
  unfolding approvals_list all_taps
  approvals_list-IsOffered =
      all_taps-items offered (approval_card locale) (empty_state "대기 중인 승인 요청이 없습니다.")
        (pending_approvals s.approvals) approval_card-IsOffered refl

  server_option-IsOffered :
      (a : ServerItem)
      → In a s.servers
      → IsOffered locale s (server_option locale s.selected_server a)
  unfolding all_taps is_offered
  server_option-IsOffered a there = ground (arith, signed_in, has_server-In a s.servers there)

  submit_button-IsOffered :
      (b : Bool) (label : String)
      → can_submit locale.trim s ≡ b
      → IsOffered locale s (labelled_button (not b) label submit ∷ [])
  unfolding all_taps is_offered
  submit_button-IsOffered true label is = ground (arith, signed_in, is)
  submit_button-IsOffered false label is = refl

  chosen_line-IsOffered : (a : Option ServerItem) → IsOffered locale s (chosen_line locale a)
  unfolding all_taps
  chosen_line-IsOffered none = refl
  chosen_line-IsOffered (some a) = refl

  worker_options-IsOffered : IsOffered locale s (each (worker_option locale) worker_types)
  unfolding each all_taps is_offered
  worker_options-IsOffered = ground (arith, signed_in)

  -- what follows the choice of a worker
  abbrev form_end : List Part
  form_end =
      chosen_line locale (chosen_server locale s)
      ++ (labelled_button (not (can_submit locale.trim s)) (if s.busy then "전송 중" else "작업 실행")
            submit
          ∷ [])

  form_end-IsOffered : IsOffered locale s form_end
  form_end-IsOffered =
      joined locale s (chosen_line locale (chosen_server locale s)) _
        (chosen_line-IsOffered (chosen_server locale s))
        (submit_button-IsOffered (can_submit locale.trim s) (if s.busy then "전송 중" else "작업 실행")
          refl)

  pub new_task_screen-IsOffered : IsOffered locale s (new_task_screen locale s)
  unfolding new_task_screen all_taps
  new_task_screen-IsOffered =
      joined locale s
        (items (server_option locale s.selected_server) (empty_state "서버를 불러온 뒤 작업을 만들 수 있습니다.")
          s.servers)
        (say "3. AI Worker" ∷ (each (worker_option locale) worker_types ++ form_end))
        (all_taps-items offered (server_option locale s.selected_server)
          (empty_state "서버를 불러온 뒤 작업을 만들 수 있습니다.") s.servers server_option-IsOffered refl)
        (joined locale s (each (worker_option locale) worker_types) form_end
          worker_options-IsOffered form_end-IsOffered)
