-- ===== src/Mobile/PageOffers.antt =====
-- What each page of the app offers, of all that its views offer (mobile-app/App.tsx).
use code_caller.Prelude.{
  String, ◌≡◌, refl, Bool, true, false, ◌||◌, Option, none, some, is_some, List, [], ◌∷◌, ◌++◌,
  str_eq, if◌then◌else◌, arith, inl, inr, Option-cases, Bool-cases,
}
use code_caller.Mobile.Items.{Tab, ServerItem, TaskItem, ApprovalItem, Screen}
use code_caller.Mobile.Screen.{open_task, open_task_server, open_task_approval}
use code_caller.Mobile.Shown.{is_live, view}
use code_caller.Mobile.Parts.{
  Locale, Part, all_taps, each, line, error_banner, spinner_if, say, words, labelled_button, reload,
  log_in, log_out, register_push,
}
use code_caller.Units.{codes}
use code_caller.Mobile.Results.{extract_result}
use code_caller.Mobile.Wording.{push_summary}
use code_caller.Mobile.Views.{prompt_text}
use code_caller.Mobile.Pages.{
  Form, page, logs_text, main_page, login_page, content, header, bottom_navigation,
  task_detail_screen, approval_section,
}
use code_caller.Mobile.Offers.{
  decision_buttons-IsOffered, servers_list-IsOffered, tasks_list-IsOffered,
  approvals_list-IsOffered, new_task_screen-IsOffered,
}
use code_caller.Mobile.Taps.{is_offered, IsOffered, joined, waits-pending_approval}

module _ (locale : Locale) (s : Screen) where
  spinner-IsOffered :
      (e : Option String) (b : Bool) → IsOffered locale s (spinner_if b ++ error_banner e)
  unfolding all_taps
  spinner-IsOffered none true = refl
  spinner-IsOffered none false = refl
  spinner-IsOffered (some String.[]) true = refl
  spinner-IsOffered (some String.[]) false = refl
  spinner-IsOffered (some (String.◌∷◌ c e)) true = refl
  spinner-IsOffered (some (String.◌∷◌ c e)) false = refl

module _ (locale : Locale) (s : Screen) (signed_in : is_some s.tokens ≡ true) where
  content-IsOffered : (tab : Tab) → IsOffered locale s (content locale tab s)
  content-IsOffered Tab.servers_tab = servers_list-IsOffered locale s signed_in
  content-IsOffered Tab.new_task_tab = new_task_screen-IsOffered locale s signed_in
  content-IsOffered Tab.tasks_tab = tasks_list-IsOffered locale s signed_in
  content-IsOffered Tab.approvals_tab = approvals_list-IsOffered locale s signed_in

  bottom_navigation-IsOffered : IsOffered locale s (bottom_navigation s)
  unfolding bottom_navigation each all_taps is_offered
  bottom_navigation-IsOffered = ground (arith, signed_in)

  reload_button-IsOffered :
      (b : Bool) (label : String) (l : List Part)
      → s.busy ≡ b
      → IsOffered locale s l
      → IsOffered locale s (labelled_button b label reload ∷ l)
  unfolding all_taps is_offered
  reload_button-IsOffered true label l is fine = fine
  reload_button-IsOffered false label l is fine = ground (arith, signed_in, is, fine)

  banner-IsOffered :
      (e : Option String) (b : Bool) → IsOffered locale s (error_banner e ++ spinner_if b)
  unfolding all_taps
  banner-IsOffered none true = refl
  banner-IsOffered none false = refl
  banner-IsOffered (some String.[]) true = refl
  banner-IsOffered (some String.[]) false = refl
  banner-IsOffered (some (String.◌∷◌ c e)) true = refl
  banner-IsOffered (some (String.◌∷◌ c e)) false = refl

  -- what follows the button for a reload
  abbrev header_end : List Part
  header_end =
      labelled_button false "Logout" log_out
      ∷ line (words (push_summary (codes s.push_state)).title)
      ∷ line (words (push_summary (codes s.push_state)).detail)
      ∷ labelled_button false "등록" register_push
      ∷ (error_banner s.error ++ spinner_if s.busy)

  header_end-IsOffered : IsOffered locale s header_end
  unfolding all_taps is_offered
  header_end-IsOffered = ground (arith, signed_in, banner-IsOffered s.error s.busy)

  header-IsOffered : IsOffered locale s (header locale s)
  unfolding header all_taps
  header-IsOffered =
      reload_button-IsOffered s.busy (if s.busy then "..." else "R") header_end refl
        header_end-IsOffered

  main_page-IsOffered : IsOffered locale s (main_page locale s)
  main_page-IsOffered =
      joined locale s (header locale s) (content locale s.tab s ++ bottom_navigation s)
        header-IsOffered
        (joined locale s (content locale s.tab s) (bottom_navigation s) (content-IsOffered s.tab)
          bottom_navigation-IsOffered)

  approval_section-IsOffered :
      (a : Option ApprovalItem)
      → open_task_approval s ≡ a
      → IsOffered locale s (approval_section locale s.busy a)
  unfolding all_taps
  approval_section-IsOffered none is = refl
  approval_section-IsOffered (some a) is = elim (Option-cases (open_task s)) [
    | inl closed ↦ absurd (ground (arith, is, closed))
    | inr (t, e) ↦
        decision_buttons-IsOffered locale s signed_in s.busy a
          (waits-pending_approval t.id s.approvals a (ground (arith, is, e)))
  ]

  hint-IsOffered :
      (b : Bool) (l : List Part)
      → IsOffered locale s l
      → IsOffered locale s ((if b then say "실행 중에는 최신 로그로 자동 이동합니다." ∷ [] else []) ++ l)
  unfolding all_taps
  hint-IsOffered true l fine = fine
  hint-IsOffered false l fine = fine

  -- what follows the approval
  abbrev detail_end : TaskItem → List Part
  detail_end t =
      say "프롬프트"
      ∷ line (words (prompt_text locale t))
      ∷ say "결과"
      ∷ line (words (extract_result locale.stringify t.result))
      ∷ say "로그"
      ∷ ((if is_live locale.upper t then say "실행 중에는 최신 로그로 자동 이동합니다." ∷ [] else [])
          ++ (line (words (logs_text t.logs)) ∷ []))

  detail_end-IsOffered : (t : TaskItem) → IsOffered locale s (detail_end t)
  unfolding all_taps
  detail_end-IsOffered t =
      hint-IsOffered (is_live locale.upper t) (line (words (logs_text t.logs)) ∷ []) refl

  task_detail_screen-IsOffered :
      (server : Option ServerItem) (t : TaskItem)
      → open_task s ≡ some t
      → IsOffered locale s (task_detail_screen locale s.busy server (open_task_approval s) t)
  unfolding task_detail_screen all_taps is_offered
  task_detail_screen-IsOffered server t is = ground (
    arith,
    signed_in,
    is,
    joined locale s (approval_section locale s.busy (open_task_approval s)) (detail_end t)
        (approval_section-IsOffered (open_task_approval s) refl) (detail_end-IsOffered t),
  )

module _ (locale : Locale) (form : Form) (s : Screen) where
  log_in_button-IsOffered :
      (disabled : Bool) (l : List Part)
      → (s.busy || (str_eq form.email "" || str_eq form.password "")) ≡ disabled
      → IsOffered locale s l
      → IsOffered locale s (labelled_button disabled "Login" log_in ∷ l)
  unfolding all_taps is_offered
  log_in_button-IsOffered true l is fine = fine
  log_in_button-IsOffered false l is fine = ground (arith, is, fine)

  login_page-IsOffered : IsOffered locale s (login_page locale form s)
  unfolding all_taps
  login_page-IsOffered =
      log_in_button-IsOffered (s.busy || (str_eq form.email "" || str_eq form.password ""))
        (spinner_if s.busy ++ error_banner s.error) refl (spinner-IsOffered locale s s.error s.busy)

  signed_in_page-IsOffered : is_some s.tokens ≡ true → IsOffered locale s (page locale false form s)
  unfolding page view
  signed_in_page-IsOffered signed_in = elim (Option-cases (open_task s)) [
    | inl closed ↦ ground (arith, signed_in, closed, main_page-IsOffered locale s signed_in)
    | inr (t, is) ↦ ground (
      arith,
      signed_in,
      is,
      task_detail_screen-IsOffered locale s signed_in (open_task_server s) t is,
    )
  ]

  -- Whatever the state of the app, what its page can be pressed for is only this: a login while
  -- nothing is pending; and with a session, decisions on approvals that the app holds as pending,
  -- decisions on registration requests that it holds and reloads while nothing is pending, a new
  -- task that can be submitted, the choice of a server that it holds, the details of a task that
  -- it holds, the way back while a task is open, the tabs, the worker types, the registration for
  -- push messages and the logout.
  pub page-IsOffered :
      (booting : Bool) → all_taps (is_offered locale.trim s) (page locale booting form s) ≡ true
  unfolding page view all_taps
  page-IsOffered true = refl
  page-IsOffered false = elim (Bool-cases (is_some s.tokens)) [
    | inl signed_in ↦ signed_in_page-IsOffered signed_in
    | inr out ↦ ground (arith, out, login_page-IsOffered)
  ]
