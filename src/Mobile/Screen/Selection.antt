-- ===== src/Mobile/Screen/Selection.antt =====
-- Which server the app has selected (mobile-app/App.tsx).
use code_caller.Prelude.{
  ℕ, String, ◌≡◌, refl, Bool, true, false, inl, inr, Option, none, some, List, [], ◌∷◌, ==_refl,
  str_eq, arith, Bool-cases, Option-cases,
}
use code_caller.Mobile.{AuthTokens, Outcome, done, thrown}
use code_caller.Mobile.Items.{
  ServerItem, Call, decide_approval_call, decide_registration_call, create_task_call, TaskItem,
  AllData, Screen,
}
use code_caller.Mobile.Screen.{
  decision_reason, begin, created, requested, has_server, named, first_id, or_id, next_selected,
  load_all, decide_approval, decide_registration, create_task, register_push_token, logout,
}
use code_caller.Mobile.Screen.Events.{
  Event, signed_in, reload, decide_tap, registration_tap, create_tap, push_tap, logout_tap,
  server_tap, on_event, run, initial,
}

abbrev shows_none : List ServerItem → Bool
shows_none [] = true
shows_none (s ∷ l) = false

-- A server is selected unless there is none, and it is one of those that are shown.
abbrev pub fits : Option ℕ → List ServerItem → Bool
fits none l = shows_none l
fits (some i) l = has_server i l

abbrev pub is_fit : Screen → Bool
is_fit s = fits s.selected_server s.servers

named-has_server :
    (name : String) (l : List ServerItem) (i : ℕ) → named name l ≡ some i → has_server i l ≡ true
unfolding named has_server
named-has_server name [] i e = cc
named-has_server name (s ∷ l) i e = elim (Bool-cases (str_eq s.name name)) [
  | inl same ↦ ground (arith, ==_refl s.id)
  | inr other ↦ ground (arith, named-has_server name l i)
]

first-fits : (l : List ServerItem) → fits (first_id l) l ≡ true
unfolding has_server
first-fits [] = refl
first-fits (s ∷ l) = ground (arith, ==_refl s.id)

default-fits :
    (name : String) (l : List ServerItem) → fits (or_id (named name l) (first_id l)) l ≡ true
default-fits name l = elim (Option-cases (named name l)) [
  | inl unnamed ↦ ground (arith, first-fits l)
  | inr (i, e) ↦ ground (arith, named-has_server name l i e)
]

next_selected-fits : (l : List ServerItem) (o : Option ℕ) → fits (next_selected l o) l ≡ true
unfolding next_selected
next_selected-fits l none = default-fits "MacBook-Local" l
next_selected-fits l (some i) = elim (Bool-cases (has_server i l)) [
  | inl there ↦ ground arith
  | inr gone ↦ ground (arith, default-fits "MacBook-Local" l)
]

load_all-fits :
    (answers : Outcome AllData) (s : Screen) → is_fit s ≡ true → is_fit (load_all answers s) ≡ true
unfolding load_all
load_all-fits answers s h = elim (Option-cases s.tokens) [
  | inl out ↦ ground arith
  | inr (t, e) ↦ loaded answers t e
]
  where
    loaded :
        (answers : Outcome AllData) (t : AuthTokens)
        → s.tokens ≡ some t
        → is_fit (load_all answers s) ≡ true
    loaded (done d) t e = ground (arith, next_selected-fits d.servers s.selected_server)
    loaded (thrown m) t e = ground arith

-- What holds after an answer of either kind holds after a request.
requested-fits :
    {A : Type 0} (c : Call) (answer : Outcome A) (next : A → Screen → Screen) (s : Screen)
    → ((a : A) (s : Screen) → is_fit s ≡ true → is_fit (next a s) ≡ true)
    → is_fit s ≡ true
    → is_fit (requested c answer next s) ≡ true
requested-fits {A = A} c answer next s k h = elim (Option-cases s.tokens) [
  | inl out ↦ ground arith
  | inr (t, e) ↦ answered answer t e
]
  where
    answered :
        (answer : Outcome A) (t : AuthTokens)
        → s.tokens ≡ some t
        → is_fit (requested c answer next s) ≡ true
    answered (done a) t e = ground (arith, k a (record s { calls = c ∷ s.calls }) h)
    answered (thrown m) t e = ground arith

create_task-fits :
    (trim : String → String) (answer : Outcome TaskItem) (answers : Outcome AllData) (s : Screen)
    → is_fit s ≡ true
    → is_fit (create_task trim answer answers s) ≡ true
unfolding create_task
create_task-fits trim answer answers s h = elim (Option-cases s.selected_server) [
  | inl unselected ↦ ground arith
  | inr (i, e) ↦ ground (
    arith,
    requested-fits (create_task_call i s.worker_type (trim s.prompt)) answer
        (λ t s. load_all answers (created t s)) (begin s)
        (λ t s. load_all-fits answers (created t s)) h,
  )
]

register_push_token-fits :
    (token : Outcome String) (answer : Outcome (Unit {0})) (s : Screen)
    → is_fit s ≡ true
    → is_fit (register_push_token token answer s) ≡ true
unfolding register_push_token
register_push_token-fits (thrown m) answer s h = ground arith
register_push_token-fits (done token) (done u) s h = ground arith
register_push_token-fits (done token) (thrown m) s h = ground arith

on_event-fits : (e : Event) (s : Screen) → is_fit s ≡ true → is_fit (on_event e s) ≡ true
unfolding on_event decide_approval decide_registration logout
on_event-fits (signed_in t answers) s h = load_all-fits answers (record s { tokens = some t }) h
on_event-fits (reload answers) s h = load_all-fits answers s h
on_event-fits (decide_tap a approve answer answers) s h =
    requested-fits (decide_approval_call a.id approve (decision_reason approve)) answer
      (λ u. load_all answers) (begin s) (λ u. load_all-fits answers) h
on_event-fits (registration_tap r approve answer answers) s h =
    requested-fits (decide_registration_call r.id approve (decision_reason approve)) answer
      (λ u. load_all answers) (begin s) (λ u. load_all-fits answers) h
on_event-fits (create_tap trim answer answers) s h = create_task-fits trim answer answers s h
on_event-fits (push_tap token answer) s h = register_push_token-fits token answer s h
on_event-fits logout_tap s h = refl
on_event-fits (server_tap i) s h = ground arith
on_event-fits _ s h = h

-- In every run of the app from its start a server is selected, unless none is shown.
pub run-fits : (l : List Event) (s : Screen) → is_fit s ≡ true → is_fit (run l s) ≡ true
unfolding run
run-fits [] s h = h
run-fits (e ∷ l) s h = run-fits l (on_event e s) (on_event-fits e s h)

-- Whatever happens to the app from its start, the selected server is one of the servers that are
-- shown, and there is one unless none is shown.
pub run-is_fit : (l : List Event) → is_fit (run l initial) ≡ true
run-is_fit l = run-fits l initial refl
