-- ===== src/Mobile/Taps.antt =====
-- What the views of the app let the user ask for (mobile-app/App.tsx).
use code_caller.Prelude.{
  ℕ, String, ◌≡◌, refl, ap, Bool, true, false, not, ◌&&◌, ◌||◌, none, some, is_some, List, [], ◌∷◌,
  ◌++◌, In, head, tail, ◌==◌, str_eq, if◌then◌else◌, arith,
}
use code_caller.Mobile.Items.{ServerItem, RegistrationItem, TaskItem, ApprovalItem, Screen}
use code_caller.Mobile.Screen.{has_server, pending_approval, open_task}
use code_caller.Mobile.Shown.{can_submit, pending_approvals}
use code_caller.Mobile.Parts.{
  Locale, Tap, Part, all_taps, each, items, line, spinner, input, button,
}

unfoldable pub has_request : ℕ → List RegistrationItem → Bool
has_request i [] = false
has_request i (r ∷ l) = let later = has_request i l in r.id == i || later

unfoldable pub has_task : ℕ → List TaskItem → Bool
has_task i [] = false
has_task i (t ∷ l) = let later = has_task i l in t.id == i || later

-- Whether an approval of an id is held as pending.
unfoldable pub waits : ℕ → List ApprovalItem → Bool
waits i [] = false
waits i (a ∷ l) = let later = waits i l in (a.id == i && str_eq a.status "PENDING") || later

-- What may be asked for in a state of the screen.
unfoldable pub is_offered : (String → String) → Screen → Tap → Bool
is_offered trim s Tap.log_in = not s.busy
is_offered trim s Tap.reload = is_some s.tokens && not s.busy
is_offered trim s Tap.log_out = is_some s.tokens
is_offered trim s Tap.register_push = is_some s.tokens
is_offered trim s Tap.submit = is_some s.tokens && can_submit trim s
is_offered trim s (Tap.decide a approve) = is_some s.tokens && waits a.id s.approvals
is_offered trim s (Tap.decide_request r approve) =
    is_some s.tokens && (not s.busy && has_request r.id s.registrations)
is_offered trim s (Tap.choose_server i) = is_some s.tokens && has_server i s.servers
is_offered trim s (Tap.show_task none) = is_some s.tokens && is_some (open_task s)
is_offered trim s (Tap.show_task (some i)) = is_some s.tokens && has_task i s.tasks
is_offered trim s (Tap.change_tab tab) = is_some s.tokens
is_offered trim s (Tap.choose_worker w) = is_some s.tokens
is_offered trim s (Tap.confirm question detail tap) = false

module _ (p : Tap → Bool) where
  pub all_taps-++ : (k l : List Part) → all_taps p (k ++ l) ≡ (all_taps p k && all_taps p l)
  unfolding all_taps
  all_taps-++ [] l = refl
  all_taps-++ (button false tap lines ∷ k) l = ground (arith, all_taps-++ k l)
  all_taps-++ (button true tap lines ∷ k) l = all_taps-++ k l
  all_taps-++ (line a ∷ k) l = all_taps-++ k l
  all_taps-++ (spinner ∷ k) l = all_taps-++ k l
  all_taps-++ (input i placeholder value ∷ k) l = all_taps-++ k l

  pub all_taps-each :
      {A : Type 0} (f : A → List Part) (l : List A)
      → ((a : A) → In a l → all_taps p (f a) ≡ true)
      → all_taps p (each f l) ≡ true
  unfolding each all_taps
  all_taps-each f [] fine = refl
  all_taps-each f (a ∷ l) fine = ground (
    arith,
    all_taps-++ (f a) (each f l),
    fine a (head refl),
    all_taps-each f l λ b there. fine b (tail there),
  )

  pub all_taps-items :
      {A : Type 0} (f : A → List Part) (empty : List Part) (l : List A)
      → ((a : A) → In a l → all_taps p (f a) ≡ true)
      → all_taps p empty ≡ true
      → all_taps p (items f empty l) ≡ true
  all_taps-items f empty [] fine on_empty = on_empty
  all_taps-items f empty (a ∷ l) fine on_empty = all_taps-each f (a ∷ l) fine

pub has_server-In : (a : ServerItem) (l : List ServerItem) → In a l → has_server a.id l ≡ true
unfolding has_server
has_server-In a [] there = elim there [ ]
has_server-In a (b ∷ l) (head same) = ground (arith, ap (λ (c : ServerItem). c.id) same)
has_server-In a (b ∷ l) (tail there) = ground (arith, has_server-In a l there)

pub has_request-In :
    (a : RegistrationItem) (l : List RegistrationItem) → In a l → has_request a.id l ≡ true
unfolding has_request
has_request-In a [] there = elim there [ ]
has_request-In a (b ∷ l) (head same) = ground (arith, ap (λ (c : RegistrationItem). c.id) same)
has_request-In a (b ∷ l) (tail there) = ground (arith, has_request-In a l there)

pub has_task-In : (a : TaskItem) (l : List TaskItem) → In a l → has_task a.id l ≡ true
unfolding has_task
has_task-In a [] there = elim there [ ]
has_task-In a (b ∷ l) (head same) = ground (arith, ap (λ (c : TaskItem). c.id) same)
has_task-In a (b ∷ l) (tail there) = ground (arith, has_task-In a l there)

pub waits-In :
    (a : ApprovalItem) (l : List ApprovalItem) → In a (pending_approvals l) → waits a.id l ≡ true
unfolding waits pending_approvals
waits-In a [] there = elim there [ ]
waits-In a (b ∷ l) there = listed (waits-In a l) (str_eq b.status "PENDING") refl there
  where
    listed :
        (In a (pending_approvals l) → waits a.id l ≡ true)
        → (t : Bool) → str_eq b.status "PENDING" ≡ t
        → In a (if t then b ∷ pending_approvals l else pending_approvals l)
        → waits a.id (b ∷ l) ≡ true
    listed later true is (head same) = ground (arith, is, ap (λ (c : ApprovalItem). c.id) same)
    listed later true is (tail there) = ground (arith, later there)
    listed later false is there = ground (arith, later there)

pub waits-pending_approval :
    (i : ℕ) (l : List ApprovalItem) (a : ApprovalItem)
    → pending_approval i l ≡ some a
    → waits a.id l ≡ true
unfolding waits pending_approval
waits-pending_approval i [] a found = absurd (ground arith)
waits-pending_approval i (b ∷ l) a found = ground (arith, waits-pending_approval i l a)

module _ (locale : Locale) (s : Screen) where
  -- A view of which all that it offers may be asked for, and two of them in a row.
  abbrev pub IsOffered : List Part → Type 0
  IsOffered l = all_taps (is_offered locale.trim s) l ≡ true

  pub joined : (k l : List Part) → IsOffered k → IsOffered l → IsOffered (k ++ l)
  joined k l first second =
      ground (arith, all_taps-++ (is_offered locale.trim s) k l, first, second)
