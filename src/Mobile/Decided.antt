-- ===== src/Mobile/Decided.antt =====
-- The app after an approval was decided (mobile-app/App.tsx).
use code_caller.Prelude.{
  ℕ, String, ◌≡◌, refl, ap, Bool, true, false, not, List, [], ◌∷◌, ◌==◌, str_eq, arith, inl, inr,
  Bool-cases,
}
use code_caller.Mobile.Items.{ApprovalItem, Screen}
use code_caller.Mobile.Screen.{replace_approval}
use code_caller.Mobile.Screen.Events.{on_event, approval_resolved}
use code_caller.Mobile.Parts.{Locale, Tap, Part, goal, all_taps, line, spinner, input, button}
use code_caller.Mobile.Pages.{Form, page}
use code_caller.Mobile.Taps.{waits, is_offered}
use code_caller.Mobile.PageOffers.{page-IsOffered}

-- Whether a press does not decide on an approval.
abbrev pub spares : ℕ → Tap → Bool
spares i (Tap.decide a approve) = not (a.id == i)
spares i _ = true

waits-replace_approval :
    (a : ApprovalItem) (l : List ApprovalItem)
    → str_eq a.status "PENDING" ≡ false
    → waits a.id (replace_approval a l) ≡ false
unfolding waits replace_approval
waits-replace_approval a [] settled = refl
waits-replace_approval a (b ∷ l) settled = elim (Bool-cases (b.id == a.id)) [
  | inl same ↦ rw same (ground (arith, settled, waits-replace_approval a l settled))
  | inr other ↦ rw other (ground (arith, other, waits-replace_approval a l settled))
]

all_taps-implied :
    (p q : Tap → Bool) (l : List Part)
    → ((tap : Tap) → p tap ≡ true → q tap ≡ true)
    → all_taps p l ≡ true
    → all_taps q l ≡ true
unfolding all_taps
all_taps-implied p q [] implied all = refl
all_taps-implied p q (button false tap lines ∷ l) implied all =
    ground (arith, all, implied (goal tap), all_taps-implied p q l implied)
all_taps-implied p q (button true tap lines ∷ l) implied all = all_taps-implied p q l implied all
all_taps-implied p q (line a ∷ l) implied all = all_taps-implied p q l implied all
all_taps-implied p q (spinner ∷ l) implied all = all_taps-implied p q l implied all
all_taps-implied p q (input i placeholder value ∷ l) implied all =
    all_taps-implied p q l implied all

module _ (trim : String → String) (i : ℕ) (s : Screen) (settled : waits i s.approvals ≡ false) where
  is_offered-spares : (tap : Tap) → is_offered trim s tap ≡ true → spares i tap ≡ true
  unfolding is_offered
  is_offered-spares (Tap.decide a approve) offered = elim (Bool-cases (a.id == i)) [
    | inr other ↦ ground (arith, other)
    | inl same ↦
        let equal : a.id ≡ i = ground (arith, same) in
        absurd (ground (arith, offered, settled, ap (λ j. waits j s.approvals) equal))
  ]
  is_offered-spares Tap.log_in offered = refl
  is_offered-spares Tap.reload offered = refl
  is_offered-spares Tap.log_out offered = refl
  is_offered-spares Tap.register_push offered = refl
  is_offered-spares Tap.submit offered = refl
  is_offered-spares (Tap.decide_request r approve) offered = refl
  is_offered-spares (Tap.choose_server j) offered = refl
  is_offered-spares (Tap.show_task j) offered = refl
  is_offered-spares (Tap.change_tab tab) offered = refl
  is_offered-spares (Tap.choose_worker w) offered = refl
  is_offered-spares (Tap.confirm question detail tap) offered = refl

-- Right after the hub has told the app that an approval has a status other than PENDING, no page
-- of the app offers a decision on an approval of that id.
pub resolved_not_offered :
    (locale : Locale) (booting : Bool) (form : Form) (a : ApprovalItem) (s : Screen)
    → str_eq a.status "PENDING" ≡ false
    → all_taps (spares a.id) (page locale booting form (on_event (approval_resolved a) s)) ≡ true
unfolding on_event
resolved_not_offered locale booting form a s settled =
    let s' = on_event (approval_resolved a) s in
    all_taps-implied (is_offered locale.trim s') (spares a.id) (page locale booting form s')
      (is_offered-spares locale.trim a.id s' (waits-replace_approval a s.approvals settled))
      (page-IsOffered locale form s' booting)
