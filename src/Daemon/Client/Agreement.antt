-- ===== src/Daemon/Client/Agreement.antt =====
-- When the client's map of runners (agent-daemon/src/client.js) names runners that are at work.
use code_caller.Prelude.{
  ℕ, zero, suc, ◌≡◌, refl, inl, inr, Bool, true, false, ◌&&◌, not, Option, none, some, List, [],
  ◌∷◌, ◌++◌, ◌==◌, ==_refl, arith, length, Bool-cases,
}
use code_caller.Daemon.State.{Input, Runner, get_elem?, without, alter}
use code_caller.Daemon.Runner.{handled}
use code_caller.Daemon.Client.{new_runner}

abbrev pub is_of : ℕ → Option Runner → Bool
is_of t none = false
is_of t (some r) = r.task_id == t && not r.exit_handled

-- Every task of the map has a runner of its own, which has not reported its end.
unfoldable pub agrees : List Runner → List (ℕ × ℕ) → Bool
unfolding get_elem?
agrees objects [] = true
agrees objects ((t, i) ∷ l) = is_of t (get_elem? objects i) && agrees objects l

is_of-alter :
    (t : ℕ) (f : Runner → Runner) (i j : ℕ) (l : List Runner)
    → ((r : Runner) → is_of t (some (f r)) ≡ is_of t (some r))
    → is_of t (get_elem? (alter i f l) j) ≡ is_of t (get_elem? l j)
unfolding get_elem? alter
is_of-alter t f i j [] k = refl
is_of-alter t f zero zero (r ∷ l) k = k r
is_of-alter t f zero (suc j) (r ∷ l) k = refl
is_of-alter t f (suc i) zero (r ∷ l) k = refl
is_of-alter t f (suc i) (suc j) (r ∷ l) k = is_of-alter t f i j l k

pub agrees-alter :
    (f : Runner → Runner) (i : ℕ) (objects : List Runner) (l : List (ℕ × ℕ))
    → ((t : ℕ) (r : Runner) → is_of t (some (f r)) ≡ is_of t (some r))
    → agrees (alter i f objects) l ≡ agrees objects l
unfolding agrees
agrees-alter f i objects [] k = refl
agrees-alter f i objects ((t, j) ∷ l) k =
    ground (arith, is_of-alter t f i j objects (k t), agrees-alter f i objects l k)

-- The runner that has reported its end was of no other task.
is_of-handled :
    (t i j : ℕ) (l : List Runner) (r : Runner)
    → get_elem? l i ≡ some r
    → (r.task_id == t) ≡ false
    → is_of t (get_elem? l j) ≡ true
    → is_of t (get_elem? (alter i handled l) j) ≡ true
unfolding get_elem? alter
is_of-handled t i j [] r e n h = cc
is_of-handled t zero zero (q ∷ l) r e n h = ground arith
is_of-handled t zero (suc j) (q ∷ l) r e n h = h
is_of-handled t (suc i) zero (q ∷ l) r e n h = h
is_of-handled t (suc i) (suc j) (q ∷ l) r e n h = is_of-handled t i j l r e n h

==_sym : (a b : ℕ) → (a == b) ≡ (b == a)
==_sym a b = ground arith

pub agrees-handled :
    (i : ℕ) (objects : List Runner) (r : Runner) (l : List (ℕ × ℕ))
    → get_elem? objects i ≡ some r
    → agrees objects l ≡ true
    → agrees (alter i handled objects) (without r.task_id l) ≡ true
unfolding agrees without
agrees-handled i objects r [] e h = refl
agrees-handled i objects r ((t, j) ∷ l) e h = elim (Bool-cases (t == r.task_id)) [
  | inl same ↦ ground (arith, agrees-handled i objects r l e)
  | inr other ↦
      ground
        (arith, ==_sym t r.task_id, agrees-handled i objects r l e, is_of-handled t i j objects r e)
]

is_of-++ :
    (t j : ℕ) (l k : List Runner)
    → is_of t (get_elem? l j) ≡ true
    → is_of t (get_elem? (l ++ k) j) ≡ true
unfolding get_elem?
is_of-++ t j [] k h = cc
is_of-++ t zero (r ∷ l) k h = h
is_of-++ t (suc j) (r ∷ l) k h = is_of-++ t j l k h

pub get_elem?-length : (l : List Runner) (r : Runner) → get_elem? (l ++ r ∷ []) (length l) ≡ some r
unfolding get_elem?
get_elem?-length [] r = refl
get_elem?-length (q ∷ l) r = get_elem?-length l r

pub agrees-new :
    (t : ℕ) (input : Input) (objects : List Runner) (l : List (ℕ × ℕ))
    → agrees objects l ≡ true
    → agrees (objects ++ new_runner t input ∷ []) (l ++ (t, length objects) ∷ []) ≡ true
unfolding agrees
agrees-new t input objects [] h =
    ground (arith, ==_refl t, get_elem?-length objects (new_runner t input))
agrees-new t input objects ((u, j) ∷ l) h =
    ground (arith, agrees-new t input objects l, is_of-++ u j objects (new_runner t input ∷ []))
