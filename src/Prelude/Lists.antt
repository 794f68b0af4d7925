-- ===== src/Prelude/Lists.antt =====
-- Lists: membership by position, predicates by recursion, and lengths as native numbers.
use Prim.Native.Nat.{ℕ, suc}
use mathlib.Core.Path.{◌≡◌, refl, ap}
use mathlib.Core.Bool.{Bool, true, false}
use mathlib.Core.Logic.{◌⊎◌, inl, inr}
use code_caller.Prelude.Tests.{if◌then◌else◌, Bool-cases}
use mathlib.Core.List.{List, [], ◌∷◌, map}

module _ {ℓ} {A : Type ℓ} where
  abbrev pub length : List A → ℕ
  length [] = 0
  length (x ∷ xs) = suc (length xs)

  -- Membership in a list.
  pub data In (a : A) : List A → Type ℓ where
    head : {x : A} {xs : List A} → a ≡ x → In a (x ∷ xs)
    tail : {x : A} {xs : List A} → In a xs → In a (x ∷ xs)

module _ {ℓ} {A : Type ℓ} {e : A} {k l : List A} where
  -- Membership in a list that a test chooses, and under one more element.
  In-if : (t : Bool) → In e (if t then k else l) → In e k ⊎ In e l
  In-if true m = inl m
  In-if false m = inr m

module _ {ℓ} {A : Type ℓ} {e a b : A} {k l : List A} where
  under : (In e k → In e (a ∷ l)) → In e (b ∷ k) → In e (a ∷ b ∷ l)
  under f (head q) = tail (head q)
  under f (tail m) = swap (f m)
    where
      swap : In e (a ∷ l) → In e (a ∷ b ∷ l)
      swap (head q) = head q
      swap (tail m) = tail (tail m)

  over : (In e (a ∷ l) → In e k) → In e (a ∷ b ∷ l) → In e (b ∷ k)
  over f (head q) = tail (f (head q))
  over f (tail (head q)) = head q
  over f (tail (tail m)) = tail (f (tail m))

-- A stable sort by insertion: `before a b` is "`a`, which stands to the left of `b`, may stay there".
module _ {ℓ} {A : Type ℓ} (before : A → A → Bool) where
  unfoldable pub insert : A → List A → List A
  insert a [] = a ∷ []
  insert a (b ∷ l) = if before a b then a ∷ b ∷ l else b ∷ insert a l

  unfoldable pub sort : List A → List A
  unfolding insert
  sort [] = []
  sort (a ∷ l) = insert a (sort l)

  -- An inserted element stands somewhere in the list, and the others stay.
  insert-In : (e a : A) (l : List A) → In e (insert a l) → In e (a ∷ l)
  unfolding insert
  insert-In e a [] m = m
  insert-In e a (b ∷ l) m = elim (In-if (before a b) m) [
    | inl k ↦ k
    | inr k ↦ under (insert-In e a l) k
  ]

  In-insert : (e a : A) (l : List A) → In e (a ∷ l) → In e (insert a l)
  unfolding insert
  In-insert e a [] m = m
  In-insert e a (b ∷ l) m = elim (Bool-cases (before a b)) [
    | inl q ↦ rw q m
    | inr q ↦ rw q (over (In-insert e a l) m)
  ]

  pub sort-In : (e : A) (l : List A) → In e (sort l) → In e l
  unfolding sort
  sort-In e [] m = m
  sort-In e (a ∷ l) m = elim (insert-In e a (sort l) m) [
    | head q ↦ head q
    | tail k ↦ tail (sort-In e l k)
  ]

  pub In-sort : (e : A) (l : List A) → In e l → In e (sort l)
  unfolding sort
  In-sort e [] m = m
  In-sort e (a ∷ l) (head q) = In-insert e a (sort l) (head q)
  In-sort e (a ∷ l) (tail m) = In-insert e a (sort l) (tail (In-sort e l m))

module _ {ℓ κ} {A : Type ℓ} {B : Type κ} (f : A → B) where
  pub In-map : (a : A) (l : List A) → In a l → In (f a) (map f l)
  In-map a [] m = elim m [ ]
  In-map a (x ∷ l) (head e) = head (ap f e)
  In-map a (x ∷ l) (tail m) = tail (In-map a l m)

  pub map-In : (b : B) (l : List A) → In b (map f l) → (a : A) × In a l × (b ≡ f a)
  map-In b [] m = elim m [ ]
  map-In b (x ∷ l) (head e) = (x, head refl, e)
  map-In b (x ∷ l) (tail m) = let (a, k, e) = map-In b l m in (a, tail k, e)

abbrev pub All {ℓ κ} : {A : Type ℓ} → (A → Type κ) → List A → Type κ
All P [] = Unit
All P (x ∷ xs) = P x × All P xs

module _ {ℓ κ} {A : Type ℓ} (P : A → Type κ) (before : A → A → Bool) where
  pub All-insert : (a : A) (l : List A) → P a → All P l → All P (insert before a l)
  unfolding insert
  All-insert a [] p h = (p, tt)
  All-insert a (b ∷ l) p h = elim (Bool-cases (before a b)) [
    | inl q ↦ rw q (p, h)
    | inr q ↦ rw q (h.0, All-insert a l p h.1)
  ]
