-- ===== src/Database/Memory.antt =====
-- A table in memory: its rows in the order of their creation, a deleted one leaving its place
-- empty, so that the place is the id. It shows that the laws of `Table` can be met.
pub mod Laws
use mathlib.Core.Option
use code_caller.Prelude.{
  ℕ, zero, suc, ◌+◌, ◌≡◌, refl, Bool, Option, none, some, List, [], ◌∷◌, ◌++◌, arith, ◌==◌, leb,
  if◌then◌else◌, ap,
}

module _ {Row : Type 0} where
  unfoldable pub get : ℕ → List (Option Row) → Option Row
  get i [] = none
  get zero (o ∷ t) = o
  get (suc i) (o ∷ t) = get i t

  unfoldable pub size : List (Option Row) → ℕ
  size [] = 0
  size (o ∷ t) = suc (size t)

  abbrev pub change : (ℕ → Row → Option Row) → ℕ → Option Row → Option Row
  change f i none = none
  change f i (some r) = f i r

  -- `f` at each row, with its id.
  unfoldable pub each : (ℕ → Row → Option Row) → ℕ → List (Option Row) → List (Option Row)
  each f i [] = []
  each f i (o ∷ t) = change f i o ∷ each f (suc i) t

  abbrev pub keep : (ℕ → Row → Bool) → ℕ → Option Row → List (ℕ × Row) → List (ℕ × Row)
  keep p i none rest = rest
  keep p i (some r) rest = if p i r then (i, r) ∷ rest else rest

  unfoldable pub select : (ℕ → Row → Bool) → ℕ → List (Option Row) → List (ℕ × Row)
  select p i [] = []
  select p i (o ∷ t) = keep p i o (select p (suc i) t)

  abbrev pub tick : (ℕ → Row → Bool) → ℕ → Option Row → ℕ
  tick p i none = 0
  tick p i (some r) = if p i r then 1 else 0

  unfoldable pub total : (ℕ → Row → Bool) → ℕ → List (Option Row) → ℕ
  total p i [] = 0
  total p i (o ∷ t) = tick p i o + total p (suc i) t

  abbrev pub better : (Row → ℕ) → ℕ × Row → Option (ℕ × Row) → Option (ℕ × Row)
  better k e none = some e
  better k e (some d) = if leb (k d.1) (k e.1) then some e else some d

  unfoldable pub best : (Row → ℕ) → List (ℕ × Row) → Option (ℕ × Row)
  best k [] = none
  best k (e ∷ l) = better k e (best k l)

  unfoldable pub modify : ℕ → (Row → Row) → List (Option Row) → List (Option Row)
  modify i f [] = []
  modify zero f (o ∷ t) = Option.map f o ∷ t
  modify (suc i) f (o ∷ t) = o ∷ modify i f t

  pub get-size : (t : List (Option Row)) → get (size t) t ≡ none
  unfolding get size
  get-size [] = refl
  get-size (o ∷ t) = get-size t

  pub get-snoc :
      (r : Row) (j : ℕ) (t : List (Option Row))
      → get j (t ++ some r ∷ []) ≡ (if j == size t then some r else get j t)
  unfolding get size
  get-snoc r zero [] = refl
  get-snoc r (suc j) [] = ground arith
  get-snoc r zero (o ∷ t) = ground arith
  get-snoc r (suc j) (o ∷ t) = ground (arith, get-snoc r j t)

  pub get-each :
      (f : ℕ → Row → Option Row) (i j : ℕ) (t : List (Option Row))
      → get j (each f i t) ≡ change f (i + j) (get j t)
  unfolding get each
  get-each f i j [] = refl
  get-each f i zero (o ∷ t) = ap (λ n. change f n o) (omega arith)
  get-each f i (suc j) (o ∷ t) =
      ground (arith, get-each f (suc i) j t, ap (λ n. change f n (get j t)) (step i j))
    where
      step : (i j : ℕ) → suc i + j ≡ i + suc j
      step i j = omega arith

  pub get-modify :
      (i : ℕ) (f : Row → Row) (j : ℕ) (t : List (Option Row))
      → get j (modify i f t) ≡ (if j == i then Option.map f (get j t) else get j t)
  unfolding get modify
  get-modify i f j [] = ground arith
  get-modify zero f zero (o ∷ t) = ground arith
  get-modify zero f (suc j) (o ∷ t) = ground arith
  get-modify (suc i) f zero (o ∷ t) = ground arith
  get-modify (suc i) f (suc j) (o ∷ t) = ground (arith, get-modify i f j t)
