-- ===== src/Database/Memory/Laws.antt =====
-- The laws of `Table` for the table in memory.
use mathlib.Core.Option
use mathlib.Core.Option.{some-injective}
use mathlib.Core.Path.{subst}
use native.Mathlib.Nat.{zero-add}
use code_caller.Prelude.{
  ℕ, zero, suc, ◌+◌, ◌≤◌, ◌≡◌, refl, sym, ◌∙◌, ◌⊎◌, Bool, true, false, Option, none, some, List, [],
  ◌∷◌, ◌++◌, arith, if◌then◌else◌, In, head, tail, ap, inl, inr, Bool-cases, Option-cases, sort,
  sort-In, In-sort,
}
use code_caller.Database.{Table}
use code_caller.Database.Memory.{
  get, size, each, keep, select, total, get-size, get-snoc, get-each, get-modify, best, better,
  modify,
}

module _ {Row : Type 0} where
  keep_sound :
      (p : ℕ → Row → Bool) (i : ℕ) (o : Option Row) (rest : List (ℕ × Row)) (j : ℕ) (r : Row)
      → In (j, r) (keep p i o rest)
      → ((j ≡ i) × (o ≡ some r) × (p j r ≡ true)) ⊎ In (j, r) rest
  keep_sound p i none rest j r h = inr h
  keep_sound p i (some s) rest j r h = split (p i s) refl h
    where
      split :
          (b : Bool)
          → p i s ≡ b
          → In (j, r) (if b then (i, s) ∷ rest else rest)
          → ((j ≡ i) × (some s ≡ some r) × (p j r ≡ true)) ⊎ In (j, r) rest
      split false e h = inr h
      split true e (head q) =
          inl (ap (λ t. t.0) q, ap (λ t. some t.1) (sym q), rw (ap (λ t. t.0) q, ap (λ t. t.1) q) e)
      split true e (tail h) = inr h

  select_sound :
      (p : ℕ → Row → Bool) (i : ℕ) (t : List (Option Row)) (j : ℕ) (r : Row)
      → In (j, r) (select p i t)
      → (n : ℕ) × (j ≡ i + n) × (get n t ≡ some r) × (p j r ≡ true)
  unfolding get select
  select_sound p i [] j r h = elim h [ ]
  select_sound p i (o ∷ t) j r h = elim (keep_sound p i o (select p (suc i) t) j r h) [
    | inl e ↦ (zero, ground arith, e.1, e.2)
    | inr m ↦ let (n, e, g, q) = select_sound p (suc i) t j r m in (suc n, omega arith, g, q)
  ]

  keep_rest :
      (p : ℕ → Row → Bool) (i : ℕ) (o : Option Row) (rest : List (ℕ × Row)) (e : ℕ × Row)
      → In e rest
      → In e (keep p i o rest)
  keep_rest p i none rest e h = h
  keep_rest p i (some s) rest e h = elim (Bool-cases (p i s)) [
    | inl q ↦ rw q (tail h)
    | inr q ↦ rw q h
  ]

  select_complete :
      (p : ℕ → Row → Bool) (i n : ℕ) (t : List (Option Row)) (r : Row)
      → get n t ≡ some r
      → p (i + n) r ≡ true
      → In (i + n, r) (select p i t)
  unfolding get select
  select_complete p i n [] r g q = cc
  select_complete p i zero (o ∷ t) r g q = rw (g, q') (head (ap (λ m. (m, r)) at_zero))
    where
      at_zero : i + zero ≡ i
      at_zero = omega arith

      q' : p i r ≡ true
      q' = rw at_zero at q
  select_complete p i (suc n) (o ∷ t) r g q =
      rw shift
        (keep_rest p i o (select p (suc i) t) _ (select_complete p (suc i) n t r g (rw shift at q)))
    where
      shift : i + suc n ≡ suc i + n
      shift = omega arith

  pub best_sound : (k : Row → ℕ) (l : List (ℕ × Row)) (e : ℕ × Row) → best k l ≡ some e → In e l
  unfolding best
  best_sound k [] e h = cc
  best_sound k (d ∷ l) e h = pick (λ c. best_sound k l c) (best k l) refl h
    where
      choose :
          (b : Bool) (c : ℕ × Row) → In c l → (if b then some d else some c) ≡ some e → In e (d ∷ l)
      choose true c m h = head (sym (some-injective _ _ h))
      choose false c m h = tail (subst (λ x. In x l) (some-injective _ _ h) m)

      pick :
          ((c : ℕ × Row) → best k l ≡ some c → In c l)
          → (o : Option (ℕ × Row)) → best k l ≡ o
          → better k d o ≡ some e
          → In e (d ∷ l)
      pick ih none q h = head (sym (some-injective _ _ h))
      pick ih (some c) q h = choose _ c (ih c q) h

  best-none : (k : Row → ℕ) (l : List (ℕ × Row)) (e : ℕ × Row) → best k l ≡ none → ¬ In e l
  unfolding best
  best-none k [] e h m = elim m [ ]
  best-none k (d ∷ l) e h m = ground arith

  pub best_greatest :
      (k : Row → ℕ) (l : List (ℕ × Row)) (e d : ℕ × Row)
      → best k l ≡ some e
      → In d l
      → k d.1 ≤ k e.1
  unfolding best
  best_greatest k [] e d h m = elim m [ ]
  best_greatest k (c ∷ l) e d h (head q) = rw q (ground arith)
  best_greatest k (c ∷ l) e d h (tail m) = elim (Option-cases (best k l)) [
    | inl q ↦ absurd (best-none k l d q m)
    | inr (b, q) ↦ ground (arith, best_greatest k l b d q m)
  ]

  total-snoc :
      (p : ℕ → Row → Bool) (i : ℕ) (r : Row) (t : List (Option Row))
      → total p i (t ++ some r ∷ []) ≡ (if p (i + size t) r then suc (total p i t) else total p i t)
  unfolding total size
  total-snoc p i r [] = rw zero_right (ground arith)
    where
      zero_right : i + 0 ≡ i
      zero_right = omega arith
  total-snoc p i r (o ∷ t) = rw shift (ground (arith, total-snoc p (suc i) r t))
    where
      shift : i + suc (size t) ≡ suc i + size t
      shift = omega arith

  total-modify :
      (p : ℕ → Row → Bool) (f : Row → Row) (i n : ℕ) (t : List (Option Row)) (r : Row)
      → get n t ≡ some r
      → total p i (modify n f t) + (if p (i + n) r then 1 else 0)
        ≡ total p i t + (if p (i + n) (f r) then 1 else 0)
  unfolding total modify get
  total-modify p f i n [] r g = cc
  total-modify p f i zero (o ∷ t) r g = rw (g, zero_right) (ground arith)
    where
      zero_right : i + 0 ≡ i
      zero_right = omega arith
  total-modify p f i (suc n) (o ∷ t) r g =
      rw shift (ground (arith, total-modify p f (suc i) n t r g))
    where
      shift : i + suc n ≡ suc i + n
      shift = omega arith

module _ {Row : Type 0} where
  pub find-update_many :
      (p : ℕ → Row → Bool) (f : Row → Row) (j : ℕ) (t : List (Option Row))
      → get j (each (λ j r. some (if p j r then f r else r)) 0 t)
        ≡ Option.map (λ r. if p j r then f r else r) (get j t)
  find-update_many p f j t = rw (get-each, zero-add) (ground arith)

  pub find-delete_many :
      (p : ℕ → Row → Bool) (j : ℕ) (t : List (Option Row))
      → get j (each (λ j r. if p j r then none else some r) 0 t)
        ≡ elim (get j t) [ none ↦ none | some r ↦ if p j r then none else some r ]
  find-delete_many p j t = rw (get-each, zero-add) (ground arith)

  pub select_sound_zero :
      (p : ℕ → Row → Bool) (t : List (Option Row)) (i : ℕ) (r : Row)
      → In (i, r) (select p 0 t)
      → (get i t ≡ some r) × (p i r ≡ true)
  select_sound_zero p t i r h =
      let (n, e, g, q) = select_sound p 0 t i r h in (ap (λ m. get m t) (e ∙ zero-add n) ∙ g, q)

  pub select_complete_zero :
      (p : ℕ → Row → Bool) (t : List (Option Row)) (i : ℕ) (r : Row)
      → get i t ≡ some r
      → p i r ≡ true
      → In (i, r) (select p 0 t)
  select_complete_zero p t i r g q =
      subst (λ n. p n r ≡ true → In (n, r) (select p 0 t)) (zero-add i)
        (select_complete p 0 i t r g) q

  pub find_first_none :
      (k : Row → ℕ) (p : ℕ → Row → Bool) (t : List (Option Row)) (i : ℕ) (r : Row)
      → best k (select p 0 t) ≡ none
      → get i t ≡ some r
      → p i r ≡ false
  find_first_none k p t i r h g = elim (Bool-cases (p i r)) [
    | inl q ↦ absurd (best-none k _ (i, r) h (select_complete_zero p t i r g q))
    | inr q ↦ q
  ]

  pub count-create :
      (p : ℕ → Row → Bool) (r : Row) (t : List (Option Row))
      → total p 0 (t ++ some r ∷ []) ≡ (if p (size t) r then suc (total p 0 t) else total p 0 t)
  count-create p r t =
      total-snoc p 0 r t
      ∙ ap (λ n. if p n r then suc (total p 0 t) else total p 0 t) (zero-add (size t))

  pub count-update :
      (p : ℕ → Row → Bool) (i : ℕ) (f : Row → Row) (t : List (Option Row)) (r : Row)
      → get i t ≡ some r
      → total p 0 (modify i f t) + (if p i r then 1 else 0)
        ≡ total p 0 t + (if p i (f r) then 1 else 0)
  count-update p i f t r g = rw (zero-add i) at (total-modify p f 0 i t r g)

-- The table itself.
abbrev pub memory_table : (Row : Type 0) → Table Row
memory_table Row = record {
  Rows = List (Option Row);
  find_unique = get;
  find_many = λ o p t. sort o (select p 0 t);
  find_first = λ k p t. best k (select p 0 t);
  count = λ p t. total p 0 t;
  next_id = size;
  create = λ r t. t ++ some r ∷ [];
  update = modify;
  update_many = λ p f t. each (λ j r. some (if p j r then f r else r)) 0 t;
  delete_many = λ p t. each (λ j r. if p j r then none else some r) 0 t;
  find-next_id = get-size;
  find-create = get-snoc;
  find-update = get-modify;
  find-update_many = find-update_many;
  find-delete_many = find-delete_many;
  find_many_sound = λ o p t i r m. select_sound_zero p t i r (sort-In o (i, r) _ m);
  find_many_complete = λ o p t i r g q. In-sort o (i, r) _ (select_complete_zero p t i r g q);
  find_first_sound = λ k p t i r h. select_sound_zero p t i r (best_sound k _ (i, r) h);
  find_first_none = find_first_none;
  find_first_greatest =
      λ k p t i r j s h g q. best_greatest k _ (i, r) (j, s) h (select_complete_zero p t j s g q);
  count-create = count-create;
  count-update = count-update;
}
