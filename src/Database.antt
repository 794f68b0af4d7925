-- ===== src/Database.antt =====
-- What the hub uses and does not implement, as interfaces: tables of the database (through
-- Prisma). The laws are what the queries are documented to do.
pub mod Memory
use code_caller.Prelude.{
  ℕ, suc, ◌+◌, ◌≤◌, ◌≡◌, Bool, true, false, Option, none, some, List, ◌==◌, if◌then◌else◌, In,
}
use mathlib.Core.Option

-- A table: rows under their generated ids.
pub record Table (Row : Type 0) : Type 1 where
  pub Rows : Type 0
  -- `findUnique({ where: { id } })`
  pub find_unique : ℕ → Rows → Option Row
  -- `findMany({ where, orderBy })`: the order is "may stand to the left of"
  pub find_many : (ℕ × Row → ℕ × Row → Bool) → (ℕ → Row → Bool) → Rows → List (ℕ × Row)
  -- `findFirst({ where, orderBy: { key: 'desc' } })`
  pub find_first : (Row → ℕ) → (ℕ → Row → Bool) → Rows → Option (ℕ × Row)
  -- `count({ where })`
  pub count : (ℕ → Row → Bool) → Rows → ℕ
  -- `create({ data })`, and the id that it generates
  pub next_id : Rows → ℕ
  pub create : Row → Rows → Rows
  -- `update({ where: { id }, data })` at an id that is there
  pub update : ℕ → (Row → Row) → Rows → Rows
  -- `updateMany({ where, data })`
  pub update_many : (ℕ → Row → Bool) → (Row → Row) → Rows → Rows
  -- `deleteMany({ where })`, and so `delete` and a cascade of deletions
  pub delete_many : (ℕ → Row → Bool) → Rows → Rows
  pub find-next_id : (t : Rows) → find_unique (next_id t) t ≡ none
  pub find-create :
      (r : Row) (j : ℕ) (t : Rows)
      → find_unique j (create r t) ≡ (if j == next_id t then some r else find_unique j t)
  pub find-update :
      (i : ℕ) (f : Row → Row) (j : ℕ) (t : Rows)
      → find_unique j (update i f t)
        ≡ (if j == i then Option.map f (find_unique j t) else find_unique j t)
  pub find-update_many :
      (p : ℕ → Row → Bool) (f : Row → Row) (j : ℕ) (t : Rows)
      → find_unique j (update_many p f t)
        ≡ Option.map (λ r. if p j r then f r else r) (find_unique j t)
  pub find-delete_many :
      (p : ℕ → Row → Bool) (j : ℕ) (t : Rows)
      → find_unique j (delete_many p t)
        ≡ elim (find_unique j t) [ none ↦ none | some r ↦ if p j r then none else some r ]
  -- `find_many` returns the rows that fit, and no other.
  pub find_many_sound :
      (o : ℕ × Row → ℕ × Row → Bool) (p : ℕ → Row → Bool) (t : Rows) (i : ℕ) (r : Row)
      → In (i, r) (find_many o p t)
      → (find_unique i t ≡ some r) × (p i r ≡ true)
  pub find_many_complete :
      (o : ℕ × Row → ℕ × Row → Bool) (p : ℕ → Row → Bool) (t : Rows) (i : ℕ) (r : Row)
      → find_unique i t ≡ some r
      → p i r ≡ true
      → In (i, r) (find_many o p t)
  -- `find_first` returns a row that fits with the greatest key, if any fits.
  pub find_first_sound :
      (k : Row → ℕ) (p : ℕ → Row → Bool) (t : Rows) (i : ℕ) (r : Row)
      → find_first k p t ≡ some (i, r)
      → (find_unique i t ≡ some r) × (p i r ≡ true)
  pub find_first_none :
      (k : Row → ℕ) (p : ℕ → Row → Bool) (t : Rows) (i : ℕ) (r : Row)
      → find_first k p t ≡ none
      → find_unique i t ≡ some r
      → p i r ≡ false
  pub find_first_greatest :
      (k : Row → ℕ) (p : ℕ → Row → Bool) (t : Rows) (i : ℕ) (r : Row) (j : ℕ) (s : Row)
      → find_first k p t ≡ some (i, r)
      → find_unique j t ≡ some s
      → p j s ≡ true
      → k s ≤ k r
  pub count-create :
      (p : ℕ → Row → Bool) (r : Row) (t : Rows)
      → count p (create r t) ≡ (if p (next_id t) r then suc (count p t) else count p t)
  pub count-update :
      (p : ℕ → Row → Bool) (i : ℕ) (f : Row → Row) (t : Rows) (r : Row)
      → find_unique i t ≡ some r
      → count p (update i f t) + (if p i r then 1 else 0) ≡ count p t + (if p i (f r) then 1 else 0)

-- Two states of a table: the row at one id is written, and every other stays.
module _ {Row : Type 0} (t : Table Row) where
  abbrev pub Sets : ℕ → Row → t.Rows → t.Rows → Type 0
  Sets i r old new =
      (j : ℕ) → t.find_unique j new ≡ (if j == i then some r else t.find_unique j old)
