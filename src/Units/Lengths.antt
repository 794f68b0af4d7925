-- ===== src/Units/Lengths.antt =====
-- The length of what `slice` leaves.
use code_caller.Prelude.{ℕ, zero, suc, ◌-◌, ◌≤◌, ◌≡◌, [], ◌∷◌, arith, length}
use code_caller.Units.{Text, drop, take_last}

length-drop : (n : ℕ) (s : Text) → length (drop n s) ≡ length s - n
unfolding drop
length-drop zero s = omega arith
length-drop (suc n) [] = omega arith
length-drop (suc n) (c ∷ s) = omega (arith, length-drop n s)

pub length-take_last : (n : ℕ) (s : Text) → length (take_last n s) ≤ n
unfolding take_last
length-take_last n s = omega (arith, length-drop (length s - n) s)
