-- ===== src/Daemon/Approvals/Reasons.antt =====
-- How long the reason is that the detector gives (agent-daemon/src/approval-detector.js).
use code_caller.Prelude.{
  ◌≤◌, ◌≡◌, refl, not, ◌&&◌, Bool, true, false, Option, none, some, List, [], ◌∷◌, ◌++◌, ltb, leb,
  length, if◌then◌else◌, arith, Bool-cases, inl, inr,
}
use code_caller.Units.{Text, codes, lines, join, trim, filter, is_blank}
use code_caller.Units.Lengths.{length-take_last}
use code_caller.Daemon.Patterns.{found_any}
use code_caller.Daemon.Approvals.{
  confirm_markers, collapse, shorten, excerpt, detect_line, last_two, detect, strip_ansi,
}

abbrev is_short : Option Text → Bool
is_short none = true
is_short (some s) = leb (length s) 241

length-shorten : (s : Text) → is_short (some (shorten 240 s)) ≡ true
length-shorten s = elim (Bool-cases (ltb 240 (length s))) [
  | inl long ↦ ground (arith, length-take_last 240 s)
  | inr fits ↦ ground arith
]

length-excerpt : (s : Text) → is_short (some (excerpt 240 s)) ≡ true
unfolding excerpt
length-excerpt s = length-shorten (
    trim
      (collapse false (join (codes " ") (filter (λ l. not (is_blank l)) (lines (strip_ansi s))))))

either-is_short :
    (b : Bool) (o p : Option Text)
    → is_short o ≡ true
    → is_short p ≡ true
    → is_short (if b then o else p) ≡ true
either-is_short true o p h g = h
either-is_short false o p h g = g

detect_line-is_short : (before l : List Text) → is_short (detect_line before l) ≡ true
unfolding detect_line
detect_line-is_short before [] = refl
detect_line-is_short before (s ∷ l) =
    either-is_short (not (is_blank s) && found_any confirm_markers (trim s))
      (some (excerpt 240 (join (codes "\n") (before ++ s ∷ []))))
      (detect_line (last_two (before ++ s ∷ [])) l)
      (length-excerpt (join (codes "\n") (before ++ s ∷ [])))
      (detect_line-is_short (last_two (before ++ s ∷ [])) l)

detect-is_short : (s : Text) → is_short (detect s) ≡ true
unfolding detect
detect-is_short s =
    either-is_short (is_blank (strip_ansi s)) none (detect_line [] (lines (strip_ansi s))) refl
      (detect_line-is_short [] (lines (strip_ansi s)))

pub length-reason : (s reason : Text) → detect s ≡ some reason → length reason ≤ 241
length-reason s reason e = ground (arith, detect-is_short s)
