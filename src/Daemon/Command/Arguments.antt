-- ===== src/Daemon/Command/Arguments.antt =====
-- What the command of a task gets of its prompt (agent-daemon/src/runner.js, `buildSpawnPlan`).
use mathlib.Core.List.{append_assoc}
use code_caller.Prelude.{
  ℕ, zero, suc, ◌-◌, ◌≤◌, ◌≡◌, refl, ◌∙◌, ap, true, false, some, [], ◌∷◌, ◌++◌, ◌==◌, arith, length,
  All,
}
use code_caller.Units.{Text, codes, after, has_prefix, replace_from, replace_all}
use code_caller.Daemon.Command.{
  quote, drop_quote, strip_outer_quotes, substitute, build_spawn_plan, Placeholders,
  default_command_template,
}

abbrev Lacks : ℕ → Text → Type 0
Lacks q = All (λ c. (c == q) ≡ false)

module _ (q : ℕ) where
  prefix-snoc : (part s : Text) → Lacks q part → has_prefix part (s ++ q ∷ []) ≡ has_prefix part s
  unfolding after
  prefix-snoc [] s l = refl
  prefix-snoc (p ∷ ps) [] l = ground arith
  prefix-snoc (p ∷ ps) (c ∷ s) l = ground (arith, prefix-snoc ps s)

  prefix-length : (part s : Text) → has_prefix part s ≡ true → length part ≤ length s
  unfolding after
  prefix-length [] s h = omega arith
  prefix-length (p ∷ ps) [] h = cc
  prefix-length (p ∷ ps) (c ∷ s) h = ground (arith, prefix-length ps s)

  replace_from-snoc :
      (k p : ℕ) (ps by s : Text)
      → Lacks q (p ∷ ps)
      → k ≤ length s
      → replace_from k (p ∷ ps) by (s ++ q ∷ []) ≡ replace_from k (p ∷ ps) by s ++ q ∷ []
  unfolding replace_from
  replace_from-snoc zero p ps by [] l h = ground (arith, prefix-snoc (p ∷ ps) [])
  replace_from-snoc (suc k) p ps by [] l h = absurd (omega arith)
  replace_from-snoc (suc k) p ps by (c ∷ s) l h = replace_from-snoc k p ps by s l (omega arith)
  replace_from-snoc zero p ps by (c ∷ s) l h =
      let rest = replace_from (length ps) (p ∷ ps) by s in
      ground (
        arith,
        prefix-snoc (p ∷ ps) (c ∷ s) l,
        prefix-length (p ∷ ps) (c ∷ s),
        replace_from-snoc (suc (length ps) - 1) p ps by s l,
        replace_from-snoc zero p ps by s l,
        append_assoc by (replace_from (suc (length ps) - 1) (p ∷ ps) by s) (q ∷ []),
      )

  replace_all-snoc :
      (p : ℕ) (ps by s : Text)
      → Lacks q (p ∷ ps)
      → replace_all (p ∷ ps) by (s ++ q ∷ []) ≡ replace_all (p ∷ ps) by s ++ q ∷ []
  unfolding replace_all
  replace_all-snoc p ps by s l = replace_from-snoc zero p ps by s l (omega arith)

drop_quote-snoc : (s : Text) → drop_quote (s ++ quote ∷ []) ≡ some s
unfolding drop_quote
drop_quote-snoc [] = refl
drop_quote-snoc (c ∷ []) = refl
drop_quote-snoc (c ∷ d ∷ s) = ground (arith, drop_quote-snoc (d ∷ s))

module _ (p : Placeholders) where
  -- the prompt after the placeholders that are filled in later
  abbrev pub filled : Text
  filled = replace_all (codes "{{cwd}}") p.cwd (replace_all (codes "{{input}}") p.input p.prompt)

  third : substitute (codes "\"{{prompt}}\"") p ≡ quote ∷ (filled ++ quote ∷ [])
  unfolding substitute
  third =
      let input = codes "{input}}" in
      let cwd = codes "{cwd}}" in
      ap (λ s. quote ∷ replace_all (b'{' ∷ cwd) p.cwd s)
        (replace_all-snoc quote b'{' input p.input p.prompt (ground arith))
      ∙ ap (λ s. quote ∷ s)
          (replace_all-snoc quote b'{' cwd p.cwd (replace_all (codes "{{input}}") p.input p.prompt)
            (ground arith))

  stripped : strip_outer_quotes (quote ∷ (filled ++ quote ∷ [])) ≡ filled
  unfolding strip_outer_quotes
  stripped = ground (arith, drop_quote-snoc filled)

  -- With the default template and without a shell, the daemon runs `codex exec` with one further
  -- argument, whatever the prompt holds: the prompt in which the input and then the directory
  -- stand for their placeholders.
  pub build_spawn_plan-default :
      build_spawn_plan false default_command_template p
      ≡ some (record { shell = false; command = codes "codex"; args = codes "exec" ∷ filled ∷ [] })
  unfolding build_spawn_plan
  build_spawn_plan-default =
      ap
        (λ a.
          some (record { shell = false; command = codes "codex"; args = codes "exec" ∷ a ∷ [] }))
        (ap strip_outer_quotes third ∙ stripped)
