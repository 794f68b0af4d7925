-- ===== src/Daemon/Registration/EnvFile/Upserts.antt =====
-- What the registration leaves in the daemon's file of settings (agent-daemon/src/register.js).
use code_caller.Prelude.{
  suc, ◌≡◌, refl, sym, ap, ◌∙◌, inl, inr, Bool, true, false, not, ◌&&◌, Option, none, some, List,
  [], ◌∷◌, ◌++◌, map, length, if◌then◌else◌, arith, Bool-cases, Option-cases,
}
use code_caller.Units.{Text, is_empty, text_eq, filter, drop}
use code_caller.Units.Equality.{text_eq_sound}
use code_caller.Daemon.Registration.EnvFile.{
  find_value, is_key_unit, key_before, key_of, setting_line, updated_line, has_key, seen,
  added_lines, upserted_lines,
}

abbrev pub or_some : Option Text → Option Text → Option Text
or_some none b = b
or_some (some v) b = some v

-- What a line says about a key.
abbrev pub value_in : Text → Text → Option Text
value_in key line = if has_key key line then some (drop (suc (length key)) line) else none

-- The value of a key in the file: the first line with the key has it.
unfoldable pub setting : Text → List Text → Option Text
unfolding drop
setting key [] = none
setting key (line ∷ l) = or_some (value_in key line) (setting key l)

unfoldable pub all_key_units : Text → Bool
all_key_units [] = true
all_key_units (c ∷ s) = is_key_unit c && all_key_units s

abbrev pub is_key : Text → Bool
is_key k = not (is_empty k) && all_key_units k

unfoldable pub are_keys : List (Text × Text) → Bool
unfolding all_key_units
are_keys [] = true
are_keys ((k, v) ∷ l) = is_key k && are_keys l

key_before-setting_line :
    (k v : Text) → all_key_units k ≡ true → key_before (setting_line k v) ≡ some k
unfolding key_before all_key_units
key_before-setting_line [] v h = refl
key_before-setting_line (c ∷ k) v h = ground (arith, key_before-setting_line k v)

key_of-setting_line : (k v : Text) → is_key k ≡ true → key_of (setting_line k v) ≡ some k
unfolding key_of
key_of-setting_line k v h = ground (arith, key_before-setting_line k v)

drop-setting_line : (k v : Text) → drop (suc (length k)) (setting_line k v) ≡ v
unfolding drop
drop-setting_line [] v = refl
drop-setting_line (c ∷ k) v = drop-setting_line k v

value_in-setting_line :
    (key k v : Text)
    → is_key k ≡ true
    → value_in key (setting_line k v) ≡ (if text_eq k key then some v else none)
value_in-setting_line key k v h = elim (Bool-cases (text_eq k key)) [
  | inl same ↦
      ground (arith, key_of-setting_line k v h, drop-setting_line k v, text_eq_sound k key same)
  | inr other ↦ ground (arith, key_of-setting_line k v h)
]

or_some_assoc : (a b c : Option Text) → or_some (or_some a b) c ≡ or_some a (or_some b c)
or_some_assoc none b c = refl
or_some_assoc (some v) b c = refl

or_some-none : (a : Option Text) → or_some a none ≡ a
or_some-none none = refl
or_some-none (some v) = refl

find_value-is_key :
    (k v : Text) (updates : List (Text × Text))
    → are_keys updates ≡ true
    → find_value k updates ≡ some v
    → is_key k ≡ true
unfolding find_value are_keys
find_value-is_key k v [] h e = cc
find_value-is_key k v ((j, w) ∷ l) h e = elim (Bool-cases (text_eq j k)) [
  | inl same ↦ ground (arith, text_eq_sound j k same)
  | inr other ↦ ground (arith, find_value-is_key k v l)
]

module _ (key : Text) where
  setting-++ : (l m : List Text) → setting key (l ++ m) ≡ or_some (setting key l) (setting key m)
  unfolding setting
  setting-++ [] m = refl
  setting-++ (line ∷ l) m =
      ap (or_some (value_in key line)) (setting-++ l m)
      ∙ sym (or_some_assoc (value_in key line) (setting key l) (setting key m))

  -- An empty line says nothing.
  setting-filter :
      (l : List Text) → setting key (filter (λ line. not (is_empty line)) l) ≡ setting key l
  unfolding setting filter key_of key_before
  setting-filter [] = refl
  setting-filter ([] ∷ l) = setting-filter l
  setting-filter ((c ∷ s) ∷ l) = ap (or_some (value_in key (c ∷ s))) (setting-filter l)

  module _ (updates : List (Text × Text)) (keys : are_keys updates ≡ true) where
    -- What a rewritten line says.
    value_in-updated_line :
        (line : Text)
        → value_in key (updated_line updates line) ≡ (
            if has_key key line then or_some (find_value key updates) (value_in key line) else none)
    unfolding updated_line
    value_in-updated_line line = elim (Option-cases (key_of line)) [
      | inl plain ↦ ground arith
      | inr (k, e) ↦ elim (Option-cases (find_value k updates)) [
        | inl kept ↦ elim (Bool-cases (text_eq k key)) [
          | inl same ↦ ground (arith, text_eq_sound k key same)
          | inr other ↦ ground arith
        ]
        | inr (v, f) ↦ elim (Bool-cases (text_eq k key)) [
          | inl same ↦ ground (
            arith,
            text_eq_sound k key same,
            value_in-setting_line key k v (find_value-is_key k v updates keys f),
          )
          | inr other ↦
              ground (arith, value_in-setting_line key k v (find_value-is_key k v updates keys f))
        ]
      ]
    ]

    setting-map :
        (l : List Text)
        → setting key (map (updated_line updates) l)
          ≡ (if seen key l then or_some (find_value key updates) (setting key l) else none)
    unfolding setting seen
    setting-map [] = refl
    setting-map (line ∷ l) = elim (Bool-cases (has_key key line)) [
      | inl its ↦ ground (arith, value_in-updated_line line, setting-map l)
      | inr other ↦ ground (arith, value_in-updated_line line, setting-map l)
    ]

  setting-added_lines :
      (existing : List Text) (updates : List (Text × Text))
      → are_keys updates ≡ true
      → setting key (added_lines existing updates)
        ≡ (if seen key existing then none else find_value key updates)
  unfolding setting added_lines find_value are_keys
  setting-added_lines existing [] h = ground arith
  setting-added_lines existing ((k, v) ∷ l) h =
      ground
        (arith, setting-added_lines existing l, value_in-setting_line key k v, text_eq_sound k key)

  setting-unseen : (l : List Text) → seen key l ≡ false → setting key l ≡ none
  unfolding setting seen
  setting-unseen [] h = refl
  setting-unseen (line ∷ l) h = ground (arith, setting-unseen l)

  -- If all keys of the update are made of capitals, digits and underscores, the first line with a
  -- key has the update's value of that key, or, if the update does not name the key, the value
  -- that the old file had.
  pub setting-upserted_lines :
      (updates : List (Text × Text)) (existing : List Text)
      → are_keys updates ≡ true
      → setting key (upserted_lines updates existing)
        ≡ or_some (find_value key updates) (setting key existing)
  unfolding upserted_lines
  setting-upserted_lines updates existing h =
      setting-filter (map (updated_line updates) existing ++ added_lines existing updates)
      ∙ setting-++ (map (updated_line updates) existing) (added_lines existing updates)
      ∙ joined
    where
      joined :
          or_some
            (setting key (map (updated_line updates) existing))
            (setting key (added_lines existing updates))
          ≡ or_some (find_value key updates) (setting key existing)
      joined = elim (Bool-cases (seen key existing)) [
        | inl there ↦ ground (
          arith,
          setting-map updates h existing,
          setting-added_lines existing updates h,
          or_some-none (or_some (find_value key updates) (setting key existing)),
        )
        | inr gone ↦ ground (
          arith,
          setting-map updates h existing,
          setting-added_lines existing updates h,
          setting-unseen existing gone,
          or_some-none (find_value key updates),
        )
      ]
