-- ===== src/Match/Mode.antt =====
-- src/desktop/runner/match.c: the mode of a line, and where its query starts.
use g0wm.Common.{
  ℕ, suc, zero, Bool, false, ◌&&◌, ◌||◌, Option, none, some, List, [], ◌∷◌, ◌==◌, if◌then◌else◌,
  Bytes, is_empty,
}
use g0wm.Match.{choose}

-- Past the blanks behind the first bytes.
abbrev past_blanks : ℕ → Bytes → ℕ
past_blanks zero [] = 0
past_blanks (suc n) [] = suc n
past_blanks zero (c ∷ text) =
    let further = suc (past_blanks 0 text) in if (c == 32) || (c == 9) then further else 0
past_blanks (suc n) (c ∷ text) = suc (past_blanks n text)

-- `strrchr(text, '/')`, as an index.
abbrev last_slash : Bytes → Option ℕ
last_slash [] = none
last_slash (c ∷ text) = elim (last_slash text) [
  | some k ↦ some (suc k)
  | none ↦ if c == 47 then some 0 else none
]

abbrev starts_with_slash : Bytes → Bool
starts_with_slash [] = false
starts_with_slash (c ∷ text) = c == 47

-- A path from the root or from the home directory.
abbrev is_path : Bytes → Bool
is_path [] = false
is_path (c ∷ text) = (c == 47) || ((c == 126) && (is_empty text || starts_with_slash text))

-- `NumModes`
abbrev all_modes : List ℕ
all_modes = 0 ∷ 1 ∷ 2 ∷ 3 ∷ 4 ∷ 5 ∷ 6 ∷ 7 ∷ []

-- `runner_mode`: the mode by its number, and the offset; `files` for `runner_files`.
unfoldable pub line_mode : (ℕ → Bytes) → (ℕ → Bool) → Bool → Bytes → ℕ × ℕ
line_mode prefix mode_on files text =
    let best = choose prefix mode_on text all_modes 0 0 in
    if (best.0 == 0) && (files && is_path text)
    then (7, elim (last_slash text) [ none ↦ 0 | some k ↦ suc k ])
    else (best.0, if best.1 == 0 then 0 else past_blanks best.1 text)
