-- ===== src/Edit/Tests.antt =====
-- The theorem on the prompt at a concrete line.
use g0wm.Common.{refl, List, [], ◌∷◌, arith}
use g0wm.Edit.{
  Line, EditKey, edit, edit_all, typed, backward, backspace, erase_word, recalled, completed,
  show_text,
}
use g0wm.Edit.Keys.{IsLine, edit_all-IsLine}

-- "é x" with the cursor at the end.
abbrev a_line : Line
a_line = record { buffer = 195 ∷ 169 ∷ 32 ∷ 120 ∷ []; cursor = 4 }

a_line-IsLine : IsLine a_line
a_line-IsLine = record { fits = omega arith; inside = omega arith; text = refl; starts = refl }

-- Up takes "ab", and Tab puts "cd" in place of what is behind the "a".
abbrev some_keys : List EditKey
some_keys =
    backward
    ∷ backspace
    ∷ typed 8364
    ∷ erase_word
    ∷ recalled (97 ∷ 98 ∷ [])
    ∷ completed 1 (99 ∷ 100 ∷ [])
    ∷ []

edit_all-IsLine_example : IsLine (edit_all some_keys a_line)
unfolding edit show_text
edit_all-IsLine_example =
    edit_all-IsLine some_keys a_line
      (tt, (tt, (tt, (tt, ((refl, omega arith), ((refl, omega arith, refl), tt)))))) a_line-IsLine
