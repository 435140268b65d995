-- ===== src/Apps/Exec.antt =====
-- src/desktop/runner/apps.c: the command of an application out of its `Exec` line.
use g0wm.Settings.Types.{lit}
use g0wm.Common.{
  ℕ, ◌≤◌, ◌≡◌, refl, ap, ◌∙◌, true, false, List, [], ◌∷◌, ◌++◌, ◌==◌, if◌then◌else◌, length, Bytes,
  arith,
}

-- The byte that a backslash and `c` stand for.
abbrev unescape : ℕ → ℕ
unescape c = if c == 115 then 32 else if c == 110 then 10 else if c == 116 then 9 else c

-- `runner_app_exec`
unfoldable pub app_exec : Bytes → Bytes
app_exec [] = []
app_exec (c ∷ []) = c ∷ []
app_exec (c ∷ d ∷ exec) = elim (c == 92) [
  | true ↦ unescape d ∷ app_exec exec
  | false ↦ elim (c == 37) [
    | true ↦ (if d == 37 then 37 ∷ [] else []) ++ app_exec exec
    | false ↦ c ∷ app_exec (d ∷ exec)
  ]
]

-- What a line is made of: a byte as it stands; the escapes for a blank, a newline and a tab; a backslash
-- in front of any other byte; a percent sign; and a field code.
pub data Piece : Type 0 where
  plain escaped field : ℕ → Piece
  blank newline tab percent : Piece

abbrev pub write : List Piece → Bytes
write [] = []
write (plain c ∷ pieces) = c ∷ write pieces
write (blank ∷ pieces) = lit "\\s" ++ write pieces
write (newline ∷ pieces) = lit "\\n" ++ write pieces
write (tab ∷ pieces) = lit "\\t" ++ write pieces
write (escaped c ∷ pieces) = 92 ∷ c ∷ write pieces
write (percent ∷ pieces) = lit "%%" ++ write pieces
write (field c ∷ pieces) = 37 ∷ c ∷ write pieces

abbrev pub meant : List Piece → Bytes
meant [] = []
meant (plain c ∷ pieces) = c ∷ meant pieces
meant (blank ∷ pieces) = 32 ∷ meant pieces
meant (newline ∷ pieces) = 10 ∷ meant pieces
meant (tab ∷ pieces) = 9 ∷ meant pieces
meant (escaped c ∷ pieces) = c ∷ meant pieces
meant (percent ∷ pieces) = 37 ∷ meant pieces
meant (field c ∷ pieces) = meant pieces

-- A backslash and a percent sign do not stand as they are, `s`, `n` and `t` behind a backslash are the
-- escapes, and %% is no field code.
abbrev pub AreApart : List Piece → Type 0
AreApart [] = Unit {0}
AreApart (plain c ∷ pieces) = ((c == 92) ≡ false) × ((c == 37) ≡ false) × AreApart pieces
AreApart (escaped c ∷ pieces) =
    ((c == 115) ≡ false) × ((c == 110) ≡ false) × ((c == 116) ≡ false) × AreApart pieces
AreApart (field c ∷ pieces) = ((c == 37) ≡ false) × AreApart pieces
AreApart (piece ∷ pieces) = AreApart pieces

app_exec-plain :
    (c : ℕ) (exec : Bytes)
    → (c == 92) ≡ false
    → (c == 37) ≡ false
    → app_exec (c ∷ exec) ≡ c ∷ app_exec exec
unfolding app_exec
app_exec-plain c [] h k = refl
app_exec-plain c (d ∷ exec) h k = ground (arith, h, k)

app_exec-le : (exec : Bytes) → length (app_exec exec) ≤ length exec
unfolding app_exec
app_exec-le [] = omega arith
app_exec-le (c ∷ []) = omega arith
app_exec-le (c ∷ d ∷ exec) = ground (arith, app_exec-le exec, app_exec-le (d ∷ exec))

app_exec-escaped :
    (c : ℕ) (exec : Bytes)
    → (c == 115) ≡ false
    → (c == 110) ≡ false
    → (c == 116) ≡ false
    → app_exec (92 ∷ c ∷ exec) ≡ c ∷ app_exec exec
unfolding app_exec
app_exec-escaped c exec h k l = rw (h, k, l) refl

app_exec-field :
    (c : ℕ) (exec : Bytes) → (c == 37) ≡ false → app_exec (37 ∷ c ∷ exec) ≡ app_exec exec
unfolding app_exec
app_exec-field c exec h = rw h refl

app_exec-pieces : (pieces : List Piece) → AreApart pieces → app_exec (write pieces) ≡ meant pieces
unfolding app_exec
app_exec-pieces [] h = refl
app_exec-pieces (plain c ∷ pieces) h =
    app_exec-plain c (write pieces) h.0 h.1 ∙ ap (◌∷◌ c) (app_exec-pieces pieces h.2)
app_exec-pieces (escaped c ∷ pieces) h =
    app_exec-escaped c (write pieces) h.0 h.1 h.2 ∙ ap (◌∷◌ c) (app_exec-pieces pieces h.3)
app_exec-pieces (field c ∷ pieces) h =
    app_exec-field c (write pieces) h.0 ∙ app_exec-pieces pieces h.1
app_exec-pieces (blank ∷ pieces) h = ap (◌∷◌ 32) (app_exec-pieces pieces h)
app_exec-pieces (newline ∷ pieces) h = ap (◌∷◌ 10) (app_exec-pieces pieces h)
app_exec-pieces (tab ∷ pieces) h = ap (◌∷◌ 9) (app_exec-pieces pieces h)
app_exec-pieces (percent ∷ pieces) h = ap (◌∷◌ 37) (app_exec-pieces pieces h)

-- Of a line made of bytes as they stand, of \s, \n and \t, of other bytes behind a backslash, of %% and
-- of field codes, the command has the bytes that these stand for in order, and nothing for the field
-- codes; and the command of any line fits in the memory that is allocated for it.
pub app_exec-write :
    (pieces : List Piece) (exec : Bytes)
    → AreApart pieces
    → (app_exec (write pieces) ≡ meant pieces) × (length (app_exec exec) ≤ length exec)
app_exec-write pieces exec h = (app_exec-pieces pieces h, app_exec-le exec)
