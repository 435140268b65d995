-- ===== src/Calc.antt =====
-- src/desktop/runner/calc.c: the parser of the calculator. The expression is the list of its bytes;
-- what the code does with doubles is a parameter.
pub mod After
pub mod Ends
mod Tests
use g0wm.Common.{
  ℕ, suc, zero, ◌+◌, ◌-◌, ◌*◌, Bool, true, false, not, ◌&&◌, ◌||◌, Option, none, some, List, [],
  ◌∷◌, ◌==◌, ltb, leb, length, is_empty, if◌then◌else◌,
}

-- The arithmetic on `double` that the parser uses.
pub record Double (A : Type 0) : Type 0 where
  pub nought : A
  pub ten : A
  pub tenth : A
  pub of_digit : ℕ → A
  pub negate : A → A
  pub plus : A → A → A
  pub minus : A → A → A
  pub times : A → A → A
  pub over : A → A → A
  pub fmod : A → A → A
  pub is_nought : A → Bool

-- `RunnerCalcState`; `cursor` is what is left to read.
pub record CalcState : Type 0 where
  pub cursor : List ℕ
  pub depth : ℕ
  pub failed : Bool

abbrev pub is_digit : ℕ → Bool
is_digit c = leb 48 c && leb c 57

abbrev pub is_blank : ℕ → Bool
is_blank c = (c == 32) || (c == 9)

abbrev pub skip_blanks : List ℕ → List ℕ
skip_blanks [] = []
skip_blanks (c ∷ cs) = if is_blank c then skip_blanks cs else c ∷ cs

abbrev pub at : List ℕ → CalcState → CalcState
at cs s = record s { cursor = cs }

abbrev pub fail : CalcState → CalcState
fail s = record s { failed = true }

-- What the parser is at: one of its functions, or the loop of `runner_calc_term` or
-- `runner_calc_expr` with the value so far.
pub data Task (A : Type 0) : Type 0 where
  atom : Task A
  term : Task A
  term_loop : A → Task A
  expr : Task A
  expr_loop : A → Task A

-- A result with the state after it; `none` where the fuel has run out.
abbrev pub Result : Type 0 → Type 0
Result A = Option (A × CalcState)

abbrev pub and_then : {A : Type 0} → Result A → (A → CalcState → Result A) → Result A
and_then none f = none
and_then (some (v, s)) f = f v s

abbrev pub close : CalcState → List ℕ → CalcState
close s [] = fail (at [] s)
close s (c ∷ cs) = if c == 41 then at cs s else fail (at (c ∷ cs) s)

module _ {A : Type 0} (d : Double A) where
  -- The two loops of `runner_calc_number`, with whether there was a digit.
  abbrev pub fraction : A → A → Bool → List ℕ → A × Bool × List ℕ
  fraction value frac has_digits [] = (value, has_digits, [])
  fraction value frac has_digits (c ∷ cs) =
      let rest =
        fraction (d.plus value (d.times (d.of_digit (c - 48)) frac)) (d.times frac d.tenth) true
          cs in
      if is_digit c then rest else (value, has_digits, c ∷ cs)

  abbrev pub integer : A → Bool → List ℕ → A × Bool × List ℕ
  integer value has_digits [] = (value, has_digits, [])
  integer value has_digits (c ∷ cs) =
      let rest = integer (d.plus (d.times value d.ten) (d.of_digit (c - 48))) true cs in
      if is_digit c
      then rest
      else if c == 46
      then fraction value d.tenth has_digits cs
      else (value, has_digits, c ∷ cs)

  pub number : CalcState → A × CalcState
  number s =
      let (value, has_digits, rest) = integer d.nought false s.cursor in
      (value, if has_digits then at rest s else fail (at rest s))

  -- `runner_calc_atom` after `runner_calc_enter` and the blanks; `go` makes the recursive calls.
  pub atom_at : (Task A → CalcState → Result A) → CalcState → List ℕ → Result A
  atom_at go s [] = some (number s)
  atom_at go s (c ∷ cs) =
      if c == 45
      then and_then (go atom (at cs s)) (λ v t. some (d.negate v, t))
      else if c == 43
      then go atom (at cs s)
      else if c == 40
      then and_then (go expr (at cs s)) (λ v t. some (v, close t (skip_blanks t.cursor)))
      else some (number s)

  abbrev pub leave : A → CalcState → Result A
  leave v t = some (v, record t { depth = t.depth - 1 })

  -- A division, which a zero on the right makes fail.
  abbrev pub divide : (Task A → CalcState → Result A) → (A → A → A) → A → A → CalcState → Result A
  divide go op v w t = if d.is_nought w then some (d.nought, fail t) else go (term_loop (op v w)) t

  pub term_at : (Task A → CalcState → Result A) → A → CalcState → List ℕ → Result A
  term_at go v s [] = some (v, at [] s)
  term_at go v s (c ∷ cs) =
      if c == 42
      then and_then (go atom (at cs s)) (λ w t. go (term_loop (d.times v w)) t)
      else if c == 47
      then and_then (go atom (at cs s)) (divide go d.over v)
      else if c == 37
      then and_then (go atom (at cs s)) (divide go d.fmod v)
      else some (v, at (c ∷ cs) s)

  pub expr_at : (Task A → CalcState → Result A) → A → CalcState → List ℕ → Result A
  expr_at go v s [] = some (v, at [] s)
  expr_at go v s (c ∷ cs) =
      if c == 43
      then and_then (go term (at cs s)) (λ w t. go (expr_loop (d.plus v w)) t)
      else if c == 45
      then and_then (go term (at cs s)) (λ w t. go (expr_loop (d.minus v w)) t)
      else some (v, at (c ∷ cs) s)

  -- One call, or one turn of a loop.
  pub step : (Task A → CalcState → Result A) → Task A → CalcState → Result A
  step go atom s =
      if ltb 64 (suc s.depth)
      then some (d.nought, fail (record s { depth = suc s.depth }))
      else and_then
          (atom_at go (record s { cursor = skip_blanks s.cursor; depth = suc s.depth })
            (skip_blanks s.cursor))
          leave
  step go term s = and_then (go atom s) λ v t. go (term_loop v) t
  step go (term_loop v) s = term_at go v s (skip_blanks s.cursor)
  step go expr s = and_then (go term s) λ v t. go (expr_loop v) t
  step go (expr_loop v) s = expr_at go v s (skip_blanks s.cursor)

  pub run : ℕ → Task A → CalcState → Result A
  run zero task s = none
  run (suc fuel) task s = step (run fuel) task s

-- `runner_is_expr` with what it has seen so far.
pub is_expr_from : Bool → Bool → List ℕ → Bool
is_expr_from digit operator [] = digit && operator
is_expr_from digit operator (c ∷ cs) = elim (is_digit c) [
  | true ↦ is_expr_from true operator cs
  | false ↦ elim ((c == 43) || ((c == 45) || ((c == 42) || ((c == 47) || (c == 37))))) [
    | true ↦ is_expr_from digit true cs
    | false ↦ elim ((c == 40) || ((c == 41) || ((c == 46) || is_blank c))) [
      | true ↦ is_expr_from digit operator cs
      | false ↦ false
    ]
  ]
]

pub is_expr : List ℕ → Bool → Bool
is_expr text need_operator = is_expr_from false (not need_operator) text

-- `runner_calc` on the text behind the prefix, with `need_operator` outside the calculator mode;
-- `none` is 0. The fuel is enough for any text.
pub calc : {A : Type 0} → Double A → (A → Bool) → Bool → List ℕ → Option A
calc d isfinite need_operator text =
    if not (is_expr text need_operator)
    then none
    else elim (run d (5 * length text + 5) expr
        (record { cursor = text; depth = 0; failed = false })) [
          | none ↦ none
          | some (v, t) ↦
              if t.failed || (not (is_empty (skip_blanks t.cursor)) || not (isfinite v))
              then none
              else some v
        ]
