-- ===== src/Calc/Tests.antt =====
-- The calculator on a concrete expression, with the natural numbers for doubles.
use g0wm.Common.{ℕ, ◌+◌, ◌-◌, ◌*◌, ◌/◌, ◌%◌, ◌≡◌, false, List, [], ◌∷◌, some, ◌==◌, arith}
use g0wm.Calc.{Double, CalcState, expr, run}
use g0wm.Calc.After.{IsAfter}
use g0wm.Calc.Ends.{run-Ends}

abbrev natural : Double ℕ
natural = record {
  nought = 0;
  ten = 10;
  tenth = 0;
  of_digit = λ n. n;
  negate = λ v. 0 - v;
  plus = λ v w. v + w;
  minus = λ v w. v - w;
  times = λ v w. v * w;
  over = λ v w. v / w;
  fmod = λ v w. v % w;
  is_nought = λ v. v == 0;
}

-- "(1+2)*4"
abbrev product : List ℕ
product = 40 ∷ 49 ∷ 43 ∷ 50 ∷ 41 ∷ 42 ∷ 52 ∷ []

abbrev start : CalcState
start = record { cursor = product; depth = 0; failed = false }

run-Ends_example :
    (v : ℕ) × (t : CalcState) × (run natural 40 expr start ≡ some (v, t)) × IsAfter 7 0 false t
run-Ends_example = run-Ends natural 40 expr start (omega arith)
