-- ===== src/Calc/After.antt =====
-- src/desktop/runner/calc.c: what the parser may assume of the state after a call.
use g0wm.Common.{
  ℕ, suc, ◌+◌, ◌-◌, ◌*◌, ◌≤◌, ◌≡◌, refl, ap, inl, inr, Bool, true, false, some, List, [], ◌∷◌, ◌==◌,
  length, arith, Bool-cases,
}
use g0wm.Calc.{
  Double, CalcState, Task, atom, term, term_loop, expr, expr_loop, Result, skip_blanks, is_digit,
  number, and_then, integer, fraction,
}

-- How far a call goes into the recursion before it reads a byte.
abbrev pub rank : {A : Type 0} → Task A → ℕ
rank (term_loop v) = 1
rank (expr_loop v) = 1
rank atom = 2
rank term = 3
rank expr = 4

abbrev pub measure : {A : Type 0} → Task A → CalcState → ℕ
measure task s = 5 * length s.cursor + rank task

-- The state after a call on one with `n` bytes to read: no more bytes are left, and unless the
-- parser has failed it had not failed before and is at depth `depth` again.
pub record IsAfter (n depth : ℕ) (failed : Bool) (t : CalcState) : Type 0 where
  pub shorter : length t.cursor ≤ n
  pub level : t.failed ≡ false → t.depth ≡ depth
  pub sound : t.failed ≡ false → failed ≡ false

-- A result that is one.
abbrev pub Ends : {A : Type 0} → ℕ → ℕ → Bool → Result A → Type 0
Ends {A} n depth failed r = (v : A) × (t : CalcState) × (r ≡ some (v, t)) × IsAfter n depth failed t

pub length-skip_blanks : (cs : List ℕ) → length (skip_blanks cs) ≤ length cs
length-skip_blanks [] = omega arith
length-skip_blanks (c ∷ cs) = ground (arith, length-skip_blanks cs)

pub Ends-and_then :
    {A : Type 0} (n m depth : ℕ) (failed : Bool) (r : Result A) (f : A → CalcState → Result A)
    → Ends n depth failed r
    → ((v : A) (t : CalcState) → IsAfter n depth failed t → Ends m depth failed (f v t))
    → Ends m depth failed (and_then r f)
Ends-and_then n m depth failed r f (v, t, e, after) h = rw e (h v t after)

pub IsAfter-trans :
    (n m depth : ℕ) (failed : Bool) (s t : CalcState)
    → IsAfter n depth failed s
    → IsAfter (length s.cursor) s.depth s.failed t
    → n ≤ m
    → IsAfter m depth failed t
IsAfter-trans n m depth failed s t p q h = record {
  shorter = ground (arith, p.shorter, q.shorter);
  level = λ e. ground (arith, p.level, q.level e, q.sound e);
  sound = λ e. p.sound (q.sound e);
}

pub longer :
    (n depth : ℕ) (failed : Bool) (t : CalcState)
    → IsAfter n depth failed t
    → IsAfter (suc n) depth failed t
longer n depth failed t p =
    let shorter = p.shorter in record { shorter = omega arith; level = p.level; sound = p.sound }

pub length-cursor : (s : CalcState) (cs : List ℕ) → s.cursor ≡ cs → length s.cursor ≡ length cs
length-cursor s cs e = ap length e

module _ {A : Type 0} (d : Double A) where
  length-fraction :
      (v w : A) (b : Bool) (cs : List ℕ) → length ((fraction d v w b cs).2) ≤ length cs
  length-fraction v w b [] = omega arith
  length-fraction v w b (c ∷ cs) =
      let ih =
        length-fraction (d.plus v (d.times (d.of_digit (c - 48)) w)) (d.times w d.tenth) true cs in
      elim (Bool-cases (is_digit c)) [ inl e ↦ rw e (omega arith) | inr e ↦ rw e (omega arith) ]

  length-integer : (v : A) (b : Bool) (cs : List ℕ) → length ((integer d v b cs).2) ≤ length cs
  length-integer v b [] = omega arith
  length-integer v b (c ∷ cs) = elim (Bool-cases (is_digit c)) [
    | inl e ↦
        let ih = length-integer (d.plus (d.times v d.ten) (d.of_digit (c - 48))) true cs in
        rw e (omega arith)
    | inr e ↦ elim (Bool-cases (c == 46)) [
      | inl e' ↦ let le = length-fraction v d.tenth b cs in rw (e, e') (omega arith)
      | inr e' ↦ rw (e, e') (omega arith)
    ]
  ]

  pub number-IsAfter : (s : CalcState) → IsAfter (length s.cursor) s.depth s.failed (number d s).1
  unfolding number
  number-IsAfter s =
      let le = length-integer d.nought false s.cursor in
      elim (Bool-cases ((integer d d.nought false s.cursor).1)) [
        | inl e ↦ rw e record { shorter = le; level = λ _. refl; sound = λ h. h }
        | inr e ↦ rw e record { shorter = le; level = λ _. refl; sound = λ h. cc }
      ]
