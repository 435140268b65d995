-- ===== src/Calc/Ends.antt =====
-- src/desktop/runner/calc.c: the parser ends, within its fuel, and keeps its depth.
use g0wm.Common.{
  ℕ, suc, zero, ◌+◌, ◌-◌, ◌*◌, ◌≤◌, ◌<◌, ◌≡◌, refl, inl, inr, Bool, some, List, [], ◌∷◌, ◌==◌, ltb,
  length, arith, Bool-cases,
}
use g0wm.Calc.{
  Double, CalcState, Task, atom, term, term_loop, expr, expr_loop, Result, skip_blanks, at, fail,
  close, number, atom_at, term_at, expr_at, step, run, and_then, leave, divide,
}
use g0wm.Calc.After.{
  measure, IsAfter, Ends, length-skip_blanks, Ends-and_then, IsAfter-trans, longer, length-cursor,
  number-IsAfter,
}

module _ {A : Type 0} (d : Double A) where
  -- With recursive calls that end where less than `bound` is left.
  module _ (go : Task A → CalcState → Result A) (bound : ℕ)
      (ends : (task : Task A) (s : CalcState)
        → measure task s < bound
        → Ends (length s.cursor) s.depth s.failed (go task s)) where
    -- A call behind a byte that has been read.
    call :
        (task : Task A) (s : CalcState) (cs : List ℕ) (n : ℕ)
        → measure task (at cs s) < bound
        → length cs ≤ n
        → Ends n s.depth s.failed (go task (at cs s))
    call task s cs n h le =
        let (v, t, e, after) = ends task (at cs s) h in
        (
          v,
          t,
          e,
          record {
            shorter = ground (arith, after.shorter);
            level = after.level;
            sound = after.sound;
          },
        )

    -- A further call in the state after one.
    further :
        (n depth : ℕ) (failed : Bool) (task : Task A) (s : CalcState)
        → IsAfter n depth failed s
        → measure task s < bound
        → Ends n depth failed (go task s)
    further n depth failed task s p h =
        let (v, t, e, after) = ends task s h in
        (v, t, e, IsAfter-trans n n depth failed s t p after (omega arith))

    close-IsAfter :
        (n depth : ℕ) (failed : Bool) (t : CalcState) (cs : List ℕ)
        → IsAfter n depth failed t
        → length cs ≤ n
        → IsAfter n depth failed (close t cs)
    close-IsAfter n depth failed t [] p h = record { shorter = h; level = λ e. cc; sound = λ e. cc }
    close-IsAfter n depth failed t (c ∷ cs) p h = elim (Bool-cases (c == 41)) [
      | inl e ↦ rw e record { shorter = omega arith; level = p.level; sound = p.sound }
      | inr e ↦ rw e record { shorter = h; level = λ k. cc; sound = λ k. cc }
    ]

    atom_at-Ends :
        (s : CalcState) (cs : List ℕ)
        → s.cursor ≡ cs
        → 5 * length cs + 2 ≤ bound
        → Ends (length cs) s.depth s.failed (atom_at d go s cs)
    unfolding atom_at
    atom_at-Ends s [] e h =
        ((number d s).0, (number d s).1, refl, rw (← length-cursor s [] e) (number-IsAfter d s))
    atom_at-Ends s (c ∷ cs) e h = elim (Bool-cases (c == 45)) [
      | inl k ↦ rw k (
          Ends-and_then n n s.depth s.failed (go atom (at cs s)) _
            (call atom s cs n (omega arith) (omega arith)) (λ v t p. (d.negate v, t, refl, p)))
      | inr k ↦ elim (Bool-cases (c == 43)) [
        | inl k' ↦ rw (k, k') (call atom s cs n (omega arith) (omega arith))
        | inr k' ↦ elim (Bool-cases (c == 40)) [
          | inl k'' ↦
              rw (k, k', k'')
                (Ends-and_then n n s.depth s.failed (go expr (at cs s)) _
                  (call expr s cs n (omega arith) (omega arith))
                  (λ v t p.
                    let le = length-skip_blanks t.cursor in
                    let shorter = p.shorter in
                    (
                      v,
                      close t (skip_blanks t.cursor),
                      refl,
                      close-IsAfter n s.depth s.failed t (skip_blanks t.cursor) p (omega arith),
                    )))
          | inr k'' ↦
              rw (k, k', k'')
                (
                  (number d s).0,
                  (number d s).1,
                  refl,
                  rw (← length-cursor s (c ∷ cs) e) (number-IsAfter d s),
                )
        ]
      ]
    ]
      where
        n : ℕ
        n = suc (length cs)

    -- Where a loop of `runner_calc_term` or `runner_calc_expr` ends.
    stop :
        (v : A) (s : CalcState) (cs : List ℕ)
        → Ends (length cs) s.depth s.failed (some (v, at cs s))
    stop v s cs =
        (v, at cs s, refl, record { shorter = omega arith; level = λ _. refl; sound = λ h. h })

    divide-Ends :
        (n depth : ℕ) (failed : Bool) (op : A → A → A) (v w : A) (t : CalcState)
        → IsAfter n depth failed t
        → 5 * n + 1 < bound
        → Ends n depth failed (divide d go op v w t)
    divide-Ends n depth failed op v w t p h = elim (Bool-cases (d.is_nought w)) [
      | inl k ↦
          rw k (
            d.nought,
            fail t,
            refl,
            record { shorter = p.shorter; level = λ e. cc; sound = λ e. cc },
          )
      | inr k ↦
          let shorter = p.shorter in
          rw k (further n depth failed (term_loop (op v w)) t p (omega arith))
    ]

    term_at-Ends :
        (v : A) (s : CalcState) (cs : List ℕ)
        → 5 * length cs + 1 ≤ bound
        → Ends (length cs) s.depth s.failed (term_at d go v s cs)
    unfolding term_at
    term_at-Ends v s [] h = stop v s []
    term_at-Ends v s (c ∷ cs) h = elim (Bool-cases (c == 42)) [
      | inl k ↦ rw k (
          operand _ (λ w t p.
            let shorter = p.shorter in
            further m s.depth s.failed (term_loop (d.times v w)) t p (omega arith)))
      | inr k ↦ elim (Bool-cases (c == 47)) [
        | inl k' ↦
            rw (k, k')
              (operand _ (λ w t p. divide-Ends m s.depth s.failed d.over v w t p (omega arith)))
        | inr k' ↦ elim (Bool-cases (c == 37)) [
          | inl k'' ↦
              rw (k, k', k'')
                (operand _ (λ w t p. divide-Ends m s.depth s.failed d.fmod v w t p (omega arith)))
          | inr k'' ↦ rw (k, k', k'') (stop v s (c ∷ cs))
        ]
      ]
    ]
      where
        m : ℕ
        m = length cs

        operand :
            (f : A → CalcState → Result A)
            → ((w : A) (t : CalcState)
                → IsAfter m s.depth s.failed t
                → Ends m s.depth s.failed (f w t))
            → Ends (suc m) s.depth s.failed (and_then (go atom (at cs s)) f)
        operand f k =
            let (v, t, e, after) =
              Ends-and_then m m s.depth s.failed (go atom (at cs s)) f
                (call atom s cs m (omega arith) (omega arith)) k in
            (v, t, e, longer m s.depth s.failed t after)

    expr_at-Ends :
        (v : A) (s : CalcState) (cs : List ℕ)
        → 5 * length cs + 1 ≤ bound
        → Ends (length cs) s.depth s.failed (expr_at d go v s cs)
    unfolding expr_at
    expr_at-Ends v s [] h = stop v s []
    expr_at-Ends v s (c ∷ cs) h = elim (Bool-cases (c == 43)) [
      | inl k ↦ rw k (operand d.plus)
      | inr k ↦ elim (Bool-cases (c == 45)) [
        | inl k' ↦ rw (k, k') (operand d.minus)
        | inr k' ↦ rw (k, k') (stop v s (c ∷ cs))
      ]
    ]
      where
        m : ℕ
        m = length cs

        operand :
            (op : A → A → A)
            → Ends
                (suc m)
                s.depth
                s.failed
                (and_then (go term (at cs s)) (λ w t. go (expr_loop (op v w)) t))
        operand op =
            let (v, t, e, after) =
              Ends-and_then m m s.depth s.failed (go term (at cs s))
                (λ w t. go (expr_loop (op v w)) t) (call term s cs m (omega arith) (omega arith))
                (λ w t p.
                  let shorter = p.shorter in
                  further m s.depth s.failed (expr_loop (op v w)) t p (omega arith)) in
            (v, t, e, longer m s.depth s.failed t after)

    weaken :
        (n m depth : ℕ) (failed : Bool) (r : Result A)
        → n ≤ m
        → Ends n depth failed r
        → Ends m depth failed r
    weaken n m depth failed r h (v, t, e, p) =
        let shorter = p.shorter in
        (v, t, e, record { shorter = omega arith; level = p.level; sound = p.sound })

    leave-Ends :
        (n depth : ℕ) (failed : Bool) (r : Result A)
        → Ends n (suc depth) failed r
        → Ends n depth failed (and_then r (leave d))
    leave-Ends n depth failed r (v, t, e, p) = rw e (
      v,
      record t { depth = t.depth - 1 },
      refl,
      record { shorter = p.shorter; level = λ k. ground (arith, p.level k); sound = p.sound },
    )

    step-Ends :
        (task : Task A) (s : CalcState)
        → measure task s ≤ bound
        → Ends (length s.cursor) s.depth s.failed (step d go task s)
    unfolding step
    step-Ends atom s h = elim (Bool-cases (ltb 64 (suc s.depth))) [
      | inl k ↦ rw k (
        d.nought,
        fail (record s { depth = suc s.depth }),
        refl,
        record { shorter = omega arith; level = λ e. cc; sound = λ e. cc },
      )
      | inr k ↦
          let le = length-skip_blanks s.cursor in
          let cs = skip_blanks s.cursor in
          let inner : CalcState = record s { cursor = cs; depth = suc s.depth } in
          rw k (
            leave-Ends (length s.cursor) s.depth s.failed (atom_at d go inner cs) (
              weaken (length cs) (length s.cursor) (suc s.depth) s.failed _ le
                (atom_at-Ends inner cs refl (omega arith))))
    ]
    step-Ends term s h =
        Ends-and_then (length s.cursor) (length s.cursor) s.depth s.failed (go atom s) _
          (ends atom s (omega arith))
          (λ v t p.
            let shorter = p.shorter in
            further (length s.cursor) s.depth s.failed (term_loop v) t p (omega arith))
    step-Ends (term_loop v) s h =
        let le = length-skip_blanks s.cursor in
        let cs = skip_blanks s.cursor in
        weaken (length cs) (length s.cursor) s.depth s.failed _ le
          (term_at-Ends v s cs (omega arith))
    step-Ends expr s h =
        Ends-and_then (length s.cursor) (length s.cursor) s.depth s.failed (go term s) _
          (ends term s (omega arith))
          (λ v t p.
            let shorter = p.shorter in
            further (length s.cursor) s.depth s.failed (expr_loop v) t p (omega arith))
    step-Ends (expr_loop v) s h =
        let le = length-skip_blanks s.cursor in
        let cs = skip_blanks s.cursor in
        weaken (length cs) (length s.cursor) s.depth s.failed _ le
          (expr_at-Ends v s cs (omega arith))

-- The parser ends: with more fuel than five for every byte left and the rank of the call there is a
-- result; no bytes are given back, and unless the parser has failed it is at the depth it was at and
-- had not failed before.
pub run-Ends :
    {A : Type 0} (d : Double A) (fuel : ℕ) (task : Task A) (s : CalcState)
    → measure task s < fuel
    → (v : A) × (t : CalcState) × (run d fuel task s ≡ some (v, t))
      × IsAfter (length s.cursor) s.depth s.failed t
unfolding run
run-Ends d zero task s h = ground arith
run-Ends d (suc fuel) task s h =
    step-Ends d (run d fuel) fuel (λ t r k. run-Ends d fuel t r k) task s (omega arith)
