-- ===== src/Match/Prefix.antt =====
-- `runner_mode` takes the longest prefix that fits.
use mathlib.Core.Path.{subst}
use g0wm.Common.{
  ℕ, ◌≤◌, ◌≡◌, refl, sym, ◌⊎◌, inl, inr, Bool, true, false, not, ◌||◌, List, [], ◌∷◌, ◌==◌, leb,
  length, arith, Bool-cases,
}
use g0wm.Match.{is_prefix, choose}

module _ (prefix : ℕ → List ℕ) (mode_on : ℕ → Bool) (text : List ℕ) where
  -- A mode that is on and whose prefix the line starts with.
  abbrev pub Fits : ℕ → Type 0
  Fits m =
      ((length (prefix m) == 0) ≡ false) × (is_prefix (prefix m) text ≡ true) × (mode_on m ≡ true)

  -- The modes of the list whose prefix fits have none longer than `n`.
  abbrev pub NoneLonger : ℕ → List ℕ → Type 0
  NoneLonger n [] = Unit {0}
  NoneLonger n (m ∷ modes) = (Fits m → length (prefix m) ≤ n) × NoneLonger n modes

  -- With a mode chosen so far, or none with `best` 0: what comes out is no shorter, none of the
  -- list is longer, and it is the same choice or a mode that fits with its own length.
  abbrev pub IsBest : List ℕ → ℕ → ℕ → ℕ × ℕ → Type 0
  IsBest modes mode best r =
      (best ≤ r.1)
      × NoneLonger r.1 modes
      × (((r.0 ≡ mode) × (r.1 ≡ best)) ⊎ (Fits r.0 × (r.1 ≡ length (prefix r.0))))

  abbrev passed : ℕ → ℕ → Bool
  passed m best =
      (length (prefix m) == 0)
      || (leb (length (prefix m)) best || (not (is_prefix (prefix m) text) || not (mode_on m)))

  choose-pass :
      (m mode best : ℕ) (modes : List ℕ)
      → passed m best ≡ true
      → choose prefix mode_on text (m ∷ modes) mode best
        ≡ choose prefix mode_on text modes mode best
  unfolding choose
  choose-pass m mode best modes e = rw (choose, e) refl

  choose-take :
      (m mode best : ℕ) (modes : List ℕ)
      → passed m best ≡ false
      → choose prefix mode_on text (m ∷ modes) mode best
        ≡ choose prefix mode_on text modes m (length (prefix m))
  unfolding choose
  choose-take m mode best modes e = rw (choose, e) refl

  passed-Fits : (m best : ℕ) → passed m best ≡ true → Fits m → length (prefix m) ≤ best
  passed-Fits m best e (ne, found, on) = ground arith

  not_passed : (m best : ℕ) → passed m best ≡ false → Fits m × (best ≤ length (prefix m))
  not_passed m best e = ground arith

  -- Whichever the modes are, `runner_mode` ends with a mode whose prefix is on and fits and is at
  -- least as long as every other that does, or with the mode it started with.
  pub choose-IsBest :
      (modes : List ℕ) (mode best : ℕ)
      → IsBest modes mode best (choose prefix mode_on text modes mode best)
  unfolding choose
  choose-IsBest [] mode best = (omega arith, tt, inl (refl, refl))
  choose-IsBest (m ∷ modes) mode best = elim (Bool-cases (passed m best)) [
    | inl e ↦
        let (le, none_longer, which) = choose-IsBest modes mode best in
        subst (IsBest (m ∷ modes) mode best) (sym (choose-pass m mode best modes e))
          (le, (λ f. let le' = passed-Fits m best e f in omega arith, none_longer), which)
    | inr e ↦
        let (le, none_longer, which) = choose-IsBest modes m (length (prefix m)) in
        let (fits, le') = not_passed m best e in
        subst (IsBest (m ∷ modes) mode best) (sym (choose-take m mode best modes e)) (
          omega arith,
          (λ f. le, none_longer),
          inr (taken m (choose prefix mode_on text modes m (length (prefix m))) fits which),
        )
  ]
    where
      taken :
          (m : ℕ) (r : ℕ × ℕ)
          → Fits m
          → ((r.0 ≡ m) × (r.1 ≡ length (prefix m))) ⊎ (Fits r.0 × (r.1 ≡ length (prefix r.0)))
          → Fits r.0 × (r.1 ≡ length (prefix r.0))
      taken m r fits (inl (e, e')) = rw e (fits, e')
      taken m r fits (inr p) = p
