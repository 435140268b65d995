-- ===== src/Match/Filter/Exact.antt =====
-- src/desktop/runner/match.c: proofs on a candidate that is the query.
use g0wm.Common.{
  ℕ, suc, zero, ◌+◌, ◌-◌, ◌*◌, ◌≤◌, ◌<◌, ◌≡◌, refl, sym, ◌∙◌, inl, inr, Bool, true, false, ◌||◌,
  Option, none, some, [], ◌∷◌, ◌==◌, length, Bytes, bytes_eq, arith, Bool-cases, Option-cases,
}
use g0wm.Match.{walk, score, fold_case, bonus, max_one}
use g0wm.Match.Filter.{best_score, use_points, by_score}

bonus-le : (previous : Option ℕ) → bonus previous ≤ 8
bonus-le none = omega arith
bonus-le (some p) = ground arith

max_one-le : (n k : ℕ) → 0 < k → n ≤ k → max_one n ≤ k
max_one-le zero k h l = h
max_one-le (suc n) k h l = l

module _ (fold : Bool) (n points run index : ℕ) (previous : Option ℕ) where
  -- The end of the query, and a step of the walk.
  walk-end :
      (candidate : Bytes) (p : ℕ)
      → walk fold n points run index previous candidate [] ≡ some p
      → p ≤ points + 20
  unfolding walk
  walk-end [] p e = ground (arith, e)
  walk-end (c ∷ candidate) p e = ground (arith, e)

  walk-hit :
      (c q : ℕ) (candidate query : Bytes)
      → (fold_case c fold == fold_case q fold) ≡ true
      → walk fold n points run index previous (c ∷ candidate) (q ∷ query)
        ≡ walk fold n
            (points + (1 + 3 * run) + bonus previous)
            (suc run)
            (suc index)
            (some c)
            candidate
            query
  unfolding walk
  walk-hit c q candidate query k = rw (walk, k) refl

  walk-miss :
      (c q : ℕ) (candidate query : Bytes)
      → (fold_case c fold == fold_case q fold) ≡ false
      → walk fold n points run index previous (c ∷ candidate) (q ∷ query)
        ≡ walk fold n points 0 (suc index) (some c) candidate (q ∷ query)
  unfolding walk
  walk-miss c q candidate query k = rw (walk, k) refl

walk-le :
    (fold : Bool) (n points run index : ℕ) (previous : Option ℕ) (candidate query : Bytes) (p : ℕ)
    → run + length query ≤ 255
    → walk fold n points run index previous candidate query ≡ some p
    → p ≤ points + 774 * length query + 20
unfolding walk
walk-le fold n points run index previous [] [] p h e =
    omega (arith, walk-end fold n points run index previous [] p e)
walk-le fold n points run index previous (c ∷ candidate) [] p h e =
    omega (arith, walk-end fold n points run index previous (c ∷ candidate) p e)
walk-le fold n points run index previous [] (q ∷ query) p h e = cc e
walk-le fold n points run index previous (c ∷ candidate) (q ∷ query) p h e =
    let extra = bonus-le previous in
    elim (Bool-cases (fold_case c fold == fold_case q fold)) [
      | inl k ↦
          let next = points + (1 + 3 * run) + bonus previous in
          let further = sym (walk-hit fold n points run index previous c q candidate query k) ∙ e in
          let ih =
            walk-le fold n next (suc run) (suc index) (some c) candidate query p (omega arith)
              further in
          omega arith
      | inr k ↦
          walk-le fold n points 0 (suc index) (some c) candidate (q ∷ query) p (omega arith)
            (sym (walk-miss fold n points run index previous c q candidate query k) ∙ e)
    ]

-- A name that is not the query.
score-le :
    (fuzzy fold : Bool) (candidate query : Bytes)
    → length query ≤ 255
    → bytes_eq candidate query ≡ false
    → score fuzzy fold candidate query ≤ 1579120
unfolding score
score-le false fold candidate query h e = ground (arith, e)
score-le true fold candidate query h e =
    elim (Option-cases (walk fold (length query) 0 0 0 none candidate query)) [
      | inl w ↦ rw (e, w) (omega arith)
      | inr (p, w) ↦
          let le = walk-le fold (length query) 0 0 0 none candidate query p (omega arith) w in
          rw (e, w)
            (max_one-le (p * 8 - (length candidate - length query)) 1579120 (omega arith)
              (omega arith))
    ]

-- The name or the other name is the query.
abbrev pub is_exact : Option Bytes → Bytes → Bytes → Bool
is_exact none name query = bytes_eq name query
is_exact (some alt) name query = bytes_eq name query || bytes_eq alt query

best_score-exact :
    (fuzzy fold : Bool) (alt : Option Bytes) (name query : Bytes)
    → is_exact alt name query ≡ true
    → 16777216 ≤ best_score fuzzy fold alt name query
unfolding best_score score
best_score-exact fuzzy fold none name query h = rw h (omega arith)
best_score-exact fuzzy fold (some alt) name query h = elim (Bool-cases (bytes_eq name query)) [
  | inl e ↦ rw e (ground arith)
  | inr e ↦ let f : bytes_eq alt query ≡ true = ground (arith, h, e) in rw f (ground arith)
]

best_score-other :
    (fuzzy fold : Bool) (alt : Option Bytes) (name query : Bytes)
    → length query ≤ 255
    → is_exact alt name query ≡ false
    → best_score fuzzy fold alt name query ≤ 1579120
unfolding best_score
best_score-other fuzzy fold none name query l h = score-le fuzzy fold name query l h
best_score-other fuzzy fold (some alt) name query l h =
    let a = score-le fuzzy fold name query l (ground (arith, h)) in
    let b = score-le fuzzy fold alt query l (ground (arith, h)) in ground (arith, a, b)

use_points-le : (used : Option (ℕ → ℕ)) (i : ℕ) → use_points used i ≤ 1048576
use_points-le none i = omega arith
use_points-le (some used) i = ground arith

-- In the order of runner_by_score a candidate of which the name or the other name is the query stands
-- in front of one of which neither is, however often each of them was used; for queries that fit in
-- the prompt.
pub by_score-exact :
    (fuzzy fold : Bool) (used : Option (ℕ → ℕ)) (query : Bytes) (i j : ℕ)
    (alt other_alt : Option Bytes) (name other : Bytes)
    → length query ≤ 255
    → is_exact alt name query ≡ true
    → is_exact other_alt other query ≡ false
    → by_score
        (record {
          index = j;
          points = best_score fuzzy fold other_alt other query + use_points used j;
        })
        (record { index = i; points = best_score fuzzy fold alt name query + use_points used i })
      ≡ true
by_score-exact fuzzy fold used query i j alt other_alt name other l h k =
    let high = best_score-exact fuzzy fold alt name query h in
    let low = best_score-other fuzzy fold other_alt other query l k in
    let few = use_points-le used j in ground (arith, high, low, few)
