-- ===== src/Match/Score.antt =====
-- `runner_score` tells the candidates that match.
use g0wm.Common.{
  ℕ, suc, zero, ◌+◌, ◌-◌, ◌*◌, ◌≡◌, refl, ◌∙◌, inl, inr, Bool, true, false, not, Option, none, some,
  List, [], ◌∷◌, ◌==◌, if◌then◌else◌, length, arith, Bool-cases, bytes_eq, bytes_eq_sound,
}
use g0wm.Match.{fold_case, is_prefix, bonus, walk, score, max_one}

-- The query's bytes show up in the candidate in their order.
abbrev pub in_order : Bool → List ℕ → List ℕ → Bool
in_order fold candidate [] = true
in_order fold [] (q ∷ query) = false
in_order fold (c ∷ candidate) (q ∷ query) =
    in_order fold candidate (if fold_case c fold == fold_case q fold then query else q ∷ query)

abbrev pub is_some : Option ℕ → Bool
is_some none = false
is_some (some a) = true

in_order-hit :
    (fold : Bool) (c q : ℕ) (candidate query : List ℕ)
    → (fold_case c fold == fold_case q fold) ≡ true
    → in_order fold (c ∷ candidate) (q ∷ query) ≡ in_order fold candidate query
in_order-hit fold c q candidate query e = rw (in_order, e) refl

in_order-miss :
    (fold : Bool) (c q : ℕ) (candidate query : List ℕ)
    → (fold_case c fold == fold_case q fold) ≡ false
    → in_order fold (c ∷ candidate) (q ∷ query) ≡ in_order fold candidate (q ∷ query)
in_order-miss fold c q candidate query e = rw (in_order, e) refl

walk-in_order :
    (fold : Bool) (n points run index : ℕ) (previous : Option ℕ) (candidate query : List ℕ)
    → is_some (walk fold n points run index previous candidate query)
      ≡ in_order fold candidate query
unfolding walk
walk-in_order fold n points run index previous [] [] = refl
walk-in_order fold n points run index previous (c ∷ candidate) [] = refl
walk-in_order fold n points run index previous [] (q ∷ query) = refl
walk-in_order fold n points run index previous (c ∷ candidate) (q ∷ query) =
    elim (Bool-cases (fold_case c fold == fold_case q fold)) [
      | inl e ↦
          let points' = points + (1 + 3 * run) + bonus previous in
          let ih = walk-in_order fold n points' (suc run) (suc index) (some c) candidate query in
          rw (in_order-hit fold c q candidate query e, walk, e) ih
      | inr e ↦
          let ih = walk-in_order fold n points 0 (suc index) (some c) candidate (q ∷ query) in
          rw (in_order-miss fold c q candidate query e, walk, e) ih
    ]

in_order_refl : (fold : Bool) (xs : List ℕ) → in_order fold xs xs ≡ true
in_order_refl fold [] = refl
in_order_refl fold (x ∷ xs) = in_order-hit fold x x xs xs (ground arith) ∙ in_order_refl fold xs

is_prefix_refl : (xs : List ℕ) → is_prefix xs xs ≡ true
is_prefix_refl [] = refl
is_prefix_refl (x ∷ xs) = ground (arith, is_prefix_refl xs)

same :
    (fuzzy fold : Bool) (candidate query : List ℕ)
    → bytes_eq candidate query ≡ true
    → candidate ≡ query
    → (score fuzzy fold candidate query == 0)
      ≡ not (if fuzzy then in_order fold candidate query else is_prefix query candidate)
unfolding score
same true fold candidate query e eq =
    let found : in_order fold candidate query ≡ true = rw eq (in_order_refl fold query) in
    rw (e, found) refl
same false fold candidate query e eq =
    let found : is_prefix query candidate ≡ true = rw eq (is_prefix_refl query) in
    rw (e, found) refl

max_one-ne : (n : ℕ) → (max_one n == 0) ≡ false
max_one-ne zero = refl
max_one-ne (suc n) = ground arith

other :
    (fuzzy fold : Bool) (candidate query : List ℕ)
    → bytes_eq candidate query ≡ false
    → (score fuzzy fold candidate query == 0)
      ≡ not (if fuzzy then in_order fold candidate query else is_prefix query candidate)
unfolding score
other true fold candidate query e =
    let found = walk-in_order fold (length query) 0 0 0 none candidate query in
    rw (e, ← found) (go (walk fold (length query) 0 0 0 none candidate query))
  where
    go :
        (o : Option ℕ)
        → ((elim o as (λ _. ℕ) [
          | none ↦ 0
          | some points ↦ max_one (points * 8 - (length candidate - length query))
        ])
            == 0)
          ≡ not (is_some o)
    go none = refl
    go (some points) = max_one-ne (points * 8 - (length candidate - length query))
other false fold candidate query e = elim (Bool-cases (is_prefix query candidate)) [
  | inl k ↦ rw (e, k) refl
  | inr k ↦ rw (e, k) refl
]

-- `runner_score` is 0 exactly for the candidates that do not match: with `runner_fuzzy` those in
-- which the bytes of the query do not show up in order, up to case if it folds; without it those of
-- which the query is no prefix.
pub score-matches :
    (fuzzy fold : Bool) (candidate query : List ℕ)
    → (score fuzzy fold candidate query == 0)
      ≡ not (if fuzzy then in_order fold candidate query else is_prefix query candidate)
unfolding score
score-matches fuzzy fold candidate query = elim (Bool-cases (bytes_eq candidate query)) [
  | inl e ↦ same fuzzy fold candidate query e (bytes_eq_sound candidate query e)
  | inr e ↦ other fuzzy fold candidate query e
]
