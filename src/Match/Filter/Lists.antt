-- ===== src/Match/Filter/Lists.antt =====
-- src/desktop/runner/match.c: proofs on which candidates a line lists.
use mathlib.Core.Path.{subst}
use mathlib.Core.Option.{some-injective}
use mathlib.Core.List.{Memᴰ}
use mathlib.Core.List.Memᴰ.{head, tail, cases_cons, not-nil}
use mathlib.Core.Logic.{◌↔◌}
use g0wm.Common.{
  ℕ, suc, zero, ◌+◌, ◌≡◌, refl, sym, ap, ◌∙◌, inl, inr, Bool, true, false, not, ◌||◌, Option, none,
  some, List, [], ◌∷◌, ◌==◌, if◌then◌else◌, get_elem?, Bytes, is_empty, arith, Bool-cases,
}
use g0wm.Match.{score, is_prefix}
use g0wm.Match.Score.{in_order, score-matches}
use g0wm.Match.Filter.{
  Mode, Offered, Source, set_source, Match, max, best_score, use_points, matches_from, indices,
  has_upper, filter,
}

-- A name that the query matches.
abbrev pub name_matches : Bool → Bool → Bytes → Bytes → Bool
name_matches fuzzy fold name query =
    if fuzzy then in_order fold name query else is_prefix query name

-- The name or the other name of a candidate.
abbrev pub either_matches : Bool → Bool → Option Bytes → Bytes → Bytes → Bool
either_matches fuzzy fold none name query = name_matches fuzzy fold name query
either_matches fuzzy fold (some alt) name query =
    name_matches fuzzy fold name query || name_matches fuzzy fold alt query

max-zero : (a b : ℕ) → (max a b == 0) ≡ not (not (a == 0) || not (b == 0))
max-zero a b = ground arith

best_score-matches :
    (fuzzy fold : Bool) (alt : Option Bytes) (name query : Bytes)
    → (best_score fuzzy fold alt name query == 0) ≡ not (either_matches fuzzy fold alt name query)
unfolding best_score
best_score-matches fuzzy fold none name query = score-matches fuzzy fold name query
best_score-matches fuzzy fold (some alt) name query =
    max-zero (score fuzzy fold name query) (score fuzzy fold alt query)
    ∙ rw (score-matches fuzzy fold name query, score-matches fuzzy fold alt query) (ground arith)

-- The candidate at the index `j`, the `k`th of the names, matches.
abbrev IsMatch : Bool → Bool → Source → Bytes → List Bytes → ℕ → ℕ → Type 0
IsMatch fuzzy fold src query names k j =
    (name : Bytes) × (get_elem? names k ≡ some name)
    × (either_matches fuzzy fold (src.alt j) name query ≡ true)

module _ (fuzzy fold : Bool) (src : Source) (query : Bytes) where
  this_match : ℕ → Bytes → Match
  this_match i name = record {
    index = i;
    points = best_score fuzzy fold (src.alt i) name query + use_points src.used i;
  }

  matches_from-hit :
      (i : ℕ) (name : Bytes) (names : List Bytes)
      → (best_score fuzzy fold (src.alt i) name query == 0) ≡ false
      → matches_from fuzzy fold src query i (name ∷ names)
        ≡ this_match i name ∷ matches_from fuzzy fold src query (suc i) names
  unfolding matches_from this_match
  matches_from-hit i name names e = rw e refl

  matches_from_sound :
      (i : ℕ) (names : List Bytes) (m : Match)
      → Memᴰ m (matches_from fuzzy fold src query i names)
      → (k : ℕ) × (m.index ≡ i + k) × IsMatch fuzzy fold src query names k m.index
  unfolding matches_from this_match
  matches_from_sound i [] m there = absurd (not-nil there)
  matches_from_sound i (name ∷ names) m there =
      let later : Memᴰ m (matches_from fuzzy fold src query (suc i) names)
          → (k : ℕ) × (m.index ≡ i + k) × IsMatch fuzzy fold src query (name ∷ names) k m.index =
        λ n.
          let (k, index, found) = matches_from_sound (suc i) names m n in
          (suc k, index ∙ omega arith, found) in
      elim (Bool-cases (best_score fuzzy fold (src.alt i) name query == 0)) [
        | inl e ↦ later (subst (Memᴰ m) (rw (matches_from, e) refl) there)
        | inr e ↦ elim (cases_cons (subst (Memᴰ m) (matches_from-hit i name names e) there)) [
          | inl same ↦
              let fits = best_score-matches fuzzy fold (src.alt i) name query in
              let index : m.index ≡ i = ap Match.index same in
              (0, omega arith, (name, refl, rw index (ground (arith, e, fits))))
          | inr n ↦ later n
        ]
      ]

  matches_from_complete :
      (i k j : ℕ) (names : List Bytes)
      → j ≡ i + k
      → IsMatch fuzzy fold src query names k j
      → (m : Match) × Memᴰ m (matches_from fuzzy fold src query i names) × (m.index ≡ j)
  unfolding matches_from this_match
  matches_from_complete i k j [] at (found, there, fits) = cc there
  matches_from_complete i zero j (name ∷ names) at (found, there, fits) =
      let same : name ≡ found = some-injective name found there in
      let place : j ≡ i = omega arith in
      let scored = best_score-matches fuzzy fold (src.alt i) name query in
      let here : either_matches fuzzy fold (src.alt i) name query ≡ true =
        rw (same, ← place) fits in
      let hit : (best_score fuzzy fold (src.alt i) name query == 0) ≡ false =
        scored ∙ ap not here in
      rw (matches_from-hit i name names hit) (this_match i name, head refl, sym place)
  matches_from_complete i (suc k) j (name ∷ names) at (found, there, fits) =
      let (m, listed, index) =
        matches_from_complete (suc i) k j names (omega arith) (found, there, fits) in
      elim (Bool-cases (best_score fuzzy fold (src.alt i) name query == 0)) [
        | inl e ↦ rw (matches_from, e) (m, listed, index)
        | inr e ↦ rw (matches_from, e) (m, tail listed, index)
      ]

Memᴰ-indices : (m : Match) (ms : List Match) → Memᴰ m ms → Memᴰ m.index (indices ms)
Memᴰ-indices m [] there = absurd (not-nil there)
Memᴰ-indices m (n ∷ ms) there = elim (cases_cons there) [
  | inl same ↦ head (ap Match.index same)
  | inr later ↦ tail (Memᴰ-indices m ms later)
]

indices-Memᴰ :
    (i : ℕ) (ms : List Match) → Memᴰ i (indices ms) → (m : Match) × Memᴰ m ms × (m.index ≡ i)
indices-Memᴰ i [] there = absurd (not-nil there)
indices-Memᴰ i (n ∷ ms) there = elim (cases_cons there) [
  | inl same ↦ (n, head refl, sym same)
  | inr later ↦ let (m, listed, index) = indices-Memᴰ i ms later in (m, tail listed, index)
]

-- The same matches, in any order.
abbrev pub SameMatches : List Match → List Match → Type 0
SameMatches xs ys = (m : Match) → (Memᴰ m xs → Memᴰ m ys) × (Memᴰ m ys → Memᴰ m xs)

-- The candidate at `i` of a mode matches the query.
abbrev pub IsCandidate : Bool → Bool → Source → Bytes → ℕ → Type 0
IsCandidate fuzzy fold src query i =
    (name : Bytes) × (get_elem? src.names i ≡ some name)
    × (either_matches fuzzy fold (src.alt i) name query ≡ true)

-- A line that is no sum and has a query lists exactly the candidates of its mode of which the name or
-- the other name matches the query: with runner_fuzzy if the bytes of the query show up in it in order,
-- up to case without an uppercase letter in the query; without it if the query is a prefix. The sort
-- keeps the members.
pub filter-lists :
    (sort : List Match → List Match) (fuzzy : Bool) (o : Offered) (mode : Mode) (query : Bytes)
    (i : ℕ)
    → ((ms : List Match) → SameMatches ms (sort ms))
    → is_empty query ≡ false
    → Memᴰ i (filter sort fuzzy o false mode query)
      ↔ IsCandidate fuzzy (not (has_upper query)) (set_source o mode) query i
unfolding filter
filter-lists sort fuzzy o mode query i same given =
    let fold = not (has_upper query) in
    let src = set_source o mode in
    let found = matches_from fuzzy fold src query 0 src.names in
    rw given (
      λ there.
          let (m, listed, index) = indices-Memᴰ i (sort found) there in
          let (k, place, (name, at_k, fits)) =
            matches_from_sound fuzzy fold src query 0 src.names m ((same found m).1 listed) in
          let here : k ≡ i = omega arith in
          (
            name,
            subst (λ j. get_elem? src.names j ≡ some name) here at_k,
            subst (λ j. either_matches fuzzy fold (src.alt j) name query ≡ true) index fits,
          ),
      λ candidate.
          let (m, listed, index) =
            matches_from_complete fuzzy fold src query 0 i i src.names (omega arith) candidate in
          subst (λ j. Memᴰ j (indices (sort found))) index
            (Memᴰ-indices m (sort found) ((same found m).0 listed)),
    )
