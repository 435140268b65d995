-- ===== src/Match.antt =====
-- src/desktop/runner/match.c: which mode a line asks for and how well a candidate matches it.
pub mod Filter
pub mod Mode
pub mod Score
pub mod Prefix
mod Tests
use g0wm.Common.{
  ℕ, suc, zero, ◌+◌, ◌-◌, ◌*◌, Bool, true, false, not, ◌&&◌, ◌||◌, Option, none, some, List, [],
  ◌∷◌, ◌==◌, ltb, leb, if◌then◌else◌, length, bytes_eq,
}

-- `runner_fold`
unfoldable pub fold_case : ℕ → Bool → ℕ
fold_case character fold =
    if fold && (leb 65 character && leb character 90) then character - 65 + 97 else character

-- `strncmp(text, prefix, strlen(prefix)) == 0`
abbrev pub is_prefix : List ℕ → List ℕ → Bool
is_prefix [] text = true
is_prefix (p ∷ ps) [] = false
is_prefix (p ∷ ps) (c ∷ cs) = (p == c) && is_prefix ps cs

-- What a matching byte earns for its place: the start of the name or of a word.
abbrev pub bonus : Option ℕ → ℕ
bonus none = 8
bonus (some p) = if (p == 45) || ((p == 95) || ((p == 46) || (p == 32))) then 4 else 0

-- The loop of `runner_score`: `index` is `candidate_index`, `previous` the byte before it. `none`
-- where the query is not used up.
pub walk : Bool → ℕ → ℕ → ℕ → ℕ → Option ℕ → List ℕ → List ℕ → Option ℕ
walk fold query_length score run index previous candidate [] =
    some (if index == query_length then score + 20 else score)
walk fold query_length score run index previous [] (q ∷ query) = none
walk fold query_length score run index previous (c ∷ candidate) (q ∷ query) =
    elim (fold_case c fold == fold_case q fold) [
      | false ↦ walk fold query_length score 0 (suc index) (some c) candidate (q ∷ query)
      | true ↦
          walk fold query_length (score + (1 + 3 * run) + bonus previous) (suc run) (suc index)
            (some c) candidate query
    ]

abbrev pub max_one : ℕ → ℕ
max_one zero = 1
max_one (suc n) = suc n

-- `runner_score` with `runner_fuzzy` and `fold`. A query that is used up is not longer than the
-- candidate, and `MAX(…, 1)` is 1 for a negative number too.
pub score : Bool → Bool → List ℕ → List ℕ → ℕ
score fuzzy fold candidate query =
    if bytes_eq candidate query
    then 16777216
    else if not fuzzy
    then if is_prefix query candidate then 1 else 0
    else elim (walk fold (length query) 0 0 0 none candidate query) [
      | none ↦ 0
      | some points ↦ max_one (points * 8 - (length candidate - length query))
    ]

-- The loop of `runner_mode` over the modes that are left, by their numbers. A mode without a prefix
-- has the empty one.
pub choose : (ℕ → List ℕ) → (ℕ → Bool) → List ℕ → List ℕ → ℕ → ℕ → ℕ × ℕ
choose prefix mode_on text [] mode best_length = (mode, best_length)
choose prefix mode_on text (m ∷ modes) mode best_length =
    elim ((length (prefix m) == 0)
      || (leb (length (prefix m)) best_length
          || (not (is_prefix (prefix m) text) || not (mode_on m)))) [
            | true ↦ choose prefix mode_on text modes mode best_length
            | false ↦ choose prefix mode_on text modes m (length (prefix m))
          ]
