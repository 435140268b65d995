-- ===== src/Match/Tests.antt =====
-- The theorems on matching at concrete lines.
use g0wm.Common.{ℕ, suc, zero, true, List, [], ◌∷◌}
use g0wm.Match.{choose}
use g0wm.Match.Prefix.{IsBest, choose-IsBest}

-- "Firefox" and "fox".
abbrev firefox : List ℕ
firefox = 70 ∷ 105 ∷ 114 ∷ 101 ∷ 102 ∷ 111 ∷ 120 ∷ []

abbrev fox : List ℕ
fox = 102 ∷ 111 ∷ 120 ∷ []

-- The prefix "!" of mode 1 and "!!" of mode 2.
abbrev prefixes : ℕ → List ℕ
prefixes (suc zero) = 33 ∷ []
prefixes (suc (suc zero)) = 33 ∷ 33 ∷ []
prefixes _ = []

abbrev all_modes : List ℕ
all_modes = 0 ∷ 1 ∷ 2 ∷ 3 ∷ 4 ∷ 5 ∷ 6 ∷ 7 ∷ []

choose-IsBest_example :
    IsBest prefixes
      (λ m. true)
      (33 ∷ 33 ∷ 108 ∷ [])
      all_modes
      0
      0
      (choose prefixes (λ m. true) (33 ∷ 33 ∷ 108 ∷ []) all_modes 0 0)
choose-IsBest_example = choose-IsBest prefixes (λ m. true) (33 ∷ 33 ∷ 108 ∷ []) all_modes 0 0
