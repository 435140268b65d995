-- ===== src/Search/Bounds/Tests.antt =====
-- The theorem on search addresses at a concrete query.
use g0wm.Common.{ℕ, ◌<◌, ◌≡◌, true, List, [], ◌∷◌, length, arith}
use g0wm.Search.{search_address, encode}
use g0wm.Search.Bounds.{all_safe, search_address-fits}

-- "q=%s&l" and "a b".
abbrev an_address : List ℕ
an_address = 113 ∷ 61 ∷ 37 ∷ 115 ∷ 38 ∷ 108 ∷ []

abbrev a_query : List ℕ
a_query = 97 ∷ 32 ∷ 98 ∷ []

search_address-fits_example :
    (length (search_address an_address a_query) < 16) × (all_safe (encode a_query) ≡ true)
search_address-fits_example =
    search_address-fits an_address a_query (omega arith, (omega arith, (omega arith, tt)))
