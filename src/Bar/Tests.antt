-- ===== src/Bar/Tests.antt =====
-- src/desktop/bar/title.c: three tabs in a row of 100.
use g0wm.Common.{ℕ, refl, true, List, [], ◌∷◌}
use g0wm.Bar.{place_title_bar}
use g0wm.Bar.Row.{FillsRow, bars_of, place_title_bar-FillsRow}

abbrev three_tabs : List ℕ
three_tabs = 8 ∷ 5 ∷ 9 ∷ []

place_title_bar-FillsRow_example :
    FillsRow 100 0 (bars_of (place_title_bar true 100 three_tabs) three_tabs)
place_title_bar-FillsRow_example =
    place_title_bar-FillsRow 100 8 (5 ∷ 9 ∷ []) (refl, (refl, (refl, tt)))
