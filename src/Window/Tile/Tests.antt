-- ===== src/Window/Tile/Tests.antt =====
-- src/window/layout.c: a master and two clients beside it.
use g0wm.Common.{◌/◌, refl, true, false, List, [], ◌∷◌, arith}
use g0wm.Window.Tile.{Tiled, layout_tile, area_of, gap_of}
use g0wm.Window.Tile.Columns.{column, Filled, layout_tile-Filled}

abbrev three_tiled : List Tiled
three_tiled =
    record { bw = 2; mapped = true; geom_height = 0 }
    ∷ record { bw = 2; mapped = true; geom_height = 7 }
    ∷ record { bw = 3; mapped = true; geom_height = 9 }
    ∷ []

layout_tile-Filled_example :
    Filled
      (area_of (λ w. w / 2) true true 10 1920 1080 1 3)
      (column true (layout_tile (λ w. w / 2) true true 10 1920 1080 1 three_tiled))
    × Filled
        (area_of (λ w. w / 2) true true 10 1920 1080 1 3)
        (column false (layout_tile (λ w. w / 2) true true 10 1920 1080 1 three_tiled))
unfolding gap_of
layout_tile-Filled_example =
    layout_tile-Filled (λ w. w / 2) true true 10 1920 1080 1 7 three_tiled (omega arith)
      (refl, omega arith, (refl, omega arith, (refl, omega arith, tt))) (omega arith)
