-- ===== src/Bar.antt =====
-- src/desktop/bar/title.c: where the title bars stand; in the tabbed layout they share one row.
mod Row
mod Tests
use g0wm.Common.{ℕ, suc, ◌+◌, ◌-◌, ◌*◌, ◌/◌, Bool, true, false, List, [], ◌∷◌, ◌==◌, if◌then◌else◌}

-- The loop of `bar_place_title_bar` over the clients that are visible and tiled: the index and the
-- count of the tabs.
unfoldable pub count_tabs : List ℕ → ℕ → ℕ → ℕ → ℕ × ℕ
count_tabs [] client tab_index tab_count = (tab_index, tab_count)
count_tabs (other_client ∷ clients) client tab_index tab_count =
    count_tabs clients client (if other_client == client then tab_count else tab_index)
      (suc tab_count)

-- `titlex` and `titlew` of a client in a row of that width; without a group the whole of it.
unfoldable pub slice : ℕ → ℕ × ℕ → ℕ × ℕ
slice width (tab_index, tab_count) =
    if tab_count == 0
    then (0, width)
    else let slice_x = width * tab_index / tab_count in
      (slice_x, width * (tab_index + 1) / tab_count - slice_x)

unfoldable pub place_title_bar : Bool → ℕ → List ℕ → ℕ → ℕ × ℕ
place_title_bar tabbed width clients client =
    if tabbed then slice width (count_tabs clients client 0 0) else (0, width)
