-- ===== src/Window/Tile.antt =====
-- src/window/layout.c: `layout_tile`. A box is relative to the window area of the monitor, `w.x` and
-- `w.y`; the clients are those that are visible and tiled, in their order.
pub mod Room
pub mod Columns
mod Tests
use g0wm.Common.{
  ℕ, zero, suc, ◌+◌, ◌-◌, ◌*◌, ◌/◌, ◌%◌, Bool, true, false, List, [], ◌∷◌, ◌==◌, ltb, length,
  if◌then◌else◌,
}

-- `struct wlr_box`; a width is an unsigned value of 32 bits when the code computes it so.
pub record Box : Type 0 where
  pub x : ℕ
  pub y : ℕ
  pub width : ℕ
  pub height : ℕ

-- The fields of a client that say how high it gets.
pub record Tiled : Type 0 where
  pub bw : ℕ
  pub mapped : Bool
  pub geom_height : ℕ

-- The monitor's window area, its `nmaster`, `gap_size * gaps_enabled` and `master_width`.
pub record Area : Type 0 where
  pub width : ℕ
  pub height : ℕ
  pub nmaster : ℕ
  pub gap : ℕ
  pub master_width : ℕ

abbrev pub greater : ℕ → ℕ → ℕ
greater a b = if ltb b a then a else b

abbrev pub lesser : ℕ → ℕ → ℕ
lesser a b = if ltb a b then a else b

-- The height of a client after `client_resize`, with its least height from `client_apply_bounds`.
unfoldable pub resized : Tiled → ℕ → ℕ
resized client height =
    if client.mapped then greater (1 + 2 * client.bw) height else client.geom_height

-- The height that is asked for, with 1 for what is negative or 0.
unfoldable pub tile_height : Area → ℕ → ℕ → ℕ
tile_height area y remaining = greater 1 ((area.height - (y + area.gap * remaining)) / remaining)

-- The boxes that the clients are resized to, each with whether it is in the master column and with
-- the height that the client gets.
pub record Placed : Type 0 where
  pub master : Bool
  pub box : Box
  pub got : ℕ

abbrev master_box : Area → ℕ → ℕ → Box
master_box area y height = record {
  x = area.gap;
  y = y;
  width = (area.master_width + 4294967296 - (2 * area.gap) % 4294967296) % 4294967296;
  height = height;
}

abbrev stack_box : Area → ℕ → ℕ → Box
stack_box area y height = record {
  x = area.master_width;
  y = y;
  width =
      (area.width + 8589934592 - area.master_width % 4294967296 - area.gap % 4294967296)
      % 4294967296;
  height = height;
}

-- The loop of `layout_tile`.
unfoldable pub tile_loop : Area → ℕ → ℕ → ℕ → ℕ → List Tiled → List Placed
tile_loop area count index master_y stack_y [] = []
tile_loop area count index master_y stack_y (client ∷ clients) =
    let master_height = tile_height area master_y (lesser count area.nmaster - index) in
    let master_got = resized client master_height in
    let stack_height = tile_height area stack_y (count - index) in
    let stack_got = resized client stack_height in
    let in_master =
      tile_loop area count (suc index) (master_y + master_got + area.gap) stack_y clients in
    let in_stack =
      tile_loop area count (suc index) master_y (stack_y + stack_got + area.gap) clients in
    if ltb index area.nmaster
    then record { master = true; box = master_box area master_y master_height; got = master_got }
      ∷ in_master
    else record { master = false; box = stack_box area stack_y stack_height; got = stack_got }
      ∷ in_stack

-- `layout_tile`; `master_part` is the rounding of a width times `mfact`, `smart` is `smart_gaps`.
unfoldable pub gap_of : Bool → Bool → ℕ → ℕ → ℕ
gap_of gaps smart gap_size count =
    if gaps then (if (if smart then 1 else 0) == count then 0 else gap_size) else 0

abbrev pub area_of : (ℕ → ℕ) → Bool → Bool → ℕ → ℕ → ℕ → ℕ → ℕ → Area
area_of master_part gaps smart gap_size width height nmaster count =
    let gap = gap_of gaps smart gap_size count in
    record {
      width = width;
      height = height;
      nmaster = nmaster;
      gap = gap;
      master_width =
          if ltb nmaster count
          then (if nmaster == 0 then 0 else master_part (width + gap))
          else width;
    }

unfoldable pub layout_tile : (ℕ → ℕ) → Bool → Bool → ℕ → ℕ → ℕ → ℕ → List Tiled → List Placed
layout_tile master_part gaps smart gap_size width height nmaster clients =
    let area = area_of master_part gaps smart gap_size width height nmaster (length clients) in
    tile_loop area (length clients) 0 area.gap area.gap clients
