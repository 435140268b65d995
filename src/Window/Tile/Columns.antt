-- ===== src/Window/Tile/Columns.antt =====
-- src/window/layout.c: proofs on the columns of `layout_tile`.
use mathlib.Core.Path.{subst}
use native.Mathlib.Nat.{mul-le-mul_right}
use g0wm.Common.{
  ℕ, zero, suc, ◌+◌, ◌-◌, ◌*◌, ◌≤◌, ◌≡◌, refl, sym, Bool, true, false, List, [], ◌∷◌, ltb, length,
  inl, inr, Bool-cases, arith, if◌then◌else◌,
}
use g0wm.Window.Tile.{
  Tiled, Area, Placed, lesser, resized, tile_height, tile_loop, gap_of, layout_tile, area_of,
}
use g0wm.Window.Tile.Room.{tile_height-room}

abbrev same_column : Bool → Bool → Bool
same_column true b = b
same_column false true = false
same_column false false = true

-- The clients of one column.
abbrev pub column : Bool → List Placed → List Placed
column master [] = []
column master (p ∷ ps) =
    if same_column master p.master then p ∷ column master ps else column master ps

-- From `y` on each client is below the one before it with one gap between them, gets the height that
-- it was given, and the last one ends at the gap over the lower edge.
abbrev pub Stacked : Area → ℕ → List Placed → Type 0
Stacked area y [] = y ≡ area.height
Stacked area y (p ∷ ps) =
    (p.box.y ≡ y) × (p.got ≡ p.box.height) × Stacked area (y + p.box.height + area.gap) ps

abbrev pub Filled : Area → List Placed → Type 0
Filled area [] = Unit {0}
Filled area (p ∷ ps) = Stacked area area.gap (p ∷ ps)

-- Clients that are mapped and get no higher than `least` unless they are told to.
abbrev pub AllFit : ℕ → List Tiled → Type 0
AllFit least [] = Unit {0}
AllFit least (client ∷ clients) =
    (client.mapped ≡ true) × (1 + 2 * client.bw ≤ least) × AllFit least clients

resized-same :
    (client : Tiled) (least height : ℕ)
    → client.mapped ≡ true
    → 1 + 2 * client.bw ≤ least
    → least ≤ height
    → resized client height ≡ height
unfolding resized
resized-same client least height m b h = rw m (ground (arith, b, h))

Stacked-Filled : (area : Area) (ps : List Placed) → Stacked area area.gap ps → Filled area ps
Stacked-Filled area [] s = tt
Stacked-Filled area (p ∷ ps) s = s

module _ (area : Area) (count least : ℕ) (one : 1 ≤ least) where
  -- Behind the masters.
  stack-Filled :
      (clients : List Tiled) (index master_y y : ℕ)
      → count ≡ index + length clients
      → area.nmaster ≤ index
      → AllFit least clients
      → y + length clients * (area.gap + least) ≤ area.height
      → (length clients ≡ 0 → y ≡ area.height)
      → Stacked area y (column false (tile_loop area count index master_y y clients))
        × (column true (tile_loop area count index master_y y clients) ≡ [])
  unfolding tile_loop
  stack-Filled [] index master_y y c n f room end = (end refl, refl)
  stack-Filled (client ∷ clients) index master_y y c n (m, b, f) room end =
      let left : count - index ≡ suc (length clients) = ground (arith, c) in
      let one_height = tile_height-room area y least (length clients) one room in
      let h = tile_height area y (suc (length clients)) in
      let got = resized-same client least h m b one_height.0 in
      let rest =
        stack-Filled clients (suc index) master_y (y + h + area.gap) (ground (arith, c))
          (ground (arith, n)) f one_height.1 one_height.2 in
      let off : ltb index area.nmaster ≡ false = ground (arith, n) in
      rw (off, left, got) ((refl, refl, rest.0), rest.1)

  -- The masters, with the room that is left for those that are still to come.
  masters-Filled :
      (clients : List Tiled) (index y remaining : ℕ)
      → count ≡ index + length clients
      → index ≤ area.nmaster
      → remaining ≡ lesser count area.nmaster - index
      → AllFit least clients
      → y + remaining * (area.gap + least) ≤ area.height
      → (remaining ≡ 0 → y ≡ area.height)
      → area.gap + length clients * (area.gap + least) ≤ area.height
      → Stacked area y (column true (tile_loop area count index y area.gap clients))
        × Filled area (column false (tile_loop area count index y area.gap clients))
  unfolding tile_loop
  masters-Filled [] index y remaining c n q f room end below = (end (ground (arith, c, n, q)), tt)
  masters-Filled (client ∷ clients) index y zero c n q (m, b, f) room end below =
      let done : area.nmaster ≤ index = ground (arith, c, n, q) in
      let none_left =
        stack-Filled (client ∷ clients) index y area.gap c done (m, b, f) below
          (λ e. absurd (ground (arith, e))) in
      (
        subst (Stacked area y) (sym none_left.1) (end refl),
        Stacked-Filled area
            (column false (tile_loop area count index y area.gap (client ∷ clients))) none_left.0,
      )
  masters-Filled (client ∷ clients) index y (suc r) c n q (m, b, f) room end below =
      let left : lesser count area.nmaster - index ≡ suc r = sym q in
      let one_height = tile_height-room area y least r one room in
      let h = tile_height area y (suc r) in
      let got = resized-same client least h m b one_height.0 in
      let rest =
        masters-Filled clients (suc index) (y + h + area.gap) r (ground (arith, c))
          (ground (arith, q, c)) (ground (arith, q)) f one_height.1 one_height.2
          (grind (arith, below)) in
      let on : ltb index area.nmaster ≡ true = ground (arith, q, c) in
      rw (on, left, got) ((refl, refl, rest.0), rest.1)

-- The whole loop.
columns-Filled :
    (area : Area) (least : ℕ) (clients : List Tiled)
    → 1 ≤ least
    → AllFit least clients
    → area.gap + length clients * (area.gap + least) ≤ area.height
    → let placed = tile_loop area (length clients) 0 area.gap area.gap clients in
      Filled area (column true placed) × Filled area (column false placed)
unfolding tile_loop
columns-Filled area least [] one f room = (tt, tt)
columns-Filled area least (client ∷ clients) one f room = elim (Bool-cases (ltb 0 area.nmaster)) [
  | inl e ↦
      let all =
        masters-Filled area count least one (client ∷ clients) 0 area.gap masters (ground arith)
          (ground arith) refl f (grind (arith, mul-le-mul_right (area.gap + least) fewer, room))
          (λ z. absurd (ground (arith, z, e))) room in
      (
        Stacked-Filled area
            (column true (tile_loop area count 0 area.gap area.gap (client ∷ clients))) all.0,
        all.1,
      )
  | inr e ↦
      let all =
        stack-Filled area count least one (client ∷ clients) 0 area.gap area.gap (ground arith)
          (ground (arith, e)) f room (λ z. absurd (ground (arith, z))) in
      (
        subst (Filled area) (sym all.1) tt,
        Stacked-Filled area
            (column false (tile_loop area count 0 area.gap area.gap (client ∷ clients))) all.0,
      )
]
  where
    count : ℕ
    count = length (client ∷ clients)

    masters : ℕ
    masters = lesser count area.nmaster - 0

    fewer : masters ≤ count
    fewer = ground arith

-- With room for every client at the least height, and mapped clients, both columns of `layout_tile` are
-- filled: in each the clients stand below one another with one gap between them, the first one a gap
-- below the upper edge and the last one a gap over the lower edge, and all get the height that they are
-- given. A column can be empty.
pub layout_tile-Filled :
    (master_part : ℕ → ℕ) (gaps smart : Bool) (gap_size width height nmaster least : ℕ)
    (clients : List Tiled)
    → 1 ≤ least
    → AllFit least clients
    → gap_of gaps smart gap_size (length clients)
        + length clients * (gap_of gaps smart gap_size (length clients) + least)
      ≤ height
    → let area = area_of master_part gaps smart gap_size width height nmaster (length clients) in
      let placed = layout_tile master_part gaps smart gap_size width height nmaster clients in
      Filled area (column true placed) × Filled area (column false placed)
unfolding layout_tile
layout_tile-Filled master_part gaps smart gap_size width height nmaster least clients one f room =
    columns-Filled (area_of master_part gaps smart gap_size width height nmaster (length clients))
      least clients one f room
