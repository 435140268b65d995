-- ===== src/Window/Tile/Room.antt =====
-- src/window/layout.c: proofs on the heights of a column.
use mathlib.Core.Path.{subst}
use native.Mathlib.Nat.{le-div_iff_mul-le, mul-div-le, mul-le-mul_left}
use g0wm.Common.{ℕ, suc, ◌+◌, ◌-◌, ◌*◌, ◌/◌, ◌≤◌, ◌≡◌, refl, sym, arith}
use g0wm.Window.Tile.{Area, tile_height, greater}

spread :
    (y gap least r H : ℕ) → y + suc r * (gap + least) ≤ H → least * suc r ≤ H - (y + gap * suc r)
spread y gap least r H h = grind arith

room_least :
    (H y gap least r : ℕ) → y + suc r * (gap + least) ≤ H → least ≤ (H - (y + gap * suc r)) / suc r
room_least H y gap least r h = (le-div_iff_mul-le (ground arith)).1 (spread y gap least r H h)

after_tile :
    (H y gap least r h X : ℕ)
    → least ≤ h
    → suc r * h ≤ X
    → X ≡ H - (y + gap * suc r)
    → y + gap * suc r ≤ H
    → y + h + gap + r * (gap + least) ≤ H
after_tile H y gap least r h X a b c e =
    let more : r * least ≤ r * h = mul-le-mul_left r a in grind arith

last_tile : (H y gap : ℕ) → y + gap ≤ H → y + (H - (y + gap * 1)) / 1 + gap ≡ H
last_tile H y gap h = omega arith

-- With room for `suc r` clients of the least height, the next one gets it, the others have room below
-- it, and the last one ends at the gap over the lower edge.
pub tile_height-room :
    (area : Area) (y least r : ℕ)
    → 1 ≤ least
    → y + suc r * (area.gap + least) ≤ area.height
    → let h = tile_height area y (suc r) in
      (least ≤ h)
      × (y + h + area.gap + r * (area.gap + least) ≤ area.height)
      × (r ≡ 0 → y + h + area.gap ≡ area.height)
unfolding tile_height
tile_height-room area y least r one room =
    let gap = area.gap in
    let H = area.height in
    let q = (H - (y + gap * suc r)) / suc r in
    let enough : least ≤ q = room_least H y gap least r room in
    let whole : greater 1 q ≡ q = ground (arith, one, enough) in
    let below : y + gap * suc r ≤ H = grind (arith, room) in
    rw whole (
      enough,
      after_tile H y gap least r q (H - (y + gap * suc r)) enough
          (mul-div-le (H - (y + gap * suc r)) (suc r)) refl below,
      λ e.
          subst (λ k. y + (H - (y + gap * suc k)) / suc k + gap ≡ H) (sym e)
            (last_tile H y gap (grind (arith, room))),
    )
