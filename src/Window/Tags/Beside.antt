-- ===== src/Window/Tags/Beside.antt =====
-- src/window/layout.c: the tag that `layout_tag_beside` finds next to a set.
use native.Mathlib.Nat.{mod-le, lt_of_le_of_lt}
use g0wm.Common.{
  ℕ, suc, zero, ◌+◌, ◌-◌, ◌*◌, ◌/◌, ◌%◌, ◌^◌, ◌<◌, ◌≤◌, ◌≡◌, refl, inl, inr, false, some, ◌==◌,
  arith, Bool-cases,
}
use g0wm.Window.Tags.{ℤ, pos, negsuc, trailing_zeros, bit_width, tag_beside}

bit_width-step :
    (fuel x : ℕ) → (x == 0) ≡ false → bit_width (suc fuel) x ≡ suc (bit_width fuel (x / 2))
unfolding bit_width
bit_width-step fuel x h = rw h refl

trailing_zeros-step :
    (fuel x : ℕ)
    → (x % 2 == 1) ≡ false
    → trailing_zeros (suc fuel) x ≡ suc (trailing_zeros fuel (x / 2))
unfolding trailing_zeros
trailing_zeros-step fuel x h = rw h refl

bit_width-zero : (fuel : ℕ) → bit_width fuel 0 ≡ 0
unfolding bit_width
bit_width-zero zero = refl
bit_width-zero (suc fuel) = refl

-- All bits of `x` are below its width, and the highest one is set.
bit_width-below : (fuel x : ℕ) → x < 2 ^ fuel → x < 2 ^ bit_width fuel x
unfolding bit_width
bit_width-below zero x h = h
bit_width-below (suc fuel) x h = elim (Bool-cases (x == 0)) [
  | inl e ↦ rw e (ground arith)
  | inr e ↦
      let below = bit_width-below fuel (x / 2) (omega arith) in
      rw (bit_width-step fuel x e) (omega arith)
]

bit_width-above : (fuel x : ℕ) → (x == 0) ≡ false → x < 2 ^ fuel → 2 ^ bit_width fuel x ≤ 2 * x
bit_width-above zero x e h = ground arith
bit_width-above (suc fuel) x e h = elim (Bool-cases (x / 2 == 0)) [
  | inl k ↦
      let half : x / 2 ≡ 0 = ground arith in
      rw (bit_width-step fuel x e, half, bit_width-zero fuel) (ground arith)
  | inr k ↦
      let above = bit_width-above fuel (x / 2) k (omega arith) in
      rw (bit_width-step fuel x e) (omega arith)
]

halves : (x q k : ℕ) → (x % 2 == 1) ≡ false → x / 2 ≡ q * 2 ^ k → x ≡ q * 2 ^ suc k
halves x q k h e = let twice : x ≡ 2 * (x / 2) = ground arith in grind arith

-- The lowest bit of `x` that is set.
trailing_zeros-odd :
    (fuel x : ℕ)
    → x < 2 ^ fuel
    → (x == 0) ≡ false
    → (q : ℕ) × (x ≡ q * 2 ^ trailing_zeros fuel x) × (q % 2 ≡ 1)
unfolding trailing_zeros
trailing_zeros-odd zero x h e = ground arith
trailing_zeros-odd (suc fuel) x h e = elim (Bool-cases (x % 2 == 1)) [
  | inl k ↦ rw k (x, omega arith, ground arith)
  | inr k ↦
      let (q, eq, odd) = trailing_zeros-odd fuel (x / 2) (omega arith) (ground arith) in
      rw (trailing_zeros-step fuel x k) (q, halves x q (trailing_zeros fuel (x / 2)) k eq, odd)
]

-- What `layout_tag_beside` promises of its answer.
abbrev pub IsBeside : ℕ → ℕ → ℤ → ℕ → Type 0
IsBeside n set (pos (suc k)) t =
    (t < n) × (k ≤ t) × (set % 2 ^ n < 2 ^ (t - k)) × (2 ^ (t - k) ≤ 2 * (set % 2 ^ n))
IsBeside n set (pos zero) t = (t < n) × ((q : ℕ) × (set ≡ q * 2 ^ t) × (q % 2 ≡ 1))
IsBeside n set (negsuc k) t = (t < n) × ((q : ℕ) × (set ≡ q * 2 ^ (t + suc k)) × (q % 2 ≡ 1))

-- The tag that `layout_tag_beside` finds is one of the `n` tags: going up, the tag that many steps above
-- the highest one of the set; going down, the tag that many steps below the lowest one; and without a
-- step the lowest one.
pub tag_beside_next :
    (n set t : ℕ) (step : ℤ)
    → n ≤ 32
    → set < 2 ^ 32
    → tag_beside n set step ≡ some t
    → IsBeside n set step t
unfolding tag_beside
tag_beside_next n set t (pos (suc k)) le h e = elim (Bool-cases (set % 2 ^ n == 0)) [
  | inl z ↦ ground arith
  | inr z ↦
      let small : set % 2 ^ n < 2 ^ 32 = lt_of_le_of_lt (mod-le set (2 ^ n)) h in
      let below = bit_width-below 32 (set % 2 ^ n) small in
      let above = bit_width-above 32 (set % 2 ^ n) z small in
      let sum : bit_width 32 (set % 2 ^ n) + k ≡ t = ground arith in
      let same : t - k ≡ bit_width 32 (set % 2 ^ n) = omega arith in
      (ground arith, omega arith, rw same below, rw same above)
]
tag_beside_next n set t (pos zero) le h e = elim (Bool-cases (set % 2 ^ n == 0)) [
  | inl z ↦ ground arith
  | inr z ↦
      let masked = mod-le set (2 ^ n) in
      let (q, eq, odd) = trailing_zeros-odd 32 set h (ground arith) in
      let here : trailing_zeros 32 set ≡ t = ground arith in
      (ground arith, (q, rw (← here) eq, odd))
]
tag_beside_next n set t (negsuc k) le h e = elim (Bool-cases (set % 2 ^ n == 0)) [
  | inl z ↦ ground arith
  | inr z ↦
      let masked = mod-le set (2 ^ n) in
      let (q, eq, odd) = trailing_zeros-odd 32 set h (ground arith) in
      let next : trailing_zeros 32 set ≡ t + suc k = ground arith in
      (ground arith, (q, rw (← next) eq, odd))
]
