-- ===== src/Window/Tags/Sets.antt =====
-- The tag sets of src/window/layout.c: bounds of `layout_tag_beside` and what every action keeps.
use Prim.Native.Nat.{bit_xor, digits, differ, bit_xor-bitwise}
use native.Mathlib.Nat.{mod-lt}
use g0wm.Common.{
  ℕ, suc, zero, ◌+◌, ◌-◌, ◌/◌, ◌%◌, ◌^◌, ◌<◌, ◌≡◌, refl, ◌⊎◌, inl, inr, Bool, true, false, not,
  Option, none, some, List, [], ◌∷◌, ◌==◌, if◌then◌else◌, arith, Bool-cases, Option-cases,
}
use g0wm.Window.{State, Monitor, ask, arrange, arrange_selected, tagset_of, selection}
use g0wm.Window.Tags.{
  ℤ, tag_beside, view, toggle_view, tag, toggle_tag, shift_tag, shift_view, set_layout, inc_master,
  toggle_gaps, refresh, view_on, on_monitor, put_tags, put, turn, save_layouts, Action, act, run,
  viewing, toggling_view, tagging, toggling_tag, shifting_tag, shifting_view, setting_layout,
  incrementing, toggling_gaps, set_layout_on,
}

-- A tag set that is not empty and has no bit from `n` on.
abbrev pub IsSetOf : ℕ → ℕ → Type 0
IsSetOf n x = ((x == 0) ≡ false) × (x < 2 ^ n)

-- Every client and both tag sets of every monitor have such a set.
abbrev pub HasTags : ℕ → State → Type 0
HasTags n s =
    ((c : ℕ) → IsSetOf n (s.client c).tags)
    × ((m : ℕ) (b : Bool) → IsSetOf n ((s.monitor m).tagset b))

differ-bound : (a b : ℕ) → a < 2 → b < 2 → differ a b < 2
differ-bound zero b h h' = h'
differ-bound (suc a) zero h h' = h
differ-bound (suc a) (suc b) h h' = differ-bound a b (omega arith) (omega arith)

digits-bound : (k n a b : ℕ) → a < 2 ^ k → b < 2 ^ k → digits (λ b. b) differ n a b < 2 ^ k
digits-bound k zero a b h h' = h'
digits-bound k (suc n) zero b h h' = h'
digits-bound zero (suc n) (suc a) b h h' = omega arith
digits-bound (suc k) (suc n) (suc a) b h h' =
    let rest = digits-bound k n (suc a / 2) (b / 2) (omega arith) (omega arith) in
    let low = differ-bound (suc a % 2) (b % 2) (omega arith) (omega arith) in omega arith

bit_xor-bound : (n a b : ℕ) → a < 2 ^ n → b < 2 ^ n → bit_xor a b < 2 ^ n
bit_xor-bound n a b h h' = rw (bit_xor-bitwise a b) (digits-bound n a a b h h')

pow-pos : (n : ℕ) → 0 < 2 ^ n
pow-pos zero = omega arith
pow-pos (suc n) = ground (arith, pow-pos n)

refresh-client : (s : State) → (refresh s).client ≡ s.client
unfolding refresh
refresh-client s = ground (arith, Option-cases s.selected)

pub refresh-monitor : (s : State) → (refresh s).monitor ≡ s.monitor
unfolding refresh
refresh-monitor s = ground (arith, Option-cases s.selected)

pub refresh-selected : (s : State) → (refresh s).selected ≡ s.selected
unfolding refresh
refresh-selected s = ground (arith, Option-cases s.selected)

arrange-HasTags : (n : ℕ) (s : State) → HasTags n s → HasTags n (arrange_selected s)
arrange-HasTags n s h = go s.selected
  where
    go : (o : Option ℕ) → HasTags n (elim o [ none ↦ s | some m ↦ ask (arrange m) s ])
    go none = h
    go (some m) = h

refresh-HasTags : (n : ℕ) (s : State) → HasTags n s → HasTags n (refresh s)
refresh-HasTags n s h =
    (λ c. rw (refresh-client s) (h.0 c), λ m b. rw (refresh-monitor s) (h.1 m b))

mask-IsSetOf : (n x : ℕ) → ((x % 2 ^ n) == 0) ≡ false → IsSetOf n (x % 2 ^ n)
mask-IsSetOf n x h = (h, mod-lt x (pow-pos n))

xor-IsSetOf :
    (n x ui : ℕ)
    → IsSetOf n x
    → (bit_xor x (ui % 2 ^ n) == 0) ≡ false
    → IsSetOf n (bit_xor x (ui % 2 ^ n))
xor-IsSetOf n x ui h e = (e, bit_xor-bound n x (ui % 2 ^ n) h.1 (mod-lt ui (pow-pos n)))

put_tags-HasTags :
    (n c set : ℕ) (s : State) → IsSetOf n set → HasTags n s → HasTags n (put_tags c set s)
put_tags-HasTags n c set s k h = (λ d. go d (Bool-cases (d == c)), h.1)
  where
    go :
        (d : ℕ)
        → ((d == c) ≡ true) ⊎ ((d == c) ≡ false)
        → IsSetOf n ((put_tags c set s).client d).tags
    go d (inl e) = ground (arith, e, k)
    go d (inr e) = ground (arith, e, h.0 d)

-- A change of one monitor that keeps its tag sets good.
on_monitor-HasTags :
    (n m : ℕ) (f : Monitor → Monitor) (s : State)
    → ((b : Bool) → IsSetOf n ((f (s.monitor m)).tagset b))
    → HasTags n s
    → HasTags n (on_monitor m f s)
on_monitor-HasTags n m f s k h = (h.0, λ d b. go d b (Bool-cases (d == m)))
  where
    go :
        (d : ℕ) (b : Bool)
        → ((d == m) ≡ true) ⊎ ((d == m) ≡ false)
        → IsSetOf n (((on_monitor m f s).monitor d).tagset b)
    go d b (inl e) = ground (arith, e, k b)
    go d b (inr e) = ground (arith, e, h.1 d b)

put-IsSetOf :
    (n set : ℕ) (b c : Bool) (f : Bool → ℕ)
    → IsSetOf n set
    → ((d : Bool) → IsSetOf n (f d))
    → IsSetOf n (put b set f c)
put-IsSetOf n set true true f k h = k
put-IsSetOf n set true false f k h = h false
put-IsSetOf n set false true f k h = h true
put-IsSetOf n set false false f k h = k

turn-IsSetOf :
    (n x : ℕ) (m : Monitor)
    → x < 2 ^ n
    → ((b : Bool) → IsSetOf n (m.tagset b))
    → (b : Bool) → IsSetOf n ((turn x m).tagset b)
turn-IsSetOf n x m k h b = elim (Bool-cases (x == 0)) [
  | inl e ↦ rw e (h b)
  | inr e ↦ rw e (put-IsSetOf n x (not m.seltags) b m.tagset (e, k) h)
]

view_on-IsSetOf :
    (n x : ℕ) (m : Monitor)
    → x < 2 ^ n
    → ((b : Bool) → IsSetOf n (m.tagset b))
    → (b : Bool) → IsSetOf n ((view_on x m).tagset b)
unfolding view_on
view_on-IsSetOf n x m k h b = elim (Bool-cases (x == tagset_of m)) [
  | inl e ↦ rw e (h b)
  | inr e ↦ rw e (turn-IsSetOf n x (save_layouts m) k h b)
]

module _ (n : ℕ) (s : State) (h : HasTags n s) where
  changed :
      (m : ℕ) (f : Monitor → Monitor)
      → ((b : Bool) → IsSetOf n ((f (s.monitor m)).tagset b))
      → HasTags n (refresh (on_monitor m f s))
  changed m f k = refresh-HasTags n (on_monitor m f s) (on_monitor-HasTags n m f s k h)

  guard : (b : Bool) (t : State) → (b ≡ false → HasTags n t) → HasTags n (if b then s else t)
  guard true t k = h
  guard false t k = k refl

  when_some :
      (o : Option ℕ) (f : ℕ → State)
      → ((m : ℕ) → HasTags n (f m))
      → HasTags n (elim o [ none ↦ s | some m ↦ f m ])
  when_some none f k = h
  when_some (some m) f k = k m

  view-HasTags : (ui : ℕ) → HasTags n (view n ui s)
  unfolding view
  view-HasTags ui = when_some s.selected _ λ m. guard (ui % 2 ^ n == tagset_of (s.monitor m)) _ λ e.
      changed m (view_on (ui % 2 ^ n))
        (view_on-IsSetOf n (ui % 2 ^ n) (s.monitor m) (mod-lt ui (pow-pos n)) (h.1 m))

  toggle_view-HasTags : (ui : ℕ) → HasTags n (toggle_view n ui s)
  unfolding toggle_view
  toggle_view-HasTags ui = when_some s.selected _ λ m.
      let set = bit_xor (tagset_of (s.monitor m)) (ui % 2 ^ n) in
      guard (set == 0) _ λ e.
        changed m (λ x. record x { tagset = put x.seltags set x.tagset })
          λ b.
            put-IsSetOf n set (s.monitor m).seltags b (s.monitor m).tagset
              (xor-IsSetOf n (tagset_of (s.monitor m)) ui (h.1 m (s.monitor m).seltags) e) (h.1 m)

  tag-HasTags : (ui : ℕ) → HasTags n (tag n ui s)
  unfolding tag
  tag-HasTags ui = when_some (selection s) _ λ c. guard (ui % 2 ^ n == 0) _ λ e.
      refresh-HasTags n (put_tags c (ui % 2 ^ n) s)
        (put_tags-HasTags n c (ui % 2 ^ n) s (mask-IsSetOf n ui e) h)

  toggle_tag-HasTags : (ui : ℕ) → HasTags n (toggle_tag n ui s)
  unfolding toggle_tag
  toggle_tag-HasTags ui = when_some (selection s) _ λ c.
      let set = bit_xor (s.client c).tags (ui % 2 ^ n) in
      guard (set == 0) _ λ e.
        refresh-HasTags n (put_tags c set s)
          (put_tags-HasTags n c set s (xor-IsSetOf n (s.client c).tags ui (h.0 c) e) h)

  arranged :
      (m : ℕ) (f : Monitor → Monitor)
      → ((x : Monitor) → (f x).tagset ≡ x.tagset)
      → HasTags n (arrange_selected (on_monitor m f s))
  arranged m f k =
      arrange-HasTags n (on_monitor m f s)
        (on_monitor-HasTags n m f s (λ b. rw (k (s.monitor m)) (h.1 m b)) h)

shift_tag-HasTags : (n : ℕ) (step : ℤ) (s : State) → HasTags n s → HasTags n (shift_tag n step s)
unfolding shift_tag
shift_tag-HasTags n step s h = when_some n s h (selection s) _ λ c.
    when_some n s h (tag_beside n (s.client c).tags step) _
      λ t. view-HasTags n (tag n (2 ^ t) s) (tag-HasTags n s h (2 ^ t)) (2 ^ t)

shift_view-HasTags : (n : ℕ) (step : ℤ) (s : State) → HasTags n s → HasTags n (shift_view n step s)
unfolding shift_view
shift_view-HasTags n step s h = when_some n s h s.selected _ λ m.
    when_some n s h (tag_beside n (tagset_of (s.monitor m)) step) _ λ t. view-HasTags n s h (2 ^ t)

act-HasTags : (n : ℕ) (a : Action) (s : State) → HasTags n s → HasTags n (act n a s)
unfolding act set_layout set_layout_on inc_master toggle_gaps
act-HasTags n (viewing ui) s h = view-HasTags n s h ui
act-HasTags n (toggling_view ui) s h = toggle_view-HasTags n s h ui
act-HasTags n (tagging ui) s h = tag-HasTags n s h ui
act-HasTags n (toggling_tag ui) s h = toggle_tag-HasTags n s h ui
act-HasTags n (shifting_tag step) s h = shift_tag-HasTags n step s h
act-HasTags n (shifting_view step) s h = shift_view-HasTags n step s h
act-HasTags n (setting_layout v) s h =
    when_some n s h s.selected _ λ m. arranged n s h m (set_layout_on v) (λ x. refl)
act-HasTags n (incrementing up i) s h = when_some n s h s.selected _ λ m.
    arranged n s h m (λ x. record x { nmaster = if up then x.nmaster + i else x.nmaster - i })
      (λ x. refl)
act-HasTags n toggling_gaps s h =
    when_some n s h s.selected _
      λ m. arranged n s h m (λ x. record x { gaps = not x.gaps }) (λ x. refl)

-- Through any sequence of tag and layout actions every client and every monitor keeps a tag set that
-- is not empty and has no tag beyond `tag_count`, if that is so at the start.
pub run-HasTags :
    (n : ℕ) (actions : List Action) (s : State) → HasTags n s → HasTags n (run n actions s)
run-HasTags n [] s h = h
run-HasTags n (a ∷ rest) s h = run-HasTags n rest (act n a s) (act-HasTags n a s h)
