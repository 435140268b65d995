-- ===== src/Window/Tags/Layouts.antt =====
-- src/window/layout.c: the layouts that `layout_view` keeps per tag, and the way back from the tabbed
-- layout.
use native.Mathlib.Nat.{mod-eq_of_lt}
use g0wm.Common.{
  ℕ, ◌%◌, ◌^◌, ◌≡◌, refl, inl, inr, Bool, true, false, not, Option, none, some, ◌==◌, arith,
  Bool-cases, if◌then◌else◌, ap, ◌∙◌,
}
use g0wm.Window.{State, Monitor, tagset_of}
use g0wm.Window.Tags.{
  view, view_on, put, tag_index, on_monitor, refresh, set_layout, set_layout_on, toggle_tabbed,
}
use g0wm.Window.Tags.Sets.{HasTags, refresh-monitor, refresh-selected}

abbrev pub current : Monitor → ℕ
current m = m.lt m.sellt

-- The same tags in view, in the same slot, with the same layouts.
abbrev pub SameView : Monitor → Monitor → Type 0
SameView m k =
    (m.seltags ≡ k.seltags) × (tagset_of m ≡ tagset_of k) × (m.sellt ≡ k.sellt) × (m.lt ≡ k.lt)

put-same {ℓ} : {A : Type ℓ} (b : Bool) (a : A) (f : Bool → A) → put b a f b ≡ a
put-same true a f = refl
put-same false a f = refl

put-not {ℓ} : {A : Type ℓ} (b : Bool) (a : A) (f : Bool → A) → put (not b) a f b ≡ f b
put-not true a f = refl
put-not false a f = refl

not-not : (b : Bool) → not (not b) ≡ b
not-not true = refl
not-not false = refl

-- A monitor that has moved on to `x` from the one that `m` shows.
record Moved (x : ℕ) (m k : Monitor) : Type 0 where
  turned : k.seltags ≡ not m.seltags
  showing : tagset_of k ≡ x
  behind : k.tagset m.seltags ≡ tagset_of m
  lt_saved : k.taglt (tag_index (tagset_of m)) ≡ m.lt
  sellt_saved : k.tagsellt (tag_index (tagset_of m)) ≡ m.sellt
  lt_other : (i : ℕ) → (i == tag_index (tagset_of m)) ≡ false → k.taglt i ≡ m.taglt i
  sellt_other : (i : ℕ) → (i == tag_index (tagset_of m)) ≡ false → k.tagsellt i ≡ m.tagsellt i
  lt_loaded : k.lt ≡ k.taglt (tag_index x)
  sellt_loaded : k.sellt ≡ k.tagsellt (tag_index x)

view_on-still : (x : ℕ) (m : Monitor) → (x == tagset_of m) ≡ true → view_on x m ≡ m
unfolding view_on
view_on-still x m e = rw e refl

view_on-Moved :
    (x : ℕ) (m : Monitor) → (x == 0) ≡ false → (x == tagset_of m) ≡ false → Moved x m (view_on x m)
unfolding view_on
view_on-Moved x m h e =
    rw (e, h)
      record {
        turned = refl;
        showing = put-same (not m.seltags) x m.tagset;
        behind = put-not m.seltags x m.tagset;
        lt_saved = ground arith;
        sellt_saved = ground arith;
        lt_other = λ i n. rw n refl;
        sellt_other = λ i n. rw n refl;
        lt_loaded = rw (put-same (not m.seltags) x m.tagset) refl;
        sellt_loaded = rw (put-same (not m.seltags) x m.tagset) refl;
      }

Moved-back : (x : ℕ) (m k l : Monitor) → Moved x m k → Moved (tagset_of m) k l → SameView l m
Moved-back x m k l p q = elim (Bool-cases (tag_index (tagset_of m) == tag_index x)) [
  | inl e ↦ let (slot, lt) = same_slot e in (turned_back, q.showing, slot, lt)
  | inr e ↦
      let apart : (tag_index (tagset_of m) == tag_index (tagset_of k)) ≡ false = rw p.showing e in
      (
        turned_back,
        q.showing,
        q.sellt_loaded ∙ (q.sellt_other (tag_index (tagset_of m)) apart ∙ p.sellt_saved),
        q.lt_loaded ∙ (q.lt_other (tag_index (tagset_of m)) apart ∙ p.lt_saved),
      )
]
  where
    turned_back : l.seltags ≡ m.seltags
    turned_back = q.turned ∙ (ap not p.turned ∙ not-not m.seltags)

    same_slot :
        (tag_index (tagset_of m) == tag_index x) ≡ true → (l.sellt ≡ m.sellt) × (l.lt ≡ m.lt)
    same_slot e =
        let eq : tag_index (tagset_of m) ≡ tag_index x = ground arith in
        let shown : tag_index (tagset_of k) ≡ tag_index x = ap tag_index p.showing in (cc, cc)

view_on_back :
    (x : ℕ) (m : Monitor)
    → (x == 0) ≡ false
    → (tagset_of m == 0) ≡ false
    → SameView (view_on (tagset_of m) (view_on x m)) m
view_on_back x m h h' = elim (Bool-cases (x == tagset_of m)) [
  | inl e ↦
      rw (view_on-still x m e, view_on-still (tagset_of m) m (ground arith))
        (refl, refl, refl, refl)
  | inr e ↦
      let p = view_on-Moved x m h e in
      Moved-back x m (view_on x m) (view_on (tagset_of m) (view_on x m)) p
        (view_on-Moved (tagset_of m) (view_on x m) h' (rw p.showing (ground arith)))
]

view-monitor :
    (n ui m : ℕ) (s : State)
    → s.selected ≡ some m
    → (view n ui s).monitor m ≡ view_on (ui % 2 ^ n) (s.monitor m)
unfolding view
view-monitor n ui m s h = elim (Bool-cases (ui % 2 ^ n == tagset_of (s.monitor m))) [
  | inl e ↦ rw (view, h, e, view_on-still (ui % 2 ^ n) (s.monitor m) e) refl
  | inr e ↦
      rw (view, h, e) (ground (arith, refresh-monitor (on_monitor m (view_on (ui % 2 ^ n)) s)))
]

view-selected : (n ui : ℕ) (s : State) → (view n ui s).selected ≡ s.selected
unfolding view
view-selected n ui s = go s.selected
  where
    go :
        (o : Option ℕ)
        → (elim o as (λ _. State) [
          | none ↦ s
          | some m ↦
              if ui % 2 ^ n == tagset_of (s.monitor m)
              then s
              else refresh (on_monitor m (view_on (ui % 2 ^ n)) s)
        ]).selected
          ≡ s.selected
    go none = refl
    go (some m) = ground (arith, refresh-selected (on_monitor m (view_on (ui % 2 ^ n)) s))

-- After another tag is viewed and then the former tags again, the monitor shows the same tags from
-- the same slot with the same layouts as before, if its tag sets are good and the tags viewed in
-- between are not none.
pub view_back :
    (n ui m : ℕ) (s : State)
    → HasTags n s
    → s.selected ≡ some m
    → (ui % 2 ^ n == 0) ≡ false
    → SameView ((view n (tagset_of (s.monitor m)) (view n ui s)).monitor m) (s.monitor m)
view_back n ui m s h e u =
    let (ne, small) = h.1 m (s.monitor m).seltags in
    rw
      (
        view-monitor n (tagset_of (s.monitor m)) m (view n ui s) (view-selected n ui s ∙ e),
        view-monitor n ui m s e,
        mod-eq_of_lt small,
      )
      (view_on_back (ui % 2 ^ n) (s.monitor m) u ne)

set_layout-monitor :
    (v : Option ℕ) (m : ℕ) (s : State)
    → s.selected ≡ some m
    → ((set_layout v s).monitor m ≡ set_layout_on v (s.monitor m))
      × ((set_layout v s).selected ≡ some m)
unfolding set_layout
set_layout-monitor v m s e = rw (set_layout, e) (ground arith, ground arith)

-- The layout that the toggle asks for.
abbrev toggled : (ℕ → Bool) → ℕ → Monitor → Option ℕ
toggled is_tabbed l m = if is_tabbed (current m) then none else some l

toggle_tabbed-monitor :
    (is_tabbed : ℕ → Bool) (l m : ℕ) (s : State)
    → s.selected ≡ some m
    → ((toggle_tabbed is_tabbed (some l) s).monitor m
        ≡ set_layout_on (toggled is_tabbed l (s.monitor m)) (s.monitor m))
      × ((toggle_tabbed is_tabbed (some l) s).selected ≡ some m)
unfolding toggle_tabbed
toggle_tabbed-monitor is_tabbed l m s e =
    rw (toggle_tabbed, e) (set_layout-monitor (toggled is_tabbed l (s.monitor m)) m s e)

ne_of : (p : ℕ → Bool) (a b : ℕ) → p a ≡ true → p b ≡ false → (a == b) ≡ false
ne_of p a b h k = ground arith

set_layout_on-other :
    (l : ℕ) (m : Monitor)
    → (l == current m) ≡ false
    → set_layout_on (some l) m ≡ record m { sellt = not m.sellt; lt = put (not m.sellt) l m.lt }
unfolding set_layout_on
set_layout_on-other l m h = rw h refl

toggled-there :
    (is_tabbed : ℕ → Bool) (l : ℕ) (m : Monitor)
    → is_tabbed l ≡ true
    → is_tabbed (current m) ≡ false
    → set_layout_on (toggled is_tabbed l m) m
      ≡ record m { sellt = not m.sellt; lt = put (not m.sellt) l m.lt }
toggled-there is_tabbed l m t c = rw c (set_layout_on-other l m (ne_of is_tabbed l (current m) t c))

toggled-back :
    (is_tabbed : ℕ → Bool) (l : ℕ) (m : Monitor)
    → is_tabbed (current m) ≡ true
    → set_layout_on (toggled is_tabbed l m) m ≡ record m { sellt = not m.sellt }
unfolding set_layout_on
toggled-back is_tabbed l m t = rw t refl

there_and_back :
    (is_tabbed : ℕ → Bool) (l : ℕ) (m : Monitor)
    → is_tabbed l ≡ true
    → is_tabbed (current m) ≡ false
    → let k = set_layout_on (toggled is_tabbed l m) m in
      let back = set_layout_on (toggled is_tabbed l k) k in
      (current k ≡ l) × (current back ≡ current m) × (back.sellt ≡ m.sellt)
there_and_back is_tabbed l m t c =
    let k : Monitor = record m { sellt = not m.sellt; lt = put (not m.sellt) l m.lt } in
    let shown : current k ≡ l = put-same (not m.sellt) l m.lt in
    rw (toggled-there is_tabbed l m t c, toggled-back is_tabbed l k (rw shown t))
      (shown, rw (not-not m.sellt) (put-not m.sellt l m.lt), not-not m.sellt)

-- From a layout that is not tabbed, `layout_toggle_tabbed` goes to the layout it is given, and a
-- second time it comes back to the former layout and its slot, if the layout given is tabbed.
pub toggle_tabbed_back :
    (is_tabbed : ℕ → Bool) (l m : ℕ) (s : State)
    → s.selected ≡ some m
    → is_tabbed l ≡ true
    → is_tabbed (current (s.monitor m)) ≡ false
    → let there = toggle_tabbed is_tabbed (some l) s in
      let back = toggle_tabbed is_tabbed (some l) there in
      (current (there.monitor m) ≡ l)
      × (current (back.monitor m) ≡ current (s.monitor m))
      × ((back.monitor m).sellt ≡ (s.monitor m).sellt)
toggle_tabbed_back is_tabbed l m s e t c =
    let (there, still) = toggle_tabbed-monitor is_tabbed l m s e in
    let (back, _) =
      toggle_tabbed-monitor is_tabbed l m (toggle_tabbed is_tabbed (some l) s) still in
    rw (back, there) (there_and_back is_tabbed l (s.monitor m) t c)
