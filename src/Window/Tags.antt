-- ===== src/Window/Tags.antt =====
-- src/window/layout.c: the actions on tags and layouts. `n` is `tag_count`, so that `& TAGMASK` is
-- `% 2 ^ n`.
pub mod Sets
pub mod Layouts
pub mod Beside
use Prim.Native.Nat.{bit_xor}
use g0wm.Common.{
  ℕ, suc, zero, ◌-◌, ◌+◌, ◌/◌, ◌%◌, ◌^◌, Bool, true, false, not, ◌&&◌, ◌||◌, Option, none, some,
  List, [], ◌∷◌, ◌==◌, leb, if◌then◌else◌,
}
use g0wm.Window.{
  Client, Monitor, State, focus, draw_bars, draw_selected, selection, ask, arrange_selected,
  tagset_of,
}

-- `stdc_trailing_zeros` and `stdc_bit_width` of stdbit.h on `fuel` bits.
pub trailing_zeros : ℕ → ℕ → ℕ
trailing_zeros zero x = 0
trailing_zeros (suc fuel) x = if x % 2 == 1 then 0 else suc (trailing_zeros fuel (x / 2))

unfoldable pub bit_width : ℕ → ℕ → ℕ
bit_width zero x = 0
bit_width (suc fuel) x = if x == 0 then 0 else suc (bit_width fuel (x / 2))

-- `layout_tag_index`
pub tag_index : ℕ → ℕ
tag_index set = if set == 0 then 0 else trailing_zeros 32 set

-- `int`, with `negsuc k` for -1 - k.
pub data ℤ : Type 0 where
  pos : ℕ → ℤ
  negsuc : ℕ → ℤ

-- `layout_tag_beside`; `none` is -1, and the sum of the tag and the step is taken to be an `int`.
unfoldable pub tag_beside : ℕ → ℕ → ℤ → Option ℕ
tag_beside n set (pos (suc k)) =
    if set % 2 ^ n == 0
    then none
    else let target = bit_width 32 (set % 2 ^ n) + k in if leb n target then none else some target
tag_beside n set (pos zero) =
    if set % 2 ^ n == 0
    then none
    else let target = trailing_zeros 32 set in if leb n target then none else some target
tag_beside n set (negsuc k) =
    if set % 2 ^ n == 0
    then none
    else let target = trailing_zeros 32 set in
      if leb target k then none else if leb n (target - suc k) then none else some (target - suc k)

-- A change of the monitor at an address, and of a client.
abbrev pub on_monitor : ℕ → (Monitor → Monitor) → State → State
on_monitor m f s = record s { monitor = λ k. if k == m then f (s.monitor m) else s.monitor k }

abbrev pub put_tags : ℕ → ℕ → State → State
put_tags c set s = record s {
  client = λ k. if k == c then record (s.client k) { tags = set } else s.client k;
}

-- `client_focus(client_top(selected_monitor), 1)`, `layout_arrange`, `bar_draw_all`
pub refresh : State → State
refresh s = ask draw_bars (arrange_selected (ask (focus (selection s)) s))

abbrev pub put {ℓ} : {A : Type ℓ} → Bool → A → (Bool → A) → Bool → A
put true a f true = a
put true a f false = f false
put false a f true = f true
put false a f false = a

-- What `layout_view` does to the monitor: it notes the layouts of the tag it leaves, goes to the
-- other tag set, overwrites that with the tags asked for if there are any, and takes the layouts of
-- the tag it comes to.
abbrev pub save_layouts : Monitor → Monitor
save_layouts m =
    let i = tag_index (tagset_of m) in
    record m {
      taglt = λ k. if k == i then m.lt else m.taglt k;
      tagsellt = λ k. if k == i then m.sellt else m.tagsellt k;
    }

abbrev pub turn : ℕ → Monitor → Monitor
turn set m = record m {
  seltags = not m.seltags;
  tagset = if set == 0 then m.tagset else put (not m.seltags) set m.tagset;
}

abbrev pub load_layouts : Monitor → Monitor
load_layouts m =
    let i = tag_index (tagset_of m) in record m { lt = m.taglt i; sellt = m.tagsellt i }

pub view_on : ℕ → Monitor → Monitor
view_on set m = if set == tagset_of m then m else load_layouts (turn set (save_layouts m))

-- `layout_view`
pub view : ℕ → ℕ → State → State
view n ui s = elim s.selected [
  | none ↦ s
  | some m ↦
      if ui % 2 ^ n == tagset_of (s.monitor m)
      then s
      else refresh (on_monitor m (view_on (ui % 2 ^ n)) s)
]

-- `layout_toggle_view`
pub toggle_view : ℕ → ℕ → State → State
toggle_view n ui s = elim s.selected [
  | none ↦ s
  | some m ↦
      let set = bit_xor (tagset_of (s.monitor m)) (ui % 2 ^ n) in
      if set == 0
      then s
      else refresh (on_monitor m (λ x. record x { tagset = put x.seltags set x.tagset }) s)
]

-- `layout_tag`
pub tag : ℕ → ℕ → State → State
tag n ui s = elim (selection s) [
  | none ↦ s
  | some c ↦ if ui % 2 ^ n == 0 then s else refresh (put_tags c (ui % 2 ^ n) s)
]

-- `layout_toggle_tag`
pub toggle_tag : ℕ → ℕ → State → State
toggle_tag n ui s = elim (selection s) [
  | none ↦ s
  | some c ↦
      let set = bit_xor (s.client c).tags (ui % 2 ^ n) in
      if set == 0 then s else refresh (put_tags c set s)
]

-- `layout_shift_tag` and `layout_shift_view`.
pub shift_tag : ℕ → ℤ → State → State
shift_tag n step s = elim (selection s) [
  | none ↦ s
  | some c ↦ elim (tag_beside n (s.client c).tags step) [
    | none ↦ s
    | some t ↦ view n (2 ^ t) (tag n (2 ^ t) s)
  ]
]

pub shift_view : ℕ → ℤ → State → State
shift_view n step s = elim s.selected [
  | none ↦ s
  | some m ↦ elim (tag_beside n (tagset_of (s.monitor m)) step) [
    | none ↦ s
    | some t ↦ view n (2 ^ t) s
  ]
]

abbrev pub is_layout : Option ℕ → ℕ → Bool
is_layout none l = false
is_layout (some k) l = k == l

-- `layout_set` on the monitor: without a layout, or with another one than the current, the other
-- slot is selected; the layout is put in the selected slot.
pub set_layout_on : Option ℕ → Monitor → Monitor
set_layout_on v m =
    let slot = if is_layout v (m.lt m.sellt) then m.sellt else not m.sellt in
    record m { sellt = slot; lt = elim v [ none ↦ m.lt | some l ↦ put slot l m.lt ] }

pub set_layout : Option ℕ → State → State
set_layout v s = elim s.selected [
  | none ↦ s
  | some m ↦ ask draw_selected (arrange_selected (on_monitor m (set_layout_on v) s))
]

-- `layout_toggle_tabbed`; `is_tabbed` tells the layouts that `layout_tabbed` arranges.
pub toggle_tabbed : (ℕ → Bool) → Option ℕ → State → State
toggle_tabbed is_tabbed none s = s
toggle_tabbed is_tabbed (some l) s = elim s.selected [
  | none ↦ s
  | some m ↦
      set_layout (if is_tabbed ((s.monitor m).lt (s.monitor m).sellt) then none else some l) s
]

-- `layout_inc_master` by `i` up or down, and `layout_toggle_gaps`, which reads through the null pointer
-- without a selected monitor; the model stands still there.
pub inc_master : Bool → ℕ → State → State
inc_master up i s = elim s.selected [
  | none ↦ s
  | some m ↦
      arrange_selected
        (on_monitor m (λ x. record x { nmaster = if up then x.nmaster + i else x.nmaster - i }) s)
]

pub toggle_gaps : State → State
toggle_gaps s = elim s.selected [
  | none ↦ s
  | some m ↦ arrange_selected (on_monitor m (λ x. record x { gaps = not x.gaps }) s)
]

-- The actions that a key or a click on a tag can ask for.
pub data Action : Type 0 where
  viewing : ℕ → Action
  toggling_view : ℕ → Action
  tagging : ℕ → Action
  toggling_tag : ℕ → Action
  shifting_tag : ℤ → Action
  shifting_view : ℤ → Action
  setting_layout : Option ℕ → Action
  incrementing : Bool → ℕ → Action
  toggling_gaps : Action

pub act : ℕ → Action → State → State
act n (viewing ui) s = view n ui s
act n (toggling_view ui) s = toggle_view n ui s
act n (tagging ui) s = tag n ui s
act n (toggling_tag ui) s = toggle_tag n ui s
act n (shifting_tag step) s = shift_tag n step s
act n (shifting_view step) s = shift_view n step s
act n (setting_layout v) s = set_layout v s
act n (incrementing up i) s = inc_master up i s
act n toggling_gaps s = toggle_gaps s

abbrev pub run : ℕ → List Action → State → State
run n [] s = s
run n (a ∷ rest) s = run n rest (act n a s)
