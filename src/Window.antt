-- ===== src/Window.antt =====
-- include/window/client.h, include/output/monitor.h: the clients and the monitors as the layouts see
-- them, and which client is visible where.
pub mod Order
pub mod Tags
pub mod Tile
mod Tests
use Prim.Native.Nat.{bit_and}
use g0wm.Common.{
  ℕ, Bool, true, false, not, ◌&&◌, Option, none, some, List, [], ◌∷◌, ◌==◌, if◌then◌else◌, find,
}

-- The fields of `Client` that the layouts read and write.
pub record Client : Type 0 where
  pub mon : Option ℕ
  pub tags : ℕ
  pub isfloating : Bool
  pub isfullscreen : Bool
  pub has_children : Bool

-- The fields of `Monitor` that choose what is visible. A layout is a number; the index of `tagset`
-- and of `lt` is a truth value, `taglt` and `tagsellt` are indexed by the lowest tag in view.
pub record Monitor : Type 0 where
  pub tagset : Bool → ℕ
  pub seltags : Bool
  pub lt : Bool → ℕ
  pub sellt : Bool
  pub taglt : ℕ → Bool → ℕ
  pub tagsellt : ℕ → Bool
  pub nmaster : ℕ
  pub gaps : Bool

-- What a layout action asks of the rest of the compositor.
pub data Request : Type 0 where
  focus : Option ℕ → Request
  focus_top : ℕ → Request
  arrange : ℕ → Request
  draw_bars : Request
  draw_selected : Request

-- The clients and monitors are the objects on the heap, by their addresses. `requests` holds the
-- calls that were made, newest first.
pub record State : Type 0 where
  pub client : ℕ → Client
  pub clients : List ℕ
  pub focus_stack : List ℕ
  pub monitor : ℕ → Monitor
  pub selected : Option ℕ
  pub requests : List Request

abbrev pub is_mon : Option ℕ → ℕ → Bool
is_mon none m = false
is_mon (some n) m = n == m

abbrev pub tagset_of : Monitor → ℕ
tagset_of m = m.tagset m.seltags

-- VISIBLEON
pub visible_on : State → ℕ → ℕ → Bool
visible_on s m c =
    is_mon (s.client c).mon m && not (bit_and (s.client c).tags (tagset_of (s.monitor m)) == 0)

-- `client_top`: the last focused client that is visible.
pub client_top : State → ℕ → Option ℕ
client_top s m = find (visible_on s m) s.focus_stack

-- `client_top(selected_monitor)`; without a monitor nothing is visible.
pub selection : State → Option ℕ
selection s = elim s.selected [ none ↦ none | some m ↦ client_top s m ]

abbrev pub ask : Request → State → State
ask r s = record s { requests = r ∷ s.requests }

-- Visible on the selected monitor.
abbrev pub visible : State → ℕ → Bool
visible s c = elim s.selected [ none ↦ false | some m ↦ visible_on s m c ]

-- `layout_arrange(selected_monitor)`
abbrev pub arrange_selected : State → State
arrange_selected s = elim s.selected [ none ↦ s | some m ↦ ask (arrange m) s ]
