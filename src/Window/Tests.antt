-- ===== src/Window/Tests.antt =====
-- The theorems on src/window/layout.c at concrete clients and monitors.
use g0wm.Common.{
  ℕ, ◌%◌, ◌≡◌, refl, Bool, true, false, some, List, [], ◌∷◌, ◌==◌, if◌then◌else◌, occurrences,
  arith, Distinct,
}
use g0wm.Window.{Client, Monitor, State}
use g0wm.Window.Order.{swap, move, next_visible, prev_visible}
use g0wm.Window.Order.Swap.{swap_exchanges}
use g0wm.Window.Order.Moves.{move_keeps, move_loses}
use g0wm.Window.Order.Cycle.{prev_visible-next_visible}
use g0wm.Window.Tags.{
  Action, run, viewing, toggling_view, shifting_tag, view, tag_beside, pos, bit_width,
}
use g0wm.Window.Tags.Sets.{HasTags, run-HasTags}
use g0wm.Window.Tags.Layouts.{SameView, view_back}
use g0wm.Window.Tags.Beside.{IsBeside, tag_beside_next}

abbrev order : List ℕ
order = 1 ∷ 2 ∷ 3 ∷ 4 ∷ []

order-Distinct : Distinct order
order-Distinct = (refl, (refl, (refl, (refl, tt))))

abbrev odd : ℕ → Bool
odd c = c % 2 == 1

swap_exchanges_example :
    (swap 2 4 order ≡ 1 ∷ 4 ∷ 3 ∷ 2 ∷ []) × (swap 4 2 order ≡ 1 ∷ 4 ∷ 3 ∷ 2 ∷ [])
swap_exchanges_example = swap_exchanges 2 4 (1 ∷ []) (3 ∷ []) [] order-Distinct

move_keeps_example : occurrences 3 (move false odd 3 order) ≡ 1
move_keeps_example = move_keeps false odd 3 3 order refl refl

move_loses_example : move false (λ c. c == 4) 4 order ≡ 1 ∷ 2 ∷ 3 ∷ []
move_loses_example = move_loses (λ c. c == 4) 4 order (omega arith) order-Distinct refl

prev_visible-next_visible_example : prev_visible odd (next_visible odd 3 order) order ≡ 3
prev_visible-next_visible_example = prev_visible-next_visible odd 3 order order-Distinct refl refl

abbrev a_client : Client
a_client = record {
  mon = some 7;
  tags = 1;
  isfloating = false;
  isfullscreen = false;
  has_children = false;
}

abbrev a_monitor : Monitor
a_monitor = record {
  tagset = λ slot. 1;
  seltags = false;
  lt = λ slot. if slot then 1 else 0;
  sellt = false;
  taglt = λ i slot. 0;
  tagsellt = λ i. false;
  nmaster = 1;
  gaps = true;
}

abbrev a_state : State
a_state = record {
  client = λ c. a_client;
  clients = order;
  focus_stack = order;
  monitor = λ m. a_monitor;
  selected = some 7;
  requests = [];
}

a_state-HasTags : HasTags 9 a_state
a_state-HasTags = (λ c. (refl, omega arith), λ m b. (refl, omega arith))

abbrev some_actions : List Action
some_actions = viewing 6 ∷ toggling_view 4 ∷ shifting_tag (pos 1) ∷ viewing 0 ∷ []

run-HasTags_example : HasTags 9 (run 9 some_actions a_state)
run-HasTags_example = run-HasTags 9 some_actions a_state a_state-HasTags

view_back_example : SameView ((view 9 1 (view 9 4 a_state)).monitor 7) a_monitor
view_back_example = view_back 9 4 7 a_state a_state-HasTags refl refl

tag_beside-six : tag_beside 9 6 (pos 1) ≡ some 3
unfolding tag_beside bit_width
tag_beside-six = refl

tag_beside_next_example : IsBeside 9 6 (pos 1) 3
tag_beside_next_example = tag_beside_next 9 6 3 (pos 1) (omega arith) (omega arith) tag_beside-six
