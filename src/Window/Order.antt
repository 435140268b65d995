-- ===== src/Window/Order.antt =====
-- src/window/layout.c: the actions on the tiling order.
pub mod Swap
pub mod Cycle
pub mod Moves
use g0wm.Common.{
  ℕ, ◌≤◌, Bool, true, false, not, ◌&&◌, ◌||◌, Option, none, some, List, [], ◌∷◌, ◌++◌, ◌==◌, ltb,
  leb, if◌then◌else◌, length, is_empty, remove, insert_after, prev_of, last_or, find,
}
use g0wm.Window.{State, focus, selection, visible, ask, arrange_selected}

-- Whether `p` is the link of `c`.
abbrev pub is_link : Option ℕ → ℕ → Bool
is_link none c = false
is_link (some p) c = p == c

-- `layout_swap_clients` on the list `clients`.
pub swap : ℕ → ℕ → List ℕ → List ℕ
swap first second xs =
    let first_prev = prev_of first xs in
    let second_prev = prev_of second xs in
    if is_link first_prev second
    then insert_after second_prev first (remove first xs)
    else if is_link second_prev first
    then insert_after first_prev second (remove second xs)
    else insert_after first_prev second
        (insert_after second_prev first (remove second (remove first xs)))

pub swap_clients : ℕ → ℕ → State → State
swap_clients first second s = record s { clients = swap first second s.clients }

-- The entries before and behind `c`.
abbrev pub before : ℕ → List ℕ → List ℕ
before c [] = []
before c (x ∷ xs) = if x == c then [] else x ∷ before c xs

abbrev pub behind : ℕ → List ℕ → List ℕ
behind c [] = []
behind c (x ∷ xs) = if x == c then xs else behind c xs

abbrev pub backwards : List ℕ → List ℕ
backwards [] = []
backwards (x ∷ xs) = backwards xs ++ x ∷ []

abbrev pub or_self : Option ℕ → ℕ → ℕ
or_self none c = c
or_self (some d) c = d

-- The walk of `layout_focus_stack` from `sel` round the list, past the sentinel: the next visible
-- client, or `sel` itself at the end of the round.
pub next_visible : (ℕ → Bool) → ℕ → List ℕ → ℕ
next_visible vis sel xs = or_self (find vis (behind sel xs ++ before sel xs)) sel

pub prev_visible : (ℕ → Bool) → ℕ → List ℕ → ℕ
prev_visible vis sel xs =
    or_self (find vis (backwards (before sel xs) ++ backwards (behind sel xs))) sel

-- `forward` is `arg->i > 0`.
pub focus_stack : Bool → State → State
focus_stack forward s = elim (selection s) [
  | none ↦ s
  | some sel ↦
      if (s.client sel).isfullscreen && not (s.client sel).has_children
      then s
      else ask
          (focus (
            some (
              if forward
              then next_visible (visible s) sel s.clients
              else prev_visible (visible s) sel s.clients)))
          s
]

-- Where `layout_move_stack` puts `sel`: behind the next visible client, or at the head if there is
-- none; going backwards, before the previous visible one, or behind the last entry of the list.
pub target : Bool → (ℕ → Bool) → ℕ → List ℕ → Option ℕ
target true vis sel xs = find vis (behind sel xs)
target false vis sel xs = elim (find vis (backwards (before sel xs))) [
  | none ↦ last_or none xs
  | some c ↦ prev_of c xs
]

-- What `layout_move_stack` makes of the clients; a lone one stays.
pub move : Bool → (ℕ → Bool) → ℕ → List ℕ → List ℕ
move forward vis sel xs =
    if leb (length xs) 1 then xs else insert_after (target forward vis sel xs) sel (remove sel xs)

pub move_stack : Bool → State → State
move_stack forward s = elim (selection s) [
  | none ↦ s
  | some sel ↦
      if leb (length s.clients) 1
      then s
      else arrange_selected (record s { clients = move forward (visible s) sel s.clients })
]

-- The search of `layout_zoom` for the first tiled client other than `sel`, with whether `sel` was
-- passed on the way.
pub zoom_scan : (ℕ → Bool) → ℕ → Bool → List ℕ → Option (ℕ × Bool)
zoom_scan tiled sel passed [] = none
zoom_scan tiled sel passed (c ∷ cs) =
    let rest = zoom_scan tiled sel (passed || (tiled c && (c == sel))) cs in
    if tiled c && not (c == sel) then some (c, passed) else rest

pub to_front : ℕ → List ℕ → List ℕ
to_front c xs = c ∷ remove c xs

-- `none` if there is no other tiled client.
pub zoom_target : (ℕ → Bool) → ℕ → List ℕ → Option ℕ
zoom_target tiled sel xs = elim (zoom_scan tiled sel false xs) [
  | none ↦ none
  | some (c, passed) ↦ some (if passed then c else sel)
]

abbrev pub tiled : State → ℕ → Bool
tiled s c = visible s c && not (s.client c).isfloating

pub zoom : State → State
zoom s = elim (selection s) [
  | none ↦ s
  | some sel ↦ if (s.client sel).isfloating then s else elim (zoom_target (tiled s) sel s.clients) [
    | none ↦ s
    | some c ↦ arrange_selected (ask (focus (some c)) (record s { clients = to_front c s.clients }))
  ]
]
