-- ===== src/Notify/Icons.antt =====
-- Who owns an icon: each one is held by one notification on screen, in the queue or in the history,
-- or it has been destroyed.
pub mod Moves
pub mod Handlers
pub mod Hold
use g0wm.Common.{
  ℕ, zero, suc, ◌+◌, ◌≤◌, ◌<◌, ◌≡◌, refl, Bool, true, false, inl, inr, List, [], ◌∷◌, ◌++◌, Option,
  none, some, arith, ltb, ◌==◌, if◌then◌else◌, length, is_empty, get_elem?, get_elem?-some,
  remove_at, find_index, Bool-cases, Option-cases, Bytes,
}
use g0wm.Notify.{
  Reason, expired, dismissed, by_call, undefined, Notification, Env, State, blank, notify_closed,
  redraw, release, drop_hist, push_hist, history_push, hist_slot, hist_max, queue_max,
  history_push_cur, unqueue, or_first, make_room, put_queue, expires, enqueue, arm, show,
  drop_unshown, show_or_drop, next_index, bring_up, show_next_loop, show_next, show_or_next,
  put_away, clear,
}
use g0wm.Notify.Frame.{
  Shows, show-Shows, notify_closed-frame, arm-frame, history_push-SameButHistory,
}
use g0wm.Notify.Bounds.{IsBounded, unqueue-IsBounded, or_first-lt}
use g0wm.Notify.Screen.{next_index-lt, bring_up-IsBounded}

-- 1 if the icon is `i`.
abbrev pub holds_icon : ℕ → Option ℕ → ℕ
holds_icon i none = 0
holds_icon i (some j) = if j == i then 1 else 0

unfoldable pub icon_count : ℕ → List Notification → ℕ
icon_count i [] = 0
icon_count i (n ∷ ns) = holds_icon i n.icon + icon_count i ns

unfoldable pub count : ℕ → List ℕ → ℕ
count i [] = 0
count i (j ∷ js) = (if j == i then 1 else 0) + count i js

-- How often `i` stands in the arrays or among the destroyed icons.
unfoldable pub stored : ℕ → State → ℕ
stored i s = icon_count i s.queue + icon_count i s.hist + count i s.freed

-- The box included, while something is in it.
unfoldable pub owned : ℕ → State → ℕ
unfolding stored
owned i s = stored i s + (if s.active then holds_icon i s.cur.icon else 0)

icon_count-remove_at :
    (i k : ℕ) (ns : List Notification) {n : Notification}
    → get_elem? ns k ≡ some n
    → icon_count i ns ≡ holds_icon i n.icon + icon_count i (remove_at k ns)
unfolding icon_count
icon_count-remove_at i k [] e = cc
icon_count-remove_at i zero (m ∷ ns) e = ground arith
icon_count-remove_at i (suc k) (m ∷ ns) e = omega (arith, icon_count-remove_at i k ns e)

icon_count-append :
    (i : ℕ) (ns : List Notification) (n : Notification)
    → icon_count i (ns ++ n ∷ []) ≡ holds_icon i n.icon + icon_count i ns
unfolding icon_count
icon_count-append i [] n = refl
icon_count-append i (m ∷ ns) n = omega (arith, icon_count-append i ns n)

module _ (i : ℕ) where
  pub stored-release :
      (o : Option ℕ) (s : State) → stored i (release o s) ≡ stored i s + holds_icon i o
  unfolding stored release count
  stored-release none s = omega arith
  stored-release (some j) s = omega arith

  pub stored-drop_hist :
      (k : ℕ) (s : State) → k < length s.hist → stored i (drop_hist k s) ≡ stored i s
  unfolding stored drop_hist release count
  stored-drop_hist k s h =
      let (n, e) = get_elem?-some s.hist k h in
      ground (arith, e, icon_count-remove_at i k s.hist e, n.icon)

  push_hist-stored :
      (n : Notification) (s : State) → stored i (push_hist n s) ≡ stored i s + holds_icon i n.icon
  unfolding stored push_hist icon_count
  push_hist-stored n s = omega arith

  -- The history takes the icon over, or it is destroyed.
  pub stored-history_push :
      (n : Notification) (s : State)
      → stored i (history_push n s) ≡ stored i s + holds_icon i n.icon
  unfolding history_push
  stored-history_push n s =
      let k = hist_slot n s.hist in
      ground (
        arith,
        stored-release n.icon s,
        stored-drop_hist k s,
        push_hist-stored n s,
        push_hist-stored n (drop_hist k s),
      )

  pub stored-unqueue :
      (k : ℕ) (s : State)
      → k < length s.queue
      → stored i (unqueue k s).1 + holds_icon i (unqueue k s).0.icon ≡ stored i s
  unfolding stored unqueue
  stored-unqueue k s h =
      let (n, e) = get_elem?-some s.queue k h in
      ground (arith, e, icon_count-remove_at i k s.queue e)

  pub stored-closed :
      (id : ℕ) (reason : Reason) (s : State) → stored i (notify_closed id reason s) ≡ stored i s
  unfolding stored
  stored-closed id reason s = ground (arith, notify_closed-frame id reason s)
