-- ===== src/Notify/Icons/Moves.antt =====
-- The moves of src/desktop/notify/queue.c neither lose an icon nor destroy one twice.
use g0wm.Common.{ℕ, ◌+◌, ◌<◌, ◌≡◌, refl, Bool, true, false, arith, length, find_index}
use g0wm.Notify.{
  undefined, Notification, Env, State, notify_closed, history_push_cur, unqueue, or_first,
  make_room, put_queue, expires, enqueue, show, drop_unshown, show_or_drop, next_index, bring_up,
}
use g0wm.Notify.Frame.{show-Shows, notify_closed-frame}
use g0wm.Notify.Bounds.{or_first-lt}
use g0wm.Notify.Screen.{next_index-lt, drop_unshown-frame}
use g0wm.Notify.Icons.{
  holds_icon, icon_count, stored, owned, stored-history_push, stored-unqueue, stored-closed,
  icon_count-append,
}

module _ (i : ℕ) where
  pub stored-history_push_cur :
      (s : State) → stored i (history_push_cur s) ≡ stored i s + holds_icon i s.cur.icon
  unfolding history_push_cur
  stored-history_push_cur s = unfold stored in stored-history_push i s.cur s

  stored-make_room : (s : State) → stored i (make_room s) ≡ stored i s
  unfolding make_room
  stored-make_room s =
      let k = or_first s.queue (find_index expires s.queue) in
      let t = unqueue k s in
      ground (
        arith,
        or_first-lt s.queue (find_index expires s.queue),
        stored-unqueue i k s,
        stored-closed i t.0.id undefined t.1,
        stored-history_push i t.0 (notify_closed t.0.id undefined t.1),
      )

  put_queue-stored :
      (n : Notification) (front : Bool) (s : State)
      → stored i (put_queue n front s) ≡ stored i s + holds_icon i n.icon
  unfolding stored put_queue icon_count
  put_queue-stored n true s = omega arith
  put_queue-stored n false s = omega (arith, icon_count-append i s.queue n)

  pub stored-enqueue :
      (n : Notification) (front : Bool) (s : State)
      → stored i (enqueue n front s) ≡ stored i s + holds_icon i n.icon
  unfolding enqueue
  stored-enqueue n front s =
      omega (arith, put_queue-stored n front (make_room s), stored-make_room s)

  -- Showing moves no icon.
  pub stored-show : (env : Env) (s : State) → stored i (show env s).1 ≡ stored i s
  unfolding stored
  stored-show env s = ground (arith, show-Shows env s)

  pub stored-drop_unshown :
      (s : State) → stored i (drop_unshown s) ≡ stored i s + holds_icon i s.cur.icon
  unfolding drop_unshown
  stored-drop_unshown s = ground (
    arith,
    stored-closed i s.cur.id undefined s,
    notify_closed-frame s.cur.id undefined s,
    stored-history_push_cur (notify_closed s.cur.id undefined s),
  )

  pub owned-show_or_drop :
      (env : Env) (s : State) → owned i (show_or_drop env s) ≡ stored i s + holds_icon i s.cur.icon
  unfolding show_or_drop owned
  owned-show_or_drop env s =
      let t = (show env s).1 in
      ground
        (arith, show-Shows env s, stored-show env s, stored-drop_unshown t, drop_unshown-frame t)

  pub owned-bring_up :
      (env : Env) (s : State) → 0 < length s.queue → owned i (bring_up env s) ≡ stored i s
  unfolding bring_up
  owned-bring_up env s h =
      let k = next_index s.queue in
      let t = unqueue k s in
      ground (
        arith,
        next_index-lt s.queue h,
        stored-unqueue i k s,
        owned-show_or_drop env (record (t.1) { cur = t.0 }),
        stored-cur t.0 t.1,
      )
    where
      stored-cur : (n : Notification) (u : State) → stored i (record u { cur = n }) ≡ stored i u
      stored-cur n u = unfold stored in refl
