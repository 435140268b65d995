-- ===== src/Notify/Icons/Handlers.antt =====
-- The handlers of src/desktop/notify/queue.c neither lose an icon nor destroy one twice.
use g0wm.Common.{ℕ, zero, suc, ◌+◌, ◌≡◌, refl, false, inl, inr, arith, length, Bool-cases}
use g0wm.Notify.{
  Reason, by_call, Env, State, notify_closed, redraw, arm, show, drop_unshown, bring_up,
  show_next_loop, show_next, show_or_next, put_away, clear,
}
use g0wm.Notify.Frame.{show-Shows, notify_closed-frame, arm-frame}
use g0wm.Notify.Bounds.{IsBounded, notify_closed-IsBounded}
use g0wm.Notify.Screen.{
  bring_up-IsBounded, drop_unshown-frame, put_away-frame, show-IsBounded, drop_unshown-IsBounded,
  put_away-IsBounded,
}
use g0wm.Notify.Icons.{holds_icon, stored, owned, stored-release}
use g0wm.Notify.Icons.Moves.{
  stored-history_push_cur, stored-show, stored-drop_unshown, owned-bring_up,
}

module _ (i : ℕ) where
  owned-show_next_loop :
      (env : Env) (k : ℕ) (s : State) → IsBounded s → owned i (show_next_loop env k s) ≡ owned i s
  unfolding show_next_loop
  owned-show_next_loop env zero s v = refl
  owned-show_next_loop env (suc k) s v = elim (Bool-cases s.active) [
    | inl e ↦ rw (e, show_next_loop) refl
    | inr e ↦ ground (
      arith,
      bring_up-IsBounded env s v,
      owned-bring_up i env s,
      owned-inactive s e,
      owned-show_next_loop env k (bring_up env s),
    )
  ]
    where
      owned-inactive : (s : State) → s.active ≡ false → owned i s ≡ stored i s
      owned-inactive s e = unfold owned in ground arith

  owned-show_next : (env : Env) (s : State) → IsBounded s → owned i (show_next env s) ≡ owned i s
  unfolding show_next
  owned-show_next env s v = owned-show_next_loop env (length s.queue) s v

  -- What the box held before, if anything, has gone elsewhere.
  pub owned-show_or_next :
      (env : Env) (s : State)
      → IsBounded s
      → owned i (show_or_next env s) ≡ stored i s + holds_icon i s.cur.icon
  unfolding show_or_next owned
  owned-show_or_next env s v =
      let t = (show env s).1 in
      let u = drop_unshown t in
      ground (
        arith,
        show-Shows env s,
        stored-show i env s,
        stored-drop_unshown i t,
        drop_unshown-frame t,
        show-IsBounded env s v,
        drop_unshown-IsBounded t,
        owned-show_next env u,
      )

  put_away-stored :
      (reason : Reason) (s : State)
      → stored i (put_away reason s) ≡ stored i s + holds_icon i s.cur.icon
  unfolding put_away
  put_away-stored by_call s = unfold stored in stored-release i s.cur.icon s
  put_away-stored _ s = stored-history_push_cur i s

  pub owned-redraw : (s : State) → owned i (redraw s) ≡ owned i s
  unfolding redraw owned stored
  owned-redraw s = ground arith

  -- Taking the notification down hands its icon to the history, or destroys it.
  pub owned-clear :
      (env : Env) (reason : Reason) (s : State)
      → IsBounded s
      → owned i (clear env reason s) ≡ owned i s
  unfolding clear owned stored
  owned-clear env reason s v =
      let s0 : State = record s { active = false; held = false } in
      let t = (arm env 0 s0).1 in
      let u = notify_closed t.cur.id reason t in
      let w = put_away reason u in
      ground (
        arith,
        arm-frame env 0 s0,
        notify_closed-frame t.cur.id reason t,
        notify_closed-IsBounded t.cur.id reason t,
        put_away-IsBounded reason u,
        put_away-stored reason u,
        put_away-frame reason u,
        owned-show_next env w,
        owned-redraw (show_next env w),
      )
