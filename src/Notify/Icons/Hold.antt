-- ===== src/Notify/Icons/Hold.antt =====
-- Holding, invoking and dismissing neither lose an icon nor destroy one twice.
use g0wm.Common.{
  ℕ, zero, suc, ◌<◌, ◌≡◌, refl, Bool, true, false, inl, inr, arith, length, get_elem?, find_index,
  Option-cases, Bytes,
}
use g0wm.Notify.{
  dismissed, Notification, Env, State, notify_closed, drop_hist, history_push_cur, unqueue, enqueue,
  arm, unseen_critical, hold, hold_on, hold_off, promote, resume, send_action, invoke_action,
  invoke, action, history_remove, dismiss_all, dismiss_first, dismiss_loop, time_left, shown_before,
  called, default_key,
}
use g0wm.Notify.Frame.{
  notify_closed-frame, arm-frame, drop_hist-SameButHistory, history_push_cur-frame,
}
use g0wm.Notify.Bounds.{
  IsBounded, unqueue-IsBounded, notify_closed-IsBounded, history_push_cur-IsBounded,
  enqueue-IsBounded,
}
use g0wm.Notify.Valid.{dismiss_first-frame, dismiss_loop-frame, send_action-frame}
use g0wm.Notify.Icons.{
  stored, owned, stored-history_push, stored-unqueue, stored-closed, stored-drop_hist,
}
use g0wm.Notify.Icons.Moves.{stored-history_push_cur, stored-enqueue}
use g0wm.Notify.Icons.Handlers.{owned-show_or_next, owned-clear, owned-redraw}

module _ (i : ℕ) where
  owned-promote :
      (env : Env) (k : ℕ) (s : State)
      → IsBounded s
      → k < length s.queue
      → s.active ≡ true
      → owned i (promote env k s) ≡ owned i s
  unfolding promote owned
  owned-promote env k s v h a =
      let t = unqueue k s in
      let u : State = record (t.1) { active = false } in
      let w = enqueue u.cur true u in
      ground (
        arith,
        unqueue-IsBounded k s v h,
        stored-unqueue i k s h,
        unqueue-cur k s,
        stored-inactive t.1,
        enqueue-IsBounded u.cur true u,
        stored-enqueue i u.cur true u,
        stored-cur t.0 w,
        owned-show_or_next i env (record w { cur = t.0 }),
      )
    where
      stored-cur : (n : Notification) (u : State) → stored i (record u { cur = n }) ≡ stored i u
      stored-cur n u = unfold stored in refl

      stored-inactive : (u : State) → stored i (record u { active = false }) ≡ stored i u
      stored-inactive u = unfold stored in refl

      unqueue-cur : (k : ℕ) (u : State) → (unqueue k u).1.cur ≡ u.cur
      unqueue-cur k u = unfold unqueue in ground arith

  owned-resume : (env : Env) (now : ℕ) (s : State) → owned i (resume env now s) ≡ owned i s
  unfolding resume owned stored
  owned-resume env now s =
      let cur = record (s.cur) { shown_ms = shown_before now s.cur.timeout_ms s.heldleft } in
      ground (arith, arm-frame env s.heldleft (record s { cur = cur }))

  owned-hold_on : (env : Env) (now : ℕ) (s : State) → owned i (hold_on env now s) ≡ owned i s
  unfolding hold_on owned stored
  owned-hold_on env now s =
      ground (arith, arm-frame env 0 (record s { heldleft = time_left now s.cur }))

  owned-hold_off :
      (env : Env) (now : ℕ) (s : State)
      → IsBounded s
      → s.active ≡ true
      → owned i (hold_off env now s) ≡ owned i s
  unfolding hold_off
  owned-hold_off env now s v a =
      ground
        (arith, owned-promote env (find_index unseen_critical s.queue) s v, owned-resume env now s)

  owned-released : (s : State) → owned i (record (called s) { held = false }) ≡ owned i s
  unfolding owned stored
  owned-released s = refl

  owned-called : (s : State) → owned i (called s) ≡ owned i s
  unfolding owned stored
  owned-called s = refl

  pub owned-hold :
      (env : Env) (on : Bool) (s : State) → IsBounded s → owned i (hold env on s) ≡ owned i s
  unfolding hold
  owned-hold env on s v =
      let now = env.clock s.calls in
      ground (
        arith,
        owned-called s,
        owned-released s,
        owned-hold_on env now (called s),
        owned-hold_off env now (record (called s) { held = false }),
      )

  owned-invoke_action :
      (env : Env) (key : Bytes) (s : State)
      → IsBounded s
      → owned i (invoke_action env key s) ≡ owned i s
  unfolding invoke_action
  owned-invoke_action env key s v =
      let t = send_action env key s in
      ground (
        arith,
        owned-sent,
        send_action-frame env key s,
        owned-hold env false t,
        owned-redraw i (hold env false t),
        owned-clear i env dismissed t,
      )
    where
      owned-sent : owned i (send_action env key s) ≡ owned i s
      owned-sent = unfold owned stored in ground (arith, send_action-frame env key s)

  pub owned-invoke : (env : Env) (s : State) → IsBounded s → owned i (invoke env s) ≡ owned i s
  unfolding invoke
  owned-invoke env s v =
      ground (arith, owned-invoke_action env default_key s v, owned-clear i env dismissed s v)

  pub owned-action :
      (env : Env) (k : ℕ) (s : State) → IsBounded s → owned i (action env k s) ≡ owned i s
  unfolding action
  owned-action env k s v = elim (Option-cases (get_elem? s.cur.act k)) [
    | inl e ↦ rw (e, action) (ground arith)
    | inr (a, e) ↦ rw (e, action) (ground (arith, owned-invoke_action env a.key s v))
  ]

  pub owned-history_remove : (k : ℕ) (s : State) → owned i (history_remove k s) ≡ owned i s
  unfolding history_remove owned
  owned-history_remove k s =
      ground (
        arith,
        stored-drop_hist i k s,
        drop_hist-SameButHistory k s,
        owned-redraw i (drop_hist k s),
      )

  stored-dismiss_first : (s : State) → 0 < length s.queue → stored i (dismiss_first s) ≡ stored i s
  unfolding dismiss_first
  stored-dismiss_first s h =
      let t = unqueue 0 s in
      ground (
        arith,
        stored-unqueue i 0 s h,
        stored-closed i t.0.id dismissed t.1,
        stored-history_push i t.0 (notify_closed t.0.id dismissed t.1),
      )

  stored-dismiss_loop : (k : ℕ) (s : State) → IsBounded s → stored i (dismiss_loop k s) ≡ stored i s
  unfolding dismiss_loop
  stored-dismiss_loop zero s v = refl
  stored-dismiss_loop (suc k) s v = ground (
    arith,
    stored-dismiss_first s,
    dismiss_first-frame s v,
    stored-dismiss_loop k (dismiss_first s),
  )

  pub owned-dismiss_all :
      (env : Env) (s : State) → IsBounded s → owned i (dismiss_all env s) ≡ owned i s
  unfolding dismiss_all owned stored
  owned-dismiss_all env s v =
      let s0 : State = record s { active = false } in
      let t = (arm env 0 s0).1 in
      let u = notify_closed t.cur.id dismissed t in
      let w = history_push_cur u in
      let x = dismiss_loop (length w.queue) w in
      ground (
        arith,
        arm-frame env 0 s0,
        notify_closed-IsBounded t.cur.id dismissed t,
        notify_closed-frame t.cur.id dismissed t,
        history_push_cur-IsBounded u,
        stored-history_push_cur i u,
        history_push_cur-frame u,
        stored-dismiss_loop (length w.queue) w,
        dismiss_loop-frame (length w.queue) w,
        owned-redraw i x,
      )
