-- ===== src/Notify/Valid.antt =====
-- What the handlers of src/desktop/notify/queue.c keep.
use g0wm.Common.{
  ℕ, zero, suc, ◌+◌, ◌≤◌, ◌<◌, ◌≡◌, refl, Bool, true, false, ◌⊎◌, inl, inr, [], arith, length,
  find_index, get_elem?, Bool-cases, Option-cases, Bytes,
}
use g0wm.Notify.{
  Reason, dismissed, Env, State, notify_closed, redraw, history_push_cur, unqueue, arm,
  unseen_critical, clear, enqueue, dismiss_all, dismiss_first, dismiss_loop, hold, hold_on,
  hold_off, promote, resume, time_left, shown_before, send_action, invoke_action, invoke, action,
  history_remove, drop_hist, called, default_key,
}
use g0wm.Notify.Frame.{
  history_push_cur-frame, history_push-SameButHistory, drop_hist-SameButHistory,
  notify_closed-frame, arm-frame,
}
use g0wm.Notify.Bounds.{
  IsBounded, notify_closed-IsBounded, redraw-IsBounded, drop_hist-IsBounded, history_push-IsBounded,
  history_push_cur-IsBounded, unqueue-IsBounded, enqueue-IsBounded,
}
use g0wm.Notify.Screen.{clear-idle, IsShown, clear-IsShown, show_or_next-IsShown, redraw-frame}

-- The arrays are in bounds, and while the box is not held nothing waits behind an empty box.
pub record IsValid (s : State) : Type 0 where
  pub bounded : IsBounded s
  pub shown : (s.held ≡ true) ⊎ IsShown s

pub clear-IsValid :
    (env : Env) (reason : Reason) (s : State) → IsValid s → IsValid (clear env reason s)
clear-IsValid env reason s v = elim (Bool-cases s.active) [
  | inl e ↦
      let w = clear-IsShown env reason s v.bounded e in record { bounded = w.0; shown = inr w.1 }
  | inr e ↦ rw (clear-idle env reason s e) v
]

pub redraw-IsValid : (s : State) → IsValid s → IsValid (redraw s)
redraw-IsValid s v = ground (arith, redraw-IsBounded s v.bounded, redraw-frame s)

arm-IsValid : (env : Env) (ms : ℕ) (s : State) → IsValid s → IsValid (arm env ms s).1
arm-IsValid env ms s v = ground (arith, arm-frame env ms s)

pub promote-IsValid :
    (env : Env) (i : ℕ) (s : State) → IsBounded s → i < length s.queue → IsValid (promote env i s)
unfolding promote
promote-IsValid env i s v h =
    let t = unqueue i s in
    let u : State = record (t.1) { active = false } in
    let w = enqueue u.cur true u in
    let x : State = record w { cur = t.0 } in
    ground
      (arith, unqueue-IsBounded i s v h, enqueue-IsBounded u.cur true u, show_or_next-IsShown env x)

pub resume-IsValid :
    (env : Env) (now : ℕ) (s : State) → IsBounded s → s.active ≡ true → IsValid (resume env now s)
unfolding resume
resume-IsValid env now s v a =
    let cur = record (s.cur) { shown_ms = shown_before now s.cur.timeout_ms s.heldleft } in
    ground (arith, arm-frame env s.heldleft (record s { cur = cur }))

hold_on-IsValid :
    (env : Env) (now : ℕ) (s : State) → IsBounded s → s.active ≡ true → IsValid (hold_on env now s)
unfolding hold_on
hold_on-IsValid env now s v a =
    ground (arith, arm-frame env 0 (record s { heldleft = time_left now s.cur }))

hold_off-IsValid :
    (env : Env) (now : ℕ) (s : State) → IsBounded s → s.active ≡ true → IsValid (hold_off env now s)
unfolding hold_off
hold_off-IsValid env now s v a = ground (
  arith,
  resume-IsValid env now s v a,
  promote-IsValid env (find_index unseen_critical s.queue) s v,
)

pub hold-IsValid : (env : Env) (on : Bool) (s : State) → IsValid s → IsValid (hold env on s)
unfolding hold
hold-IsValid env on s v =
    let now = env.clock s.calls in
    ground (
      arith,
      hold_on-IsValid env now (called s),
      hold_off-IsValid env now (record (called s) { held = false }),
    )

pub send_action-frame :
    (env : Env) (key : Bytes) (s : State)
    → send_action env key s ≡ record s {
      signals = (send_action env key s).signals;
      calls = (send_action env key s).calls;
    }
unfolding send_action
send_action-frame env key s = ground arith

invoke_action-IsValid :
    (env : Env) (key : Bytes) (s : State) → IsValid s → IsValid (invoke_action env key s)
unfolding invoke_action
invoke_action-IsValid env key s v =
    let t = send_action env key s in
    ground (
      arith,
      send_action-frame env key s,
      hold-IsValid env false t,
      redraw-IsValid (hold env false t),
      clear-IsValid env dismissed t,
    )

pub invoke-IsValid : (env : Env) (s : State) → IsValid s → IsValid (invoke env s)
unfolding invoke
invoke-IsValid env s v =
    ground (arith, invoke_action-IsValid env default_key s v, clear-IsValid env dismissed s v)

pub action-IsValid : (env : Env) (i : ℕ) (s : State) → IsValid s → IsValid (action env i s)
unfolding action
action-IsValid env i s v = elim (Option-cases (get_elem? s.cur.act i)) [
  | inl e ↦ rw (e, action) (ground arith)
  | inr (a, e) ↦ rw (e, action) (ground (arith, invoke_action-IsValid env a.key s v))
]

pub drop_hist-frame :
    (i : ℕ) (s : State)
    → ((drop_hist i s).queue ≡ s.queue)
      × ((drop_hist i s).active ≡ s.active)
      × ((drop_hist i s).held ≡ s.held)
drop_hist-frame i s = ground (arith, drop_hist-SameButHistory i s)

pub history_remove-IsValid : (i : ℕ) (s : State) → IsValid s → IsValid (history_remove i s)
unfolding history_remove
history_remove-IsValid i s v =
    ground (
      arith,
      drop_hist-IsBounded i s v.bounded,
      drop_hist-frame i s,
      redraw-IsValid (drop_hist i s),
    )

-- A round takes the first entry off the queue.
pub dismiss_first-frame :
    (s : State)
    → IsBounded s
    → 0 < length s.queue
    → IsBounded (dismiss_first s)
      × (length (dismiss_first s).queue + 1 ≡ length s.queue)
      × ((dismiss_first s).active ≡ s.active)
      × ((dismiss_first s).held ≡ s.held)
unfolding dismiss_first unqueue
dismiss_first-frame s v h =
    let t = unqueue 0 s in
    let u = notify_closed t.0.id dismissed t.1 in
    ground (
      arith,
      unqueue-IsBounded 0 s v,
      notify_closed-IsBounded t.0.id dismissed t.1,
      notify_closed-frame t.0.id dismissed t.1,
      history_push-IsBounded t.0 u,
      history_push-SameButHistory t.0 u,
    )

pub dismiss_loop-frame :
    (k : ℕ) (s : State)
    → IsBounded s
    → length s.queue ≤ k
    → IsBounded (dismiss_loop k s)
      × ((dismiss_loop k s).queue ≡ [])
      × ((dismiss_loop k s).active ≡ s.active)
      × ((dismiss_loop k s).held ≡ s.held)
unfolding dismiss_loop
dismiss_loop-frame zero s v h = (v, ground arith, refl, refl)
dismiss_loop-frame (suc k) s v h =
    ground (arith, dismiss_first-frame s v, dismiss_loop-frame k (dismiss_first s))

-- `notify_dismiss_all` empties the box and the queue, and leaves `held` as it was.
pub dismiss_all_empties :
    (env : Env) (s : State)
    → IsBounded s
    → s.active ≡ true
    → IsBounded (dismiss_all env s)
      × ((dismiss_all env s).queue ≡ [])
      × ((dismiss_all env s).active ≡ false)
      × ((dismiss_all env s).held ≡ s.held)
unfolding dismiss_all
dismiss_all_empties env s v a =
    let s0 : State = record s { active = false } in
    let t = (arm env 0 s0).1 in
    let u = notify_closed t.cur.id dismissed t in
    let w = history_push_cur u in
    let x = dismiss_loop (length w.queue) w in
    ground (
      arith,
      arm-frame env 0 s0,
      notify_closed-IsBounded t.cur.id dismissed t,
      notify_closed-frame t.cur.id dismissed t,
      history_push_cur-IsBounded u,
      history_push_cur-frame u,
      dismiss_loop-frame (length w.queue) w,
      redraw-IsBounded x,
      redraw-frame x,
    )

pub dismiss_all-idle : (env : Env) (s : State) → s.active ≡ false → dismiss_all env s ≡ s
unfolding dismiss_all
dismiss_all-idle env s e = ground arith

pub dismiss_all-IsValid : (env : Env) (s : State) → IsValid s → IsValid (dismiss_all env s)
dismiss_all-IsValid env s v = elim (Bool-cases s.active) [
  | inl e ↦
      let w = dismiss_all_empties env s v.bounded e in
      record { bounded = w.0; shown = inr (inr w.1) }
  | inr e ↦ rw (dismiss_all-idle env s e) v
]
