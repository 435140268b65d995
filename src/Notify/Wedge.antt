-- ===== src/Notify/Wedge.antt =====
-- Who holds the box: the queue side. A box may be held with nothing in it only after
-- `notify_dismiss_all`, and then no handler lets go of it.
use g0wm.Common.{
  ℕ, ◌≡◌, Bool, true, false, ◌⊎◌, inl, inr, arith, find_index, get_elem?, Option-cases, Bool-cases,
  Bytes, length, ◌<◌,
}
use g0wm.Notify.{
  Reason, Env, State, clear, dismissed, dismiss_all, hold, hold_on, hold_off, promote, resume,
  invoke, invoke_action, send_action, action, history_remove, show_or_next, unqueue, enqueue,
  called, drop_hist, time_left, shown_before, unseen_critical, default_key,
}
use g0wm.Notify.Frame.{arm-frame, show-Shows}
use g0wm.Notify.Bounds.{IsBounded, unqueue-IsBounded, enqueue-IsBounded, enqueue-frame}
use g0wm.Notify.Screen.{clear-idle, clear-IsShown, redraw-frame, show_or_next-IsShown}
use g0wm.Notify.Valid.{drop_hist-frame, send_action-frame, dismiss_all_empties, dismiss_all-idle}

-- The box is held, and nothing is in it.
pub record IsWedged (s : State) : Type 0 where
  pub inactive : s.active ≡ false
  pub held : s.held ≡ true

module _ (env : Env) (s : State) (w : IsWedged s) where
  pub clear-IsWedged : (reason : Reason) → IsWedged (clear env reason s)
  clear-IsWedged reason = rw (clear-idle env reason s w.inactive) w

  pub hold-IsWedged : (on : Bool) → IsWedged (hold env on s)
  unfolding hold
  hold-IsWedged on = ground arith

  pub invoke-IsWedged : IsWedged (invoke env s)
  unfolding invoke
  invoke-IsWedged = ground arith

  pub action-IsWedged : (i : ℕ) → IsWedged (action env i s)
  unfolding action
  action-IsWedged i = ground arith

  pub dismiss_all-IsWedged : IsWedged (dismiss_all env s)
  unfolding dismiss_all
  dismiss_all-IsWedged = ground arith

  pub history_remove-IsWedged : (i : ℕ) → IsWedged (history_remove i s)
  unfolding history_remove
  history_remove-IsWedged i = ground (arith, drop_hist-frame i s, redraw-frame (drop_hist i s))

-- Dismissing everything while the box is held leaves it held with nothing in it.
pub dismiss_all_wedges :
    (env : Env) (s : State)
    → IsBounded s
    → s.active ≡ true
    → s.held ≡ true
    → IsWedged (dismiss_all env s)
dismiss_all_wedges env s v a h = ground (arith, dismiss_all_empties env s v a)

-- A held box has something in it.
abbrev pub IsHeldFull : State → Type 0
IsHeldFull s = (s.held ≡ false) ⊎ (s.active ≡ true)

pub show_or_next-held : (env : Env) (s : State) → s.held ≡ true → (show_or_next env s).active ≡ true
unfolding show_or_next
show_or_next-held env s h = ground (arith, show-Shows env s)

pub show_or_next-IsHeldFull :
    (env : Env) (s : State) → IsBounded s → IsHeldFull (show_or_next env s)
show_or_next-IsHeldFull env s v = elim (Bool-cases s.held) [
  | inl e ↦ inr (show_or_next-held env s e)
  | inr e ↦ inl (ground (arith, show_or_next-IsShown env s v))
]

pub clear-IsHeldFull :
    (env : Env) (reason : Reason) (s : State)
    → IsBounded s
    → IsHeldFull s
    → IsHeldFull (clear env reason s)
clear-IsHeldFull env reason s v f = elim (Bool-cases s.active) [
  | inl e ↦ inl (clear-IsShown env reason s v e).2
  | inr e ↦ rw (clear-idle env reason s e) f
]

promote-held :
    (env : Env) (i : ℕ) (s : State)
    → IsBounded s
    → i < length s.queue
    → (promote env i s).held ≡ s.held
unfolding promote unqueue
promote-held env i s v h =
    let t = unqueue i s in
    let u : State = record (t.1) { active = false } in
    let w = enqueue u.cur true u in
    ground (
      arith,
      unqueue-IsBounded i s v h,
      enqueue-IsBounded u.cur true u,
      enqueue-frame u.cur true u,
      show_or_next-IsShown env (record w { cur = t.0 }),
    )

resume-held : (env : Env) (now : ℕ) (s : State) → (resume env now s).held ≡ s.held
unfolding resume
resume-held env now s =
    let cur = record (s.cur) { shown_ms = shown_before now s.cur.timeout_ms s.heldleft } in
    ground (arith, arm-frame env s.heldleft (record s { cur = cur }))

hold_on-active : (env : Env) (now : ℕ) (s : State) → (hold_on env now s).active ≡ s.active
unfolding hold_on
hold_on-active env now s =
    ground (arith, arm-frame env 0 (record s { heldleft = time_left now s.cur }))

hold_off-held : (env : Env) (now : ℕ) (s : State) → IsBounded s → (hold_off env now s).held ≡ s.held
unfolding hold_off
hold_off-held env now s v =
    ground (arith, promote-held env (find_index unseen_critical s.queue) s v, resume-held env now s)

pub hold-IsHeldFull :
    (env : Env) (on : Bool) (s : State) → IsBounded s → IsHeldFull s → IsHeldFull (hold env on s)
unfolding hold
hold-IsHeldFull env on s v f =
    let now = env.clock s.calls in
    ground (
      arith,
      hold_on-active env now (called s),
      hold_off-held env now (record (called s) { held = false }),
    )

invoke_action-IsHeldFull :
    (env : Env) (key : Bytes) (s : State)
    → IsBounded s
    → IsHeldFull s
    → IsHeldFull (invoke_action env key s)
unfolding invoke_action
invoke_action-IsHeldFull env key s v f =
    let t = send_action env key s in
    ground (
      arith,
      send_action-frame env key s,
      hold-IsHeldFull env false t,
      redraw-frame (hold env false t),
      clear-IsHeldFull env dismissed t,
    )

pub invoke-IsHeldFull :
    (env : Env) (s : State) → IsBounded s → IsHeldFull s → IsHeldFull (invoke env s)
unfolding invoke
invoke-IsHeldFull env s v f =
    ground
      (arith, invoke_action-IsHeldFull env default_key s v f, clear-IsHeldFull env dismissed s v f)

pub action-IsHeldFull :
    (env : Env) (i : ℕ) (s : State) → IsBounded s → IsHeldFull s → IsHeldFull (action env i s)
unfolding action
action-IsHeldFull env i s v f = elim (Option-cases (get_elem? s.cur.act i)) [
  | inl e ↦ rw (e, action) (ground arith)
  | inr (a, e) ↦ rw (e, action) (ground (arith, invoke_action-IsHeldFull env a.key s v f))
]

pub history_remove-IsHeldFull : (i : ℕ) (s : State) → IsHeldFull s → IsHeldFull (history_remove i s)
unfolding history_remove
history_remove-IsHeldFull i s f = ground (arith, drop_hist-frame i s, redraw-frame (drop_hist i s))

pub dismiss_all-IsHeldFull :
    (env : Env) (s : State) → IsBounded s → s.held ≡ false → IsHeldFull (dismiss_all env s)
dismiss_all-IsHeldFull env s v h = elim (Bool-cases s.active) [
  | inl e ↦ inl (ground (arith, dismiss_all_empties env s v e))
  | inr e ↦ inl (ground (arith, dismiss_all-idle env s e))
]
