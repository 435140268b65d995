-- ===== src/Notify/Screen.antt =====
-- `notify_show`, `notify_show_next` and `notify_clear`: the arrays stay within bounds, and nothing
-- is left waiting in front of an empty box.
use g0wm.Common.{
  ℕ, zero, suc, ◌+◌, ◌≤◌, ◌<◌, ◌≡◌, refl, true, false, ◌⊎◌, inl, inr, List, [], arith, length,
  find_index, Bool-cases,
}
use g0wm.Notify.{
  Reason, by_call, undefined, Notification, Env, State, notify_closed, redraw, unqueue, arm, show,
  drop_unshown, show_or_drop, unseen_critical, next_index, bring_up, show_next_loop, show_next,
  show_or_next, put_away, clear, expires,
}
use g0wm.Notify.Frame.{
  release-SameButHistory, show-Shows, history_push_cur-frame, notify_closed-frame, arm-frame,
}
use g0wm.Notify.Bounds.{
  IsBounded, notify_closed-IsBounded, redraw-IsBounded, release-IsBounded,
  history_push_cur-IsBounded, unqueue-IsBounded, or_first-lt,
}

pub show-IsBounded : (env : Env) (s : State) → IsBounded s → IsBounded (show env s).1
show-IsBounded env s v = ground (arith, show-Shows env s)

pub drop_unshown-IsBounded : (s : State) → IsBounded s → IsBounded (drop_unshown s)
unfolding drop_unshown
drop_unshown-IsBounded s v =
    history_push_cur-IsBounded _ (notify_closed-IsBounded s.cur.id undefined s v)

-- Dropping the notification that cannot be shown leaves the queue and the flags.
pub drop_unshown-frame :
    (s : State)
    → ((drop_unshown s).queue ≡ s.queue)
      × ((drop_unshown s).active ≡ s.active)
      × ((drop_unshown s).held ≡ s.held)
unfolding drop_unshown
drop_unshown-frame s = ground (
  arith,
  notify_closed-frame s.cur.id undefined s,
  history_push_cur-frame (notify_closed s.cur.id undefined s),
)

pub next_index-lt : (queue : List Notification) → 0 < length queue → next_index queue < length queue
unfolding next_index
next_index-lt queue h = ground (
  arith,
  or_first-lt queue (find_index unseen_critical queue),
  or_first-lt queue (find_index expires queue),
)

show_or_drop-IsBounded : (env : Env) (s : State) → IsBounded s → IsBounded (show_or_drop env s)
unfolding show_or_drop
show_or_drop-IsBounded env s v =
    ground (arith, show-IsBounded env s v, drop_unshown-IsBounded (show env s).1)

show_or_drop-frame :
    (env : Env) (s : State)
    → ((show_or_drop env s).queue ≡ s.queue) × ((show_or_drop env s).held ≡ s.held)
unfolding show_or_drop
show_or_drop-frame env s = ground (arith, show-Shows env s, drop_unshown-frame (show env s).1)

-- A round takes one entry off the queue.
pub bring_up-IsBounded :
    (env : Env) (s : State)
    → IsBounded s
    → 0 < length s.queue
    → IsBounded (bring_up env s)
      × (length (bring_up env s).queue + 1 ≡ length s.queue)
      × ((bring_up env s).held ≡ s.held)
unfolding bring_up unqueue
bring_up-IsBounded env s v h =
    let i = next_index s.queue in
    let t = unqueue i s in
    let u : State = record (t.1) { cur = t.0 } in
    ground (
      arith,
      next_index-lt s.queue h,
      unqueue-IsBounded i s v,
      show_or_drop-IsBounded env u,
      show_or_drop-frame env u,
    )

-- Nothing waits while the box is empty.
abbrev pub IsShown : State → Type 0
IsShown s = (s.active ≡ true) ⊎ (s.queue ≡ [])

show_next_loop-IsShown :
    (env : Env) (k : ℕ) (s : State)
    → IsBounded s
    → length s.queue ≤ k
    → IsBounded (show_next_loop env k s)
      × IsShown (show_next_loop env k s)
      × ((show_next_loop env k s).held ≡ s.held)
unfolding show_next_loop
show_next_loop-IsShown env zero s v h = (v, inr (ground arith), refl)
show_next_loop-IsShown env (suc k) s v h =
    ground (arith, bring_up-IsBounded env s v, show_next_loop-IsShown env k (bring_up env s))

-- The loop of `notify_show_next` ends with the box taken or the queue empty.
pub show_next-IsShown :
    (env : Env) (s : State)
    → IsBounded s
    → IsBounded (show_next env s) × IsShown (show_next env s) × ((show_next env s).held ≡ s.held)
unfolding show_next
show_next-IsShown env s v = show_next_loop-IsShown env (length s.queue) s v (omega arith)

pub show_or_next-IsShown :
    (env : Env) (s : State)
    → IsBounded s
    → IsBounded (show_or_next env s)
      × IsShown (show_or_next env s)
      × ((show_or_next env s).held ≡ s.held)
unfolding show_or_next
show_or_next-IsShown env s v = ground (
  arith,
  show-Shows env s,
  show-IsBounded env s v,
  drop_unshown-IsBounded (show env s).1,
  drop_unshown-frame (show env s).1,
  show_next-IsShown env (drop_unshown (show env s).1),
)

pub put_away-IsBounded : (reason : Reason) (s : State) → IsBounded s → IsBounded (put_away reason s)
unfolding put_away
put_away-IsBounded by_call s v = ground (arith, release-IsBounded s.cur.icon s v)
put_away-IsBounded _ s v = history_push_cur-IsBounded s v

pub put_away-frame :
    (reason : Reason) (s : State)
    → ((put_away reason s).queue ≡ s.queue)
      × ((put_away reason s).active ≡ s.active)
      × ((put_away reason s).held ≡ s.held)
unfolding put_away
put_away-frame by_call s = ground (arith, release-SameButHistory s.cur.icon s)
put_away-frame _ s = ground (arith, history_push_cur-frame s)

pub redraw-frame :
    (s : State)
    → ((redraw s).queue ≡ s.queue) × ((redraw s).active ≡ s.active) × ((redraw s).held ≡ s.held)
unfolding redraw
redraw-frame s = ground arith

-- After `notify_clear` the next one is on screen, or none is left; the box is no longer held.
pub clear-IsShown :
    (env : Env) (reason : Reason) (s : State)
    → IsBounded s
    → s.active ≡ true
    → IsBounded (clear env reason s)
      × IsShown (clear env reason s)
      × ((clear env reason s).held ≡ false)
unfolding clear
clear-IsShown env reason s v h =
    let s0 : State = record s { active = false; held = false } in
    let t = (arm env 0 s0).1 in
    let u = notify_closed t.cur.id reason t in
    let w = put_away reason u in
    ground (
      arith,
      arm-frame env 0 s0,
      notify_closed-IsBounded t.cur.id reason t,
      notify_closed-frame t.cur.id reason t,
      put_away-IsBounded reason u,
      put_away-frame reason u,
      show_next-IsShown env w,
      redraw-IsBounded (show_next env w),
      redraw-frame (show_next env w),
    )

pub clear-idle :
    (env : Env) (reason : Reason) (s : State) → s.active ≡ false → clear env reason s ≡ s
unfolding clear
clear-idle env reason s e = ground arith

pub clear-IsBounded :
    (env : Env) (reason : Reason) (s : State) → IsBounded s → IsBounded (clear env reason s)
clear-IsBounded env reason s v = elim (Bool-cases s.active) [
  | inl e ↦ (clear-IsShown env reason s v e).0
  | inr e ↦ rw (clear-idle env reason s e) v
]

show_next-empty : (env : Env) (s : State) → s.queue ≡ [] → show_next env s ≡ s
unfolding show_next show_next_loop
show_next-empty env s e = ground arith

-- With an empty queue nothing takes the place of what is taken down.
pub clear-empty :
    (env : Env) (reason : Reason) (s : State)
    → s.queue ≡ []
    → ((clear env reason s).queue ≡ []) × ((clear env reason s).active ≡ false)
unfolding clear
clear-empty env reason s e =
    let s0 : State = record s { active = false; held = false } in
    let t = (arm env 0 s0).1 in
    let u = notify_closed t.cur.id reason t in
    let w = put_away reason u in
    ground (
      arith,
      arm-frame env 0 s0,
      notify_closed-frame t.cur.id reason t,
      put_away-frame reason u,
      show_next-empty env w,
      redraw-frame w,
    )
