-- ===== src/Notify/Server/Wedge.antt =====
-- Who holds the box: what clients do.
use g0wm.Common.{ℕ, zero, suc, ◌≡◌, refl, Bool, true, false, inl, arith, find_index, length, ◌==◌}
use g0wm.Notify.{
  by_call, undefined, Notification, Env, State, clear, release, unqueue, notify_closed, is_critical,
  enqueue, arm,
}
use g0wm.Notify.Server.{
  set_timeout, start, deliver, place, take_box, pick_id, replace_queued, close_call, stop,
  stop_queue, stop_first,
}
use g0wm.Notify.Frame.{release-SameButHistory, notify_closed-frame, arm-frame}
use g0wm.Notify.Bounds.{IsBounded, enqueue-frame, enqueue-IsBounded, release-IsBounded}
use g0wm.Notify.Screen.{redraw-frame, show_or_next-IsShown}
use g0wm.Notify.Wedge.{
  IsWedged, clear-IsWedged, IsHeldFull, show_or_next-IsHeldFull, clear-IsHeldFull,
}
use g0wm.Notify.Server.Valid.{pick_id-frame, release_all-frame, stop_queue-frame}

replace_queued-IsWedged :
    (i : ℕ) (n : Notification) (s : State) → IsWedged s → IsWedged (replace_queued i n s)
unfolding replace_queued release
replace_queued-IsWedged i n s w = ground arith

place-IsWedged : (env : Env) (n : Notification) (s : State) → IsWedged s → IsWedged (place env n s)
unfolding place
place-IsWedged env n s w = ground (
  arith,
  replace_queued-IsWedged (find_index (λ (q : Notification). q.id == n.id) s.queue) n s w,
  enqueue-frame n (is_critical n.urgency) s,
)

pub deliver-IsWedged :
    (env : Env) (replaces : ℕ) (n : Notification) (s : State)
    → IsWedged s
    → IsWedged (deliver env replaces n s).1
unfolding deliver
deliver-IsWedged env replaces n s w =
    let (id, t) = pick_id replaces n s in
    let m : Notification = record n { id = id } in
    ground (arith, pick_id-frame replaces n s, place-IsWedged env m t, redraw-frame (place env m t))

unqueue-IsWedged : (i : ℕ) (s : State) → IsWedged s → IsWedged (unqueue i s).1
unfolding unqueue
unqueue-IsWedged i s w = ground arith

pub close_call-IsWedged :
    (env : Env) (id : ℕ) (s : State) → IsWedged s → IsWedged (close_call env id s)
unfolding close_call
close_call-IsWedged env id s w =
    let i = find_index (λ (q : Notification). q.id == id) s.queue in
    let t = unqueue i s in
    let u = release t.0.icon t.1 in
    ground (
      arith,
      unqueue-IsWedged i s w,
      release-SameButHistory t.0.icon t.1,
      notify_closed-frame id by_call u,
      redraw-frame (notify_closed id by_call u),
    )

stop_queue-IsWedged : (k : ℕ) (s : State) → IsWedged s → IsWedged (stop_queue k s)
unfolding stop_queue stop_first
stop_queue-IsWedged zero s w = w
stop_queue-IsWedged (suc k) s w =
    let t = unqueue 0 s in
    let u = notify_closed t.0.id undefined t.1 in
    ground (
      arith,
      unqueue-IsWedged 0 s w,
      notify_closed-frame t.0.id undefined t.1,
      release-SameButHistory t.0.icon u,
      stop_queue-IsWedged k (release t.0.icon u),
    )

pub stop-IsWedged : (env : Env) (s : State) → IsWedged s → IsWedged (stop env s)
unfolding stop
stop-IsWedged env s w =
    let s0 : State = record s { has_redraw = false } in
    let t = stop_queue (length s.queue) s0 in
    let u = clear env undefined t in
    ground (
      arith,
      stop_queue-IsWedged (length s.queue) s0,
      clear-IsWedged env t (stop_queue-IsWedged (length s.queue) s0 (ground arith)) undefined,
      release_all-frame u.hist u,
    )

replace_queued-frame :
    (i : ℕ) (n : Notification) (s : State)
    → ((replace_queued i n s).active ≡ s.active) × ((replace_queued i n s).held ≡ s.held)
unfolding replace_queued release
replace_queued-frame i n s = ground arith

take_box-held :
    (env : Env) (n : Notification) (s : State)
    → IsBounded s
    → s.held ≡ false
    → (take_box env n s).held ≡ false
unfolding take_box
take_box-held env n s v h =
    let t : State = record ((arm env 0 s).1) { active = false } in
    let u = enqueue s.cur true t in
    ground (
      arith,
      arm-frame env 0 s,
      enqueue-IsBounded s.cur true t,
      enqueue-frame s.cur true t,
      show_or_next-IsShown env (record u { cur = n }),
      show_or_next-IsShown env (record s { cur = n }),
    )

place-IsHeldFull :
    (env : Env) (n : Notification) (s : State)
    → IsBounded s
    → IsHeldFull s
    → IsHeldFull (place env n s)
unfolding place
place-IsHeldFull env n s v f = ground (
  arith,
  release-IsBounded s.cur.icon s v,
  show_or_next-IsHeldFull env (record (release s.cur.icon s) { cur = n }),
  replace_queued-frame (find_index (λ (q : Notification). q.id == n.id) s.queue) n s,
  enqueue-frame n (is_critical n.urgency) s,
  enqueue-frame n false s,
  take_box-held env n s v,
)

pub deliver-IsHeldFull :
    (env : Env) (replaces : ℕ) (n : Notification) (s : State)
    → IsBounded s
    → IsHeldFull s
    → IsHeldFull (deliver env replaces n s).1
unfolding deliver
deliver-IsHeldFull env replaces n s v f =
    let (id, t) = pick_id replaces n s in
    let m : Notification = record n { id = id } in
    ground
      (arith, pick_id-frame replaces n s, place-IsHeldFull env m t, redraw-frame (place env m t))

pub close_call-IsHeldFull :
    (env : Env) (id : ℕ) (s : State) → IsBounded s → IsHeldFull s → IsHeldFull (close_call env id s)
unfolding close_call unqueue
close_call-IsHeldFull env id s v f =
    let i = find_index (λ (q : Notification). q.id == id) s.queue in
    let t = unqueue i s in
    let u = release t.0.icon t.1 in
    ground (
      arith,
      clear-IsHeldFull env by_call s v f,
      release-SameButHistory t.0.icon t.1,
      notify_closed-frame id by_call u,
      redraw-frame (notify_closed id by_call u),
    )

pub stop-IsHeldFull : (env : Env) (s : State) → IsBounded s → IsHeldFull s → IsHeldFull (stop env s)
unfolding stop
stop-IsHeldFull env s v f =
    let s0 : State = record s { has_redraw = false } in
    let t = stop_queue (length s.queue) s0 in
    let u = clear env undefined t in
    ground (
      arith,
      stop_queue-frame (length s.queue) s0,
      clear-IsHeldFull env undefined t,
      release_all-frame u.hist u,
    )

pub set_timeout-IsHeldFull : (secs : ℕ) (s : State) → IsHeldFull s → IsHeldFull (set_timeout secs s)
unfolding set_timeout
set_timeout-IsHeldFull secs s f = ground arith

pub set_timeout-IsWedged : (secs : ℕ) (s : State) → IsWedged s → IsWedged (set_timeout secs s)
unfolding set_timeout
set_timeout-IsWedged secs s w = ground arith

pub start-IsHeldFull :
    (primary registered redraws tokens : Bool) (secs : ℕ) (s : State)
    → IsHeldFull (start true primary registered redraws tokens secs s)
unfolding start
start-IsHeldFull primary registered redraws tokens secs s = inl refl
