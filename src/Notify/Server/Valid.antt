-- ===== src/Notify/Server/Valid.antt =====
-- What `Notify`, `CloseNotification` and the end of the server keep.
use g0wm.Common.{
  ℕ, zero, suc, ◌+◌, ◌≤◌, ◌<◌, ◌≡◌, refl, Bool, true, false, inl, inr, List, [], ◌∷◌, arith, length,
  find_index, get_elem?-some, length-set, none, Bool-cases, ◌==◌,
}
use g0wm.Notify.{
  by_call, undefined, Notification, Env, State, notify_closed, release, unqueue, arm, clear,
  enqueue, is_critical,
}
use g0wm.Notify.Server.{
  pick_id, fresh_id, replace_queued, take_box, place, deliver, close_call, set_timeout, stop,
  stop_queue, stop_first, release_all, start,
}
use g0wm.Notify.Frame.{notify_closed-frame, arm-frame, release-SameButHistory}
use g0wm.Notify.Bounds.{
  IsBounded, notify_closed-IsBounded, release-IsBounded, unqueue-IsBounded, enqueue-IsBounded,
  enqueue-frame,
}
use g0wm.Notify.Screen.{clear-empty, clear-IsBounded, show_or_next-IsShown}
use g0wm.Notify.Valid.{IsValid, clear-IsValid, redraw-IsValid}

pub pick_id-frame :
    (replaces : ℕ) (n : Notification) (s : State)
    → (pick_id replaces n s).1 ≡ record s { seq = (pick_id replaces n s).1.seq }
unfolding pick_id fresh_id
pick_id-frame replaces n s = ground arith

replace_queued-frame :
    (i : ℕ) (n : Notification) (s : State)
    → IsBounded s
    → i < length s.queue
    → IsBounded (replace_queued i n s)
      × ((replace_queued i n s).active ≡ s.active)
      × ((replace_queued i n s).held ≡ s.held)
unfolding replace_queued release
replace_queued-frame i n s v h =
    let (q, e) = get_elem?-some s.queue i h in ground (arith, e, length-set s.queue i n, q.icon)

take_box-IsValid :
    (env : Env) (n : Notification) (s : State) → IsBounded s → IsValid (take_box env n s)
unfolding take_box
take_box-IsValid env n s v =
    let t : State = record ((arm env 0 s).1) { active = false } in
    let u = enqueue s.cur true t in
    ground (
      arith,
      arm-frame env 0 s,
      enqueue-IsBounded s.cur true t,
      show_or_next-IsShown env (record u { cur = n }),
      show_or_next-IsShown env (record s { cur = n }),
    )

place-IsValid : (env : Env) (n : Notification) (s : State) → IsValid s → IsValid (place env n s)
unfolding place
place-IsValid env n s v =
    let i = find_index (λ (q : Notification). q.id == n.id) s.queue in
    let t : State = record (release s.cur.icon s) { cur = n } in
    ground (
      arith,
      release-IsBounded s.cur.icon s v.bounded,
      show_or_next-IsShown env t,
      replace_queued-frame i n s v.bounded,
      enqueue-frame n (is_critical n.urgency) s,
      enqueue-IsBounded n (is_critical n.urgency) s v.bounded,
      enqueue-frame n false s,
      enqueue-IsBounded n false s v.bounded,
      take_box-IsValid env n s v.bounded,
    )

-- `Notify` keeps the state valid, whatever id the client names.
pub deliver-IsValid :
    (env : Env) (replaces : ℕ) (n : Notification) (s : State)
    → IsValid s
    → IsValid (deliver env replaces n s).1
unfolding deliver
deliver-IsValid env replaces n s v =
    let (id, t) = pick_id replaces n s in
    let m : Notification = record n { id = id } in
    ground
      (arith, pick_id-frame replaces n s, place-IsValid env m t, redraw-IsValid (place env m t))

pub close_call-IsValid :
    (env : Env) (id : ℕ) (s : State) → IsValid s → IsValid (close_call env id s)
unfolding close_call unqueue
close_call-IsValid env id s v =
    let i = find_index (λ (q : Notification). q.id == id) s.queue in
    let t = unqueue i s in
    let u = release t.0.icon t.1 in
    let w = notify_closed id by_call u in
    ground (
      arith,
      clear-IsValid env by_call s v,
      unqueue-IsBounded i s v.bounded,
      release-IsBounded t.0.icon t.1,
      release-SameButHistory t.0.icon t.1,
      notify_closed-IsBounded id by_call u,
      notify_closed-frame id by_call u,
      redraw-IsValid w,
    )

pub stop_first-frame :
    (s : State)
    → IsBounded s
    → 0 < length s.queue
    → IsBounded (stop_first s)
      × (length (stop_first s).queue + 1 ≡ length s.queue)
      × ((stop_first s).active ≡ s.active)
      × ((stop_first s).held ≡ s.held)
unfolding stop_first unqueue
stop_first-frame s v h =
    let t = unqueue 0 s in
    let u = notify_closed t.0.id undefined t.1 in
    ground (
      arith,
      unqueue-IsBounded 0 s v,
      notify_closed-IsBounded t.0.id undefined t.1,
      notify_closed-frame t.0.id undefined t.1,
      release-IsBounded t.0.icon u,
      release-SameButHistory t.0.icon u,
    )

pub stop_queue-frame :
    (k : ℕ) (s : State)
    → IsBounded s
    → length s.queue ≤ k
    → IsBounded (stop_queue k s)
      × ((stop_queue k s).queue ≡ [])
      × ((stop_queue k s).active ≡ s.active)
      × ((stop_queue k s).held ≡ s.held)
unfolding stop_queue
stop_queue-frame zero s v h = (v, ground arith, refl, refl)
stop_queue-frame (suc k) s v h =
    ground (arith, stop_first-frame s v, stop_queue-frame k (stop_first s))

pub release_all-frame :
    (ns : List Notification) (s : State)
    → release_all ns s ≡ record s { freed = (release_all ns s).freed }
unfolding release_all release
release_all-frame [] s = refl
release_all-frame (n ∷ ns) s = ground (arith, release_all-frame ns s, n.icon)

-- Stopping leaves nothing on screen, in the queue or in the history, and no timer.
pub stop_empties :
    (env : Env) (s : State)
    → IsBounded s
    → s.running ≡ true
    → IsBounded (stop env s)
      × ((stop env s).queue ≡ [])
      × ((stop env s).hist ≡ [])
      × ((stop env s).active ≡ false)
      × ((stop env s).timer ≡ none)
      × ((stop env s).running ≡ false)
unfolding stop
stop_empties env s v r =
    let s0 : State = record s { has_redraw = false } in
    let t = stop_queue (length s.queue) s0 in
    let u = clear env undefined t in
    ground (
      arith,
      stop_queue-frame (length s.queue) s0,
      clear-empty env undefined t,
      clear-IsBounded env undefined t,
      release_all-frame u.hist u,
    )

pub stop-idle : (env : Env) (s : State) → s.running ≡ false → stop env s ≡ s
unfolding stop
stop-idle env s e = ground arith

pub stop-IsValid : (env : Env) (s : State) → IsValid s → IsValid (stop env s)
stop-IsValid env s v = elim (Bool-cases s.running) [
  | inl e ↦
      let w = stop_empties env s v.bounded e in record { bounded = w.0; shown = inr (inr w.1) }
  | inr e ↦ rw (stop-idle env s e) v
]

pub set_timeout-IsValid : (secs : ℕ) (s : State) → IsValid s → IsValid (set_timeout secs s)
unfolding set_timeout
set_timeout-IsValid secs s v = ground arith

pub start-IsValid :
    (primary registered redraws tokens : Bool) (secs : ℕ) (s : State)
    → s.fault ≡ false
    → IsValid (start true primary registered redraws tokens secs s)
unfolding start
start-IsValid primary registered redraws tokens secs s h = ground arith
