-- ===== src/Notify/Bounds.antt =====
-- The arrays of `notify_state` stay within their sizes: no write past the 32 entries, and no read
-- outside the entries in use.
use g0wm.Common.{
  ℕ, ◌+◌, ◌≤◌, ◌<◌, ◌≡◌, refl, Bool, false, Option, none, some, arith, length, length-append,
  length-remove_at, get_elem?-some, find_index-le, List, ◌∷◌, find_index, [],
}
use g0wm.Notify.{
  Reason, Notification, State, queue_max, hist_max, notify_closed, redraw, release, drop_hist,
  hist_slot, push_hist, history_push, history_push_cur, unqueue, or_first, make_room, enqueue,
  same_slot, undefined, expires,
}
use g0wm.Notify.Frame.{history_push-SameButHistory, notify_closed-frame}

pub record IsBounded (s : State) : Type 0 where
  pub queue_fits : length s.queue ≤ queue_max
  pub hist_fits : length s.hist ≤ hist_max
  pub no_fault : s.fault ≡ false

pub notify_closed-IsBounded :
    (id : ℕ) (reason : Reason) (s : State) → IsBounded s → IsBounded (notify_closed id reason s)
unfolding notify_closed
notify_closed-IsBounded id reason s v = ground arith

pub redraw-IsBounded : (s : State) → IsBounded s → IsBounded (redraw s)
unfolding redraw
redraw-IsBounded s v = ground arith

pub release-IsBounded : (o : Option ℕ) (s : State) → IsBounded s → IsBounded (release o s)
unfolding release
release-IsBounded none s v = v
release-IsBounded (some i) s v = record {
  queue_fits = v.queue_fits;
  hist_fits = v.hist_fits;
  no_fault = v.no_fault;
}

hist-release : (o : Option ℕ) (s : State) → (release o s).hist ≡ s.hist
unfolding release
hist-release none s = refl
hist-release (some i) s = refl

pub drop_hist-IsBounded :
    (i : ℕ) (s : State)
    → IsBounded s
    → i < length s.hist
    → IsBounded (drop_hist i s) × (length (drop_hist i s).hist + 1 ≡ length s.hist)
unfolding drop_hist release
drop_hist-IsBounded i s v h =
    let (n, e) = get_elem?-some s.hist i h in ground (arith, e, length-remove_at i s.hist, n.icon)

hist_slot-fits :
    (n : Notification) (hist : List Notification)
    → length hist ≤ hist_max
    → (hist_slot n hist ≤ length hist) × (hist_slot n hist ≡ length hist → length hist < hist_max)
unfolding hist_slot
hist_slot-fits n hist h = ground (arith, find_index-le (λ h. same_slot h n) hist)

push_hist-IsBounded :
    (n : Notification) (s : State)
    → IsBounded s
    → length s.hist < hist_max
    → IsBounded (push_hist n s)
unfolding push_hist
push_hist-IsBounded n s v h = ground arith

pub history_push-IsBounded :
    (n : Notification) (s : State) → IsBounded s → IsBounded (history_push n s)
unfolding history_push
history_push-IsBounded n s v = ground (
  arith,
  release-IsBounded n.icon s v,
  hist_slot-fits n s.hist,
  drop_hist-IsBounded (hist_slot n s.hist) s v,
  push_hist-IsBounded n s v,
  push_hist-IsBounded n (drop_hist (hist_slot n s.hist) s),
)

pub history_push_cur-IsBounded : (s : State) → IsBounded s → IsBounded (history_push_cur s)
unfolding history_push_cur
history_push_cur-IsBounded s v =
    let w = history_push-IsBounded s.cur s v in
    record { queue_fits = w.queue_fits; hist_fits = w.hist_fits; no_fault = w.no_fault }

pub unqueue-IsBounded :
    (i : ℕ) (s : State)
    → IsBounded s
    → i < length s.queue
    → IsBounded (unqueue i s).1 × (length (unqueue i s).1.queue + 1 ≡ length s.queue)
unfolding unqueue
unqueue-IsBounded i s v h =
    let (n, e) = get_elem?-some s.queue i h in ground (arith, e, length-remove_at i s.queue)

pub or_first-lt :
    (queue : List Notification) (i : ℕ) → 0 < length queue → or_first queue i < length queue
or_first-lt queue i h = ground arith

-- A full queue gives up an entry, so there is room for one more.
make_room-IsBounded :
    (s : State) → IsBounded s → IsBounded (make_room s) × (length (make_room s).queue < queue_max)
unfolding make_room
make_room-IsBounded s v =
    let i = or_first s.queue (find_index expires s.queue) in
    let t = unqueue i s in
    let u = notify_closed t.0.id undefined t.1 in
    ground (
      arith,
      or_first-lt s.queue (find_index expires s.queue),
      unqueue-IsBounded i s v,
      notify_closed-IsBounded t.0.id undefined t.1,
      notify_closed-frame t.0.id undefined t.1,
      history_push-IsBounded t.0 u,
      history_push-SameButHistory t.0 u,
    )

pub enqueue-IsBounded :
    (n : Notification) (front : Bool) (s : State) → IsBounded s → IsBounded (enqueue n front s)
unfolding enqueue
enqueue-IsBounded n front s v =
    let t = make_room s in ground (arith, make_room-IsBounded s v, length-append t.queue (n ∷ []))

make_room-frame :
    (s : State)
    → ((make_room s).active ≡ s.active)
      × ((make_room s).held ≡ s.held)
      × ((make_room s).cur ≡ s.cur)
unfolding make_room unqueue
make_room-frame s =
    let t = unqueue (or_first s.queue (find_index expires s.queue)) s in
    let u = notify_closed t.0.id undefined t.1 in
    ground (arith, notify_closed-frame t.0.id undefined t.1, history_push-SameButHistory t.0 u)

pub enqueue-frame :
    (n : Notification) (front : Bool) (s : State)
    → ((enqueue n front s).active ≡ s.active)
      × ((enqueue n front s).held ≡ s.held)
      × ((enqueue n front s).cur ≡ s.cur)
unfolding enqueue
enqueue-frame n front s = make_room-frame s
