-- ===== src/Notify/Server.antt =====
-- src/desktop/notify/message.c: what `Notify` and `CloseNotification` do to the state once their
-- arguments are read; src/desktop/notify/notify.c: starting and stopping the server.
pub mod Valid
pub mod Wedge
pub mod Icons
mod Tests
use g0wm.Common.{
  ℕ, zero, suc, ◌+◌, ◌*◌, ◌/◌, ◌%◌, ◌^◌, Bool, true, false, not, ◌&&◌, ◌||◌, Option, none, some,
  List, [], ◌∷◌, ltb, ◌==◌, if◌then◌else◌, length, get_elem?, set, find_index, is_empty,
}
use g0wm.Notify.{
  by_call, undefined, Notification, Env, State, timeout_max, is_critical, blank, notify_closed,
  redraw, release, same_slot, unqueue, enqueue, arm, show_or_next, clear,
}

-- The scan of the queue for the slot of `n`: it stops at the first id that is not 0.
queue_slot_id : Notification → List Notification → ℕ
queue_slot_id n [] = 0
queue_slot_id n (q ∷ qs) =
    let rest = queue_slot_id n qs in if same_slot q n && not (q.id == 0) then q.id else rest

slot_id : Notification → State → ℕ
slot_id n s =
    let id = if s.active && same_slot s.cur n then s.cur.id else 0 in
    if id == 0 then queue_slot_id n s.queue else id

abbrev next_seq : ℕ → ℕ
next_seq seq = (seq + 1) % 2 ^ 32

-- 0 means "no notification", so it is skipped when the counter wraps.
fresh_id : State → ℕ × State
fresh_id s =
    let first = next_seq s.seq in
    let id = if first == 0 then next_seq first else first in (id, record s { seq = id })

pub pick_id : ℕ → Notification → State → ℕ × State
pick_id replaces n s =
    let id = if (replaces == 0) && not (is_empty n.tag) then slot_id n s else replaces in
    if id == 0 then fresh_id s else (id, s)

-- An update of a queued notification takes the place of the old one.
pub replace_queued : ℕ → Notification → State → State
replace_queued i n s = elim (get_elem? s.queue i) [
  | none ↦ record s { fault = true }
  | some q ↦ release q.icon (record s { queue = set s.queue i n })
]

-- What `n` covers goes back to the front of the queue.
pub take_box : Env → Notification → State → State
take_box env n s =
    let t =
      if s.active then enqueue s.cur true (record ((arm env 0 s).1) { active = false }) else s in
    show_or_next env (record t { cur = n })

-- `n` has its id.
pub place : Env → Notification → State → State
place env n s =
    let i = find_index (λ (q : Notification). q.id == n.id) s.queue in
    if s.active && (s.cur.id == n.id)
    then show_or_next env (record (release s.cur.icon s) { cur = n })
    else if ltb i (length s.queue)
    then replace_queued i n s
    else if s.held
    then enqueue n (is_critical n.urgency) s
    else if not s.active || ((s.cur.timeout_ms == 0) || is_critical n.urgency)
    then take_box env n s
    else enqueue n false s

-- `notify_handle_notify` from the choice of the id on; the id goes into the reply.
pub deliver : Env → ℕ → Notification → State → ℕ × State
deliver env replaces n s =
    let (id, s') = pick_id replaces n s in (id, redraw (place env (record n { id = id }) s'))

-- `notify_handle_close`.
pub close_call : Env → ℕ → State → State
close_call env id s =
    let i = find_index (λ (q : Notification). q.id == id) s.queue in
    if s.active && (id == s.cur.id)
    then clear env by_call s
    else if not (id == 0) && ltb i (length s.queue)
    then (let (n, s') = unqueue i s in redraw (notify_closed id by_call (release n.icon s')))
    else s

pub timeout_of : ℕ → ℕ
timeout_of secs =
    if ltb (timeout_max / 1000) secs then timeout_max else (if secs == 0 then 1 else secs) * 1000

pub set_timeout : ℕ → State → State
set_timeout secs s = record s { default_ms = timeout_of secs }

-- `notify_start`: whether there are a connection and a loop, whether the bus gave the name, and
-- whether it registered the object path are given; the state starts zeroed.
pub start : (connected primary registered redraws tokens : Bool) → ℕ → State → State
start connected primary registered redraws tokens secs s =
    if connected
    then record {
      timer = none;
      has_redraw = redraws;
      has_token = tokens;
      default_ms = timeout_of secs;
      seq = 0;
      active = false;
      running = primary && registered;
      held = false;
      heldleft = 0;
      cur = blank;
      queue = [];
      hist = [];
      calls = s.calls;
      signals = s.signals;
      freed = s.freed;
      fault = s.fault;
    }
    else s

-- A round of the first loop of `notify_stop`.
pub stop_first : State → State
stop_first s = let (n, s') = unqueue 0 s in release n.icon (notify_closed n.id undefined s')

pub stop_queue : ℕ → State → State
stop_queue zero s = s
stop_queue (suc k) s =
    let rest = stop_queue k (stop_first s) in if is_empty s.queue then s else rest

-- `while (nhist) notify_release(&hist[--nhist])`: the last entry goes first.
pub release_all : List Notification → State → State
release_all [] s = s
release_all (n ∷ ns) s = release n.icon (release_all ns s)

pub stop : Env → State → State
stop env s =
    if s.running
    then (let t = stop_queue (length s.queue) (record s { has_redraw = false }) in
        let u = clear env undefined t in
        record (release_all u.hist u) { hist = []; timer = none; running = false })
    else s
