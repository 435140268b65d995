-- ===== src/Notify/Store.antt =====
-- src/desktop/notify/queue.c: the arrays of the queue and of the history. Each function takes the
-- state `notify_state` and returns the new one.
use g0wm.Notify.Types.{
  low, Urgency, critical, Reason, undefined, Signal, closed, redrawn, Notification, State,
  queue_max, hist_max,
}
use g0wm.Common.{
  ℕ, ◌+◌, ◌-◌, Bool, true, false, not, ◌&&◌, ◌||◌, Option, none, some, List, [], ◌∷◌, ◌++◌, ltb,
  ◌==◌, if◌then◌else◌, length, get_elem?, remove_at, find_index, bytes_eq, is_empty,
}

abbrev pub is_critical : Urgency → Bool
is_critical critical = true
is_critical u = false

-- What a read of an array past its entries gives.
abbrev pub blank : Notification
blank = record {
  id = 0;
  urgency = low;
  hasdefault = false;
  resident = false;
  seen = false;
  transient = false;
  timeout_ms = 0;
  shown_ms = 0;
  text = [];
  app = [];
  desktop = [];
  tag = [];
  value = none;
  icon = none;
  act = [];
}

-- `notify_state.calls++` stands for one external call.
abbrev pub called : State → State
called s = record s { calls = s.calls + 1 }

abbrev pub emit : Signal → State → State
emit sig s = record s { signals = sig ∷ s.signals }

unfoldable pub notify_closed : ℕ → Reason → State → State
notify_closed id reason s = if id == 0 then s else emit (closed id reason) s

-- `if (notify_state.redraw) notify_state.redraw()`, always the last thing that a handler does.
unfoldable pub redraw : State → State
redraw s = if s.has_redraw then emit redrawn s else s

-- Destroys the icon, if there is one; the caller clears the field.
unfoldable pub release : Option ℕ → State → State
release none s = s
release (some icon) s = record s { freed = icon ∷ s.freed }

unfoldable pub same_slot : Notification → Notification → Bool
same_slot first second =
    (first.id == second.id)
    || (not (is_empty first.tag)
        && (bytes_eq first.tag second.tag && bytes_eq first.app second.app))

-- `notify_release(&hist[i])`, the memmove and `nhist--`.
unfoldable pub drop_hist : ℕ → State → State
unfolding release
drop_hist i s = elim (get_elem? s.hist i) [
  | none ↦ record s { fault = true }
  | some n ↦ release n.icon (record s { hist = remove_at i s.hist })
]

unfoldable pub hist_slot : Notification → List Notification → ℕ
unfolding same_slot
hist_slot n hist =
    let i = find_index (λ h. same_slot h n) hist in
    if (i == length hist) && (length hist == hist_max) then length hist - 1 else i

unfoldable pub push_hist : Notification → State → State
push_hist n s = record s {
  hist = n ∷ s.hist;
  fault = s.fault || not (ltb (length s.hist) hist_max);
}

unfoldable pub history_push : Notification → State → State
unfolding drop_hist hist_slot push_hist
history_push n s =
    if n.transient
    then release n.icon s
    else push_hist n
        (if ltb (hist_slot n s.hist) (length s.hist) then drop_hist (hist_slot n s.hist) s else s)

-- `notify_history_push(&notify_state.cur)`: the icon of `cur` is gone afterwards.
unfoldable pub history_push_cur : State → State
unfolding history_push
history_push_cur s =
    let s' = history_push s.cur s in record s' { cur = record (s'.cur) { icon = none } }

unfoldable pub unqueue : ℕ → State → Notification × State
unqueue i s = elim (get_elem? s.queue i) [
  | none ↦ (blank, record s { fault = true })
  | some n ↦ (n, record s { queue = remove_at i s.queue })
]

unfoldable pub expires : Notification → Bool
expires n = not (n.timeout_ms == 0)

-- `i < nqueue ? i : 0` after a scan of the queue.
abbrev pub or_first : List Notification → ℕ → ℕ
or_first queue i = if ltb i (length queue) then i else 0

unfoldable pub make_room : State → State
unfolding expires unqueue notify_closed history_push
make_room s =
    if length s.queue == queue_max
    then (let (old, s') = unqueue (or_first s.queue (find_index expires s.queue)) s in
        history_push old (notify_closed old.id undefined s'))
    else s

unfoldable pub put_queue : Notification → Bool → State → State
put_queue n front s = record s {
  queue = if front then n ∷ s.queue else s.queue ++ n ∷ [];
  fault = s.fault || not (ltb (length s.queue) queue_max);
}

unfoldable pub enqueue : Notification → Bool → State → State
unfolding make_room put_queue
enqueue n front s = put_queue n front (make_room s)
