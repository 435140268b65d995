-- ===== src/Notify/Frame.antt =====
-- What the history functions of src/desktop/notify/queue.c leave alone.
use g0wm.Common.{ℕ, ◌≡◌, refl, Option, none, some, arith, true, Bool}
use g0wm.Notify.{
  Reason, Notification, Env, State, notify_closed, release, drop_hist, push_hist, history_push,
  history_push_cur, arm, hist_slot, show, called,
}

-- `t` differs from `s` in the history, the icons and the fault flag only.
abbrev pub SameButHistory : State → State → Type 0
SameButHistory s t = t ≡ record s { hist = t.hist; freed = t.freed; fault = t.fault }

pub release-SameButHistory : (o : Option ℕ) (s : State) → SameButHistory s (release o s)
unfolding release
release-SameButHistory none s = refl
release-SameButHistory (some i) s = refl

pub drop_hist-SameButHistory : (i : ℕ) (s : State) → SameButHistory s (drop_hist i s)
unfolding drop_hist release
drop_hist-SameButHistory i s = ground arith

pub history_push-SameButHistory :
    (n : Notification) (s : State) → SameButHistory s (history_push n s)
unfolding history_push push_hist
history_push-SameButHistory n s =
    ground (arith, release-SameButHistory n.icon s, drop_hist-SameButHistory (hist_slot n s.hist) s)

-- The log apart, `t` is `s`.
pub notify_closed-frame :
    (id : ℕ) (reason : Reason) (s : State)
    → notify_closed id reason s ≡ record s { signals = (notify_closed id reason s).signals }
unfolding notify_closed
notify_closed-frame id reason s = ground arith

-- The timer touches nothing but itself.
pub arm-frame :
    (env : Env) (ms : ℕ) (s : State)
    → (arm env ms s).1 ≡ record s { timer = (arm env ms s).1.timer; calls = (arm env ms s).1.calls }
unfolding arm
arm-frame env ms s = ground arith

-- What `notify_show` leaves alone; it returns whether the box is taken now.
pub record Shows (s t : State) (done : Bool) : Type 0 where
  pub queue_kept : t.queue ≡ s.queue
  pub hist_kept : t.hist ≡ s.hist
  pub held_kept : t.held ≡ s.held
  pub fault_kept : t.fault ≡ s.fault
  pub freed_kept : t.freed ≡ s.freed
  pub signals_kept : t.signals ≡ s.signals
  pub told : done ≡ t.active
  pub id_kept : t.cur.id ≡ s.cur.id
  pub icon_kept : t.cur.icon ≡ s.cur.icon
  pub held_active : s.held ≡ true → t.active ≡ true

pub show-Shows : (env : Env) (s : State) → Shows s (show env s).1 (show env s).0
unfolding show
show-Shows env s = ground (
  arith,
  arm-frame env s.cur.timeout_ms
      (record (called s) { cur = record (s.cur) { shown_ms = env.clock s.calls; seen = true } }),
)

pub history_push_cur-frame :
    (s : State)
    → ((history_push_cur s).queue ≡ s.queue)
      × ((history_push_cur s).active ≡ s.active)
      × ((history_push_cur s).held ≡ s.held)
      × ((history_push_cur s).signals ≡ s.signals)
unfolding history_push_cur
history_push_cur-frame s = ground (arith, history_push-SameButHistory s.cur s)
