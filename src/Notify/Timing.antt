-- ===== src/Notify/Timing.antt =====
-- Holding the box stops its timer, and letting go resumes it.
use g0wm.Common.{ℕ, ◌+◌, ◌^◌, ◌≤◌, ◌<◌, ◌≡◌, refl, true, false, some, arith, length, find_index}
use g0wm.Notify.{
  Notification, Env, State, called, arm, hold, hold_on, hold_off, resume, time_left, shown_before,
  unseen_critical,
}

arm-armed :
    (env : Env) (ms t : ℕ) (s : State)
    → s.timer ≡ some t
    → env.timer_update s.calls ≡ true
    → (arm env ms s).1 ≡ record s { timer = some ms; calls = s.calls + 1 }
unfolding arm
arm-armed env ms t s e h = ground arith

time_left-exact :
    (now : ℕ) (n : Notification)
    → 0 < n.timeout_ms
    → n.timeout_ms < 2 ^ 32
    → n.shown_ms + n.timeout_ms < 2 ^ 64
    → n.shown_ms ≤ now
    → now < n.shown_ms + n.timeout_ms
    → time_left now n + now ≡ n.shown_ms + n.timeout_ms
unfolding time_left
time_left-exact now n p q r a b = ground arith

shown_before-exact :
    (now timeout left : ℕ)
    → left ≤ timeout
    → timeout < 2 ^ 32
    → timeout ≤ now
    → now < 2 ^ 64
    → shown_before now timeout left + timeout ≡ now + left
unfolding shown_before
shown_before-exact now timeout left a b c d = omega arith

hold_on_lem :
    (env : Env) (s : State) (t : ℕ)
    → s.active ≡ true
    → s.held ≡ false
    → s.timer ≡ some t
    → env.timer_update (s.calls + 1) ≡ true
    → hold env true s ≡ record s {
      timer = some 0;
      calls = s.calls + 1 + 1;
      held = true;
      heldleft = time_left (env.clock s.calls) s.cur;
    }
unfolding hold hold_on
hold_on_lem env s t a h e u =
    let s1 = called s in
    let now = env.clock s.calls in
    ground (arith, arm-armed env 0 t (record s1 { heldleft = time_left now s.cur }) e u)

hold_off_lem :
    (env : Env) (s : State) (t : ℕ)
    → s.active ≡ true
    → s.held ≡ true
    → s.timer ≡ some t
    → env.timer_update (s.calls + 1) ≡ true
    → 0 < s.cur.timeout_ms
    → find_index unseen_critical s.queue ≡ length s.queue
    → hold env false s ≡ record s {
      timer = some (s.heldleft);
      calls = s.calls + 1 + 1;
      held = false;
      cur = record (s.cur) {
        shown_ms = shown_before (env.clock s.calls) s.cur.timeout_ms s.heldleft;
      };
    }
unfolding hold hold_off resume
hold_off_lem env s t a h e u p c =
    let s1 : State = record (called s) { held = false } in
    let now = env.clock s.calls in
    let cur = record (s.cur) { shown_ms = shown_before now s.cur.timeout_ms s.heldleft } in
    ground (arith, arm-armed env s.heldleft t (record s1 { cur = cur }) e u)

-- When a notification with a timeout is held before it has run out and let go later, with no unseen
-- critical one in the queue, the timer is disarmed in between, is then armed with the time that was
-- left, and the new end of showing is the moment of letting go plus that time. The timer must exist
-- and take its updates, and the times must fit their integers.
pub hold_resumes :
    (env : Env) (s : State) (t left : ℕ)
    → s.active ≡ true
    → s.held ≡ false
    → s.timer ≡ some t
    → env.timer_update (s.calls + 1) ≡ true
    → env.timer_update (s.calls + 1 + 1 + 1) ≡ true
    → 0 < s.cur.timeout_ms
    → s.cur.timeout_ms < 2 ^ 32
    → s.cur.shown_ms + s.cur.timeout_ms < 2 ^ 64
    → s.cur.shown_ms ≤ env.clock s.calls
    → env.clock s.calls + left ≡ s.cur.shown_ms + s.cur.timeout_ms
    → 0 < left
    → s.cur.timeout_ms ≤ env.clock (s.calls + 1 + 1)
    → env.clock (s.calls + 1 + 1) < 2 ^ 64
    → find_index unseen_critical s.queue ≡ length s.queue
    → let p = hold env true s in
      let q = hold env false p in
      (p.timer ≡ some 0)
      × (q.held ≡ false)
      × (q.active ≡ true)
      × (q.timer ≡ some left)
      × (q.cur.shown_ms + q.cur.timeout_ms ≡ env.clock (s.calls + 1 + 1) + left)
hold_resumes env s t left a h e u u' p b w c l z n m q =
    let now = env.clock s.calls in
    let k = time_left now s.cur in
    let p' : State = record s {
      timer = some 0;
      calls = s.calls + 1 + 1;
      held = true;
      heldleft = k;
    } in
    ground (
      arith,
      hold_on_lem env s t a h e u,
      time_left-exact now s.cur p b w c,
      hold_off_lem env p' 0 a refl refl u' p q,
      shown_before-exact (env.clock (s.calls + 1 + 1)) s.cur.timeout_ms k,
    )
