-- ===== src/Notify/Timer.antt =====
-- src/desktop/notify/queue.c: `notify_arm`, over the timer of the event loop.
use g0wm.Notify.Types.{Env, State}
use g0wm.Notify.Store.{called}
use g0wm.Common.{ℕ, Bool, none, some, ◌==◌, if◌then◌else◌}

-- 0 disarms. `wl_event_source_timer_update` takes an int; the times here are at most `timeout_max`.
unfoldable pub add_timer : Env → ℕ → State → State
add_timer env ms s = elim s.timer [
  | none ↦
      if ms == 0
      then s
      else record (called s) { timer = if env.add_timer s.calls then some 0 else none }
  | some t ↦ s
]

unfoldable pub update_timer : Env → ℕ → State → Bool × State
update_timer env ms s = elim s.timer [
  | none ↦ (ms == 0, s)
  | some t ↦ (
    env.timer_update s.calls,
    record (called s) { timer = some (if env.timer_update s.calls then ms else t) },
  )
]

unfoldable pub arm : Env → ℕ → State → Bool × State
unfolding add_timer update_timer
arm env ms s = update_timer env ms (add_timer env ms s)
