-- ===== src/Notify/Machine.antt =====
-- The handlers of the notification server as one machine: src/desktop/notify/queue.c, message.c and
-- notify.c, in the order in which the event loop runs them.
pub mod Icons
use g0wm.Common.{none, ℕ, ◌≡◌, refl, Bool, true, false, inl, inr, List, [], ◌∷◌, arith}
use g0wm.Notify.{
  Notification, Env, State, expire, dismiss, dismiss_all, hold, invoke, action, history_remove,
  dismissed, expired, current,
}
use g0wm.Notify.Screen.{IsShown}
use g0wm.Notify.Server.{deliver, close_call, set_timeout, start, stop}
use g0wm.Notify.Valid.{
  IsValid, clear-IsValid, dismiss_all-IsValid, hold-IsValid, invoke-IsValid, action-IsValid,
  history_remove-IsValid,
}
use g0wm.Notify.Server.Valid.{
  deliver-IsValid, close_call-IsValid, stop-IsValid, set_timeout-IsValid, start-IsValid,
}
use g0wm.Notify.Wedge.{
  IsWedged, clear-IsWedged, hold-IsWedged, invoke-IsWedged, action-IsWedged, dismiss_all-IsWedged,
  history_remove-IsWedged, dismiss_all_wedges, IsHeldFull, clear-IsHeldFull, hold-IsHeldFull,
  invoke-IsHeldFull, action-IsHeldFull, dismiss_all-IsHeldFull, history_remove-IsHeldFull,
}
use g0wm.Notify.Server.Wedge.{
  deliver-IsWedged, close_call-IsWedged, stop-IsWedged, set_timeout-IsWedged, deliver-IsHeldFull,
  close_call-IsHeldFull, stop-IsHeldFull, set_timeout-IsHeldFull, start-IsHeldFull,
}

-- A call of a client, the timer, or a call of the bar.
pub data Event : Type 0 where
  notify : ℕ → Notification → Event
  close : ℕ → Event
  times_out dismisses dismisses_all invokes stops : Event
  acts : ℕ → Event
  holds : Bool → Event
  forgets : ℕ → Event
  sets_timeout : ℕ → Event

unfoldable pub step : Env → Event → State → State
step env (notify replaces n) s = (deliver env replaces n s).1
step env (close id) s = close_call env id s
step env times_out s = expire env s
step env dismisses s = dismiss env s
step env dismisses_all s = dismiss_all env s
step env invokes s = invoke env s
step env stops s = stop env s
step env (acts i) s = action env i s
step env (holds on) s = hold env on s
step env (forgets i) s = history_remove i s
step env (sets_timeout secs) s = set_timeout secs s

unfoldable pub run : Env → List Event → State → State
run env [] s = s
run env (e ∷ es) s = run env es (step env e s)

-- Every handler keeps the queue and the history within their 32 entries, reads and writes no array
-- outside the entries in use, and leaves nothing waiting behind an empty box that is not held.
pub step-IsValid : (env : Env) (e : Event) (s : State) → IsValid s → IsValid (step env e s)
unfolding step
step-IsValid env (notify replaces n) s v = deliver-IsValid env replaces n s v
step-IsValid env (close id) s v = close_call-IsValid env id s v
step-IsValid env times_out s v = unfold expire in clear-IsValid env expired s v
step-IsValid env dismisses s v = unfold dismiss in clear-IsValid env dismissed s v
step-IsValid env dismisses_all s v = dismiss_all-IsValid env s v
step-IsValid env invokes s v = invoke-IsValid env s v
step-IsValid env stops s v = stop-IsValid env s v
step-IsValid env (acts i) s v = action-IsValid env i s v
step-IsValid env (holds on) s v = hold-IsValid env on s v
step-IsValid env (forgets i) s v = history_remove-IsValid i s v
step-IsValid env (sets_timeout secs) s v = set_timeout-IsValid secs s v

pub run-IsValid : (env : Env) (es : List Event) (s : State) → IsValid s → IsValid (run env es s)
unfolding run
run-IsValid env [] s v = v
run-IsValid env (e ∷ es) s v = run-IsValid env es (step env e s) (step-IsValid env e s v)

-- A started server stays valid through any sequence of handlers: the arrays stay within bounds and
-- nothing waits behind an empty box that is not held.
pub run-start-IsValid :
    (env : Env) (es : List Event) (primary registered redraws tokens : Bool) (secs : ℕ) (s : State)
    → s.fault ≡ false
    → IsValid (run env es (start true primary registered redraws tokens secs s))
run-start-IsValid env es primary registered redraws tokens secs s h =
    run-IsValid env es _ (start-IsValid primary registered redraws tokens secs s h)

step-IsWedged : (env : Env) (e : Event) (s : State) → IsWedged s → IsWedged (step env e s)
unfolding step
step-IsWedged env (notify replaces n) s w = deliver-IsWedged env replaces n s w
step-IsWedged env (close id) s w = close_call-IsWedged env id s w
step-IsWedged env times_out s w = unfold expire in clear-IsWedged env s w expired
step-IsWedged env dismisses s w = unfold dismiss in clear-IsWedged env s w dismissed
step-IsWedged env dismisses_all s w = dismiss_all-IsWedged env s w
step-IsWedged env invokes s w = invoke-IsWedged env s w
step-IsWedged env stops s w = stop-IsWedged env s w
step-IsWedged env (acts i) s w = action-IsWedged env s w i
step-IsWedged env (holds on) s w = hold-IsWedged env s w on
step-IsWedged env (forgets i) s w = history_remove-IsWedged env s w i
step-IsWedged env (sets_timeout secs) s w = set_timeout-IsWedged secs s w

run-IsWedged : (env : Env) (es : List Event) (s : State) → IsWedged s → IsWedged (run env es s)
unfolding run
run-IsWedged env [] s w = w
run-IsWedged env (e ∷ es) s w = run-IsWedged env es (step env e s) (step-IsWedged env e s w)

-- If everything is dismissed while a notification on screen is held, no later sequence of handlers
-- shows a notification again.
pub dismiss_all_held_silences :
    (env : Env) (es : List Event) (s : State)
    → IsValid s
    → s.active ≡ true
    → s.held ≡ true
    → current (run env es (step env dismisses_all s)) ≡ none
unfolding step current
dismiss_all_held_silences env es s v a h =
    let w = run-IsWedged env es _ (dismiss_all_wedges env s v.bounded a h) in
    rw (w.inactive, current)

-- `dismiss_all` is not called while the box is held.
abbrev pub LetsGo : Event → State → Type 0
LetsGo dismisses_all s = s.held ≡ false
LetsGo e s = Unit {0}

abbrev pub LetsGoAll : Env → List Event → State → Type 0
LetsGoAll env [] s = Unit {0}
LetsGoAll env (e ∷ es) s = LetsGo e s × LetsGoAll env es (step env e s)

step-IsHeldFull :
    (env : Env) (e : Event) (s : State)
    → IsValid s
    → LetsGo e s
    → IsHeldFull s
    → IsHeldFull (step env e s)
unfolding step
step-IsHeldFull env (notify replaces n) s v g f = deliver-IsHeldFull env replaces n s v.bounded f
step-IsHeldFull env (close id) s v g f = close_call-IsHeldFull env id s v.bounded f
step-IsHeldFull env times_out s v g f = unfold expire in clear-IsHeldFull env expired s v.bounded f
step-IsHeldFull env dismisses s v g f =
    unfold dismiss in clear-IsHeldFull env dismissed s v.bounded f
step-IsHeldFull env dismisses_all s v g f = dismiss_all-IsHeldFull env s v.bounded g
step-IsHeldFull env invokes s v g f = invoke-IsHeldFull env s v.bounded f
step-IsHeldFull env stops s v g f = stop-IsHeldFull env s v.bounded f
step-IsHeldFull env (acts i) s v g f = action-IsHeldFull env i s v.bounded f
step-IsHeldFull env (holds on) s v g f = hold-IsHeldFull env on s v.bounded f
step-IsHeldFull env (forgets i) s v g f = history_remove-IsHeldFull i s f
step-IsHeldFull env (sets_timeout secs) s v g f = set_timeout-IsHeldFull secs s f

run-IsShown :
    (env : Env) (es : List Event) (s : State)
    → IsValid s
    → IsHeldFull s
    → LetsGoAll env es s
    → IsShown (run env es s)
unfolding run
run-IsShown env [] s v f g = ground arith
run-IsShown env (e ∷ es) s v f g =
    run-IsShown env es (step env e s) (step-IsValid env e s v) (step-IsHeldFull env e s v g.0 f) g.1

-- If `notify_dismiss_all` is never called while the box is held, then after any sequence of
-- handlers of a started server a notification is on screen or none waits in the queue.
pub run-start-IsShown :
    (env : Env) (es : List Event) (primary registered redraws tokens : Bool) (secs : ℕ) (s : State)
    → s.fault ≡ false
    → LetsGoAll env es (start true primary registered redraws tokens secs s)
    → IsShown (run env es (start true primary registered redraws tokens secs s))
run-start-IsShown env es primary registered redraws tokens secs s h g =
    run-IsShown env es _ (start-IsValid primary registered redraws tokens secs s h)
      (start-IsHeldFull primary registered redraws tokens secs s) g
