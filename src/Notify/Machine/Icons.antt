-- ===== src/Notify/Machine/Icons.antt =====
-- Every icon that a notification brings is destroyed exactly once.
use g0wm.Common.{ℕ, ◌+◌, ◌≡◌, Bool, true, false, List, [], ◌∷◌, arith}
use g0wm.Notify.{Env, State, dismissed, expired, expire, dismiss}
use g0wm.Notify.Server.{start, stop}
use g0wm.Notify.Machine.{
  Event, notify, close, times_out, dismisses, dismisses_all, invokes, stops, acts, holds, forgets,
  sets_timeout, step, run, step-IsValid, run-IsValid,
}
use g0wm.Notify.Valid.{IsValid}
use g0wm.Notify.Server.Valid.{start-IsValid}
use g0wm.Notify.Icons.{holds_icon, count, owned}
use g0wm.Notify.Icons.Handlers.{owned-clear}
use g0wm.Notify.Icons.Hold.{
  owned-hold, owned-invoke, owned-action, owned-history_remove, owned-dismiss_all,
}
use g0wm.Notify.Server.Icons.{
  owned-deliver, owned-close_call, owned-stop, owned-set_timeout, freed-stop, owned-start,
}

-- How often the icon `i` comes in with a call of `Notify`.
unfoldable pub arrivals : ℕ → List Event → ℕ
arrivals i [] = 0
arrivals i (notify replaces n ∷ es) = holds_icon i n.icon + arrivals i es
arrivals i (e ∷ es) = arrivals i es

module _ (i : ℕ) (env : Env) where
  owned-step :
      (e : Event) (s : State) → IsValid s → owned i (step env e s) ≡ owned i s + arrivals i (e ∷ [])
  unfolding step arrivals
  owned-step (notify replaces n) s v = omega (arith, owned-deliver i env replaces n s v.bounded)
  owned-step (close id) s v = omega (arith, owned-close_call i env id s v.bounded)
  owned-step times_out s v = unfold expire in omega (arith, owned-clear i env expired s v.bounded)
  owned-step dismisses s v =
      unfold dismiss in omega (arith, owned-clear i env dismissed s v.bounded)
  owned-step dismisses_all s v = omega (arith, owned-dismiss_all i env s v.bounded)
  owned-step invokes s v = omega (arith, owned-invoke i env s v.bounded)
  owned-step stops s v = omega (arith, owned-stop i env s v.bounded)
  owned-step (acts k) s v = omega (arith, owned-action i env k s v.bounded)
  owned-step (holds on) s v = omega (arith, owned-hold i env on s v.bounded)
  owned-step (forgets k) s v = omega (arith, owned-history_remove i k s)
  owned-step (sets_timeout secs) s v = omega (arith, owned-set_timeout i secs s)

  arrivals-cons :
      (e : Event) (es : List Event) → arrivals i (e ∷ es) ≡ arrivals i (e ∷ []) + arrivals i es
  unfolding arrivals
  arrivals-cons (notify replaces n) es = omega arith
  arrivals-cons _ es = omega arith

  owned-run :
      (es : List Event) (s : State) → IsValid s → owned i (run env es s) ≡ owned i s + arrivals i es
  unfolding run
  owned-run [] s v = unfold arrivals in omega arith
  owned-run (e ∷ es) s v = omega (
    arith,
    owned-step e s v,
    arrivals-cons e es,
    owned-run es (step env e s) (step-IsValid env e s v),
  )

-- After a server is started, any sequence of handlers runs and the server, still running, is
-- stopped, each icon has been destroyed exactly as often as it came in with a notification: none is
-- leaked and none is destroyed twice.
pub count-freed-stop :
    (i : ℕ) (env : Env) (es : List Event) (redraws tokens : Bool) (secs : ℕ) (s : State)
    → s.fault ≡ false
    → s.freed ≡ []
    → (run env es (start true true true redraws tokens secs s)).running ≡ true
    → count i (stop env (run env es (start true true true redraws tokens secs s))).freed
      ≡ arrivals i es
unfolding count
count-freed-stop i env es redraws tokens secs s h f r =
    let s0 = start true true true redraws tokens secs s in
    let v = start-IsValid true true redraws tokens secs s h in
    let t = run env es s0 in
    ground (
      arith,
      freed-stop i env t (run-IsValid env es s0 v).bounded r,
      owned-run i env es s0 v,
      owned-start i true true redraws tokens secs s,
    )
