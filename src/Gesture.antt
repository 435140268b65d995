-- ===== src/Gesture.antt =====
-- src/input/gesture.c: touchpad gestures, for a binding, for the magnifier or for the client.
mod Client
mod Steps
mod Whole
mod Forwarding
mod Tests
use Prim.Native.Nat.{bit_and}
use g0wm.Common.{
  ℕ, ◌-◌, Bool, true, false, not, ◌&&◌, ◌||◌, Option, none, some, List, [], ◌∷◌, ◌++◌, ◌==◌, leb,
  Bytes, if◌then◌else◌,
}

-- `double` and `float`, as far as they are used.
pub record Doubles (D : Type 0) : Type 0 where
  pub zero_d : D
  pub plus : D → D → D
  pub times : D → D → D
  pub abs : D → D
  pub narrow : D → D
  pub less : D → D → Bool
  pub at_most : D → D → Bool
  pub nonzero : D → Bool
  pub hundredths : ℕ → D

-- The events of libinput, with the time in milliseconds.
pub data Event (D : Type 0) : Type 0 where
  swipe_begin : ℕ → ℕ → Event D
  swipe_update : ℕ → D → D → Event D
  swipe_end : ℕ → Bool → Event D
  pinch_begin : ℕ → ℕ → Event D
  pinch_update : ℕ → D → D → D → D → Event D
  pinch_end : ℕ → Bool → Event D
  hold_begin : ℕ → ℕ → Event D
  hold_end : ℕ → Bool → Event D

-- `Gesture`, with the function and its argument by a name.
pub record Binding : Type 0 where
  pub motion : ℕ
  pub fingers : ℕ
  pub func : Option Bytes

-- What the handlers ask: the bindings, the session lock, the modifier of the magnifier, those that are
-- held, and the monitor under the pointer with its zoom.
pub record Env (D : Type 0) : Type 0 where
  pub gestures : List Binding
  pub lock_active : Bool
  pub pinch_zoom_modifier : ℕ
  pub modifiers : ℕ
  pub monitor_at : Option (ℕ × D)

-- `input_gesture`
pub record State (D : Type 0) : Type 0 where
  pub ours : Bool
  pub fingers : ℕ
  pub dx : D
  pub dy : D
  pub scale : D
  pub zoom : D

-- What the handlers do, in their order: `wlr_idle_notifier_v1_notify_activity`, an event sent on to the
-- client, a binding that runs, `magnifier_zoom`.
pub data Output (D : Type 0) : Type 0 where
  activity : Output D
  sent : Event D → Output D
  ran : Bytes → Output D
  zoomed : ℕ → D → Output D

-- `CLEANMASK`; `WLR_MODIFIER_CAPS` is 2.
abbrev clean_mask : ℕ → ℕ
clean_mask mask = mask - bit_and mask 2

abbrev same_bool : Bool → Bool → Bool
same_bool true b = b
same_bool false b = not b

-- `input_gesture_bound`; `PinchIn` is 4.
abbrev any_bound : Bool → ℕ → List Binding → Bool
any_bound pinch fingers [] = false
any_bound pinch fingers (gesture ∷ gestures) =
    (same_bool (leb 4 gesture.motion) pinch && (gesture.fingers == fingers))
    || any_bound pinch fingers gestures

unfoldable pub bound : {D : Type 0} → Env D → Bool → ℕ → Bool
bound env pinch fingers = if env.lock_active then false else any_bound pinch fingers env.gestures

abbrev called : {D : Type 0} → Option Bytes → List (Output D)
called none = []
called (some func) = ran func ∷ []

-- `input_gesture_run`
unfoldable pub run_bindings : {D : Type 0} → ℕ → ℕ → List Binding → List (Output D)
run_bindings motion fingers [] = []
run_bindings motion fingers (gesture ∷ gestures) =
    (if (gesture.motion == motion) && (gesture.fingers == fingers) then called gesture.func else [])
    ++ run_bindings motion fingers gestures

module _ {D : Type 0} (d : Doubles D) where
  abbrev pub greater_of : D → D → D
  greater_of x y = if d.less y x then x else y

  -- `input_handle_swipe_begin`, `_update` and `_end`.
  unfoldable pub handle_swipe_begin : Env D → ℕ → ℕ → State D → State D × List (Output D)
  handle_swipe_begin env time count s =
      if bound env false count
      then (record s { ours = true; fingers = count; dx = d.zero_d; dy = d.zero_d }, activity ∷ [])
      else (record s { ours = false }, activity ∷ sent (swipe_begin time count) ∷ [])

  unfoldable pub handle_swipe_update : ℕ → D → D → State D → State D × List (Output D)
  handle_swipe_update time x y s =
      if s.ours
      then (record s { dx = d.plus s.dx x; dy = d.plus s.dy y }, activity ∷ [])
      else (s, activity ∷ sent (swipe_update time x y) ∷ [])

  -- The motion of a swipe from its way: left, right, up, down are 0 to 3.
  unfoldable pub swipe_motion : State D → ℕ
  swipe_motion s =
      if d.at_most (d.abs s.dy) (d.abs s.dx)
      then (if d.less s.dx d.zero_d then 0 else 1)
      else (if d.less s.dy d.zero_d then 2 else 3)

  unfoldable pub handle_swipe_end : Env D → ℕ → Bool → State D → State D × List (Output D)
  handle_swipe_end env time cancelled s =
      if not s.ours
      then (s, sent (swipe_end time cancelled) ∷ [])
      else let short = d.less (greater_of (d.abs s.dx) (d.abs s.dy)) (d.hundredths 10000) in
        (
          record s { ours = false },
          if cancelled || env.lock_active || short
              then []
              else run_bindings (swipe_motion s) s.fingers env.gestures,
        )

  -- `input_handle_pinch_begin`, `_update` and `_end`. The monitor is looked for only when the modifier
  -- of the magnifier is held and the session is not locked.
  unfoldable pub magnified : Env D → Option (ℕ × D)
  magnified env =
      if not env.lock_active
        && not (env.pinch_zoom_modifier == 0)
        && (clean_mask env.modifiers == clean_mask env.pinch_zoom_modifier)
      then env.monitor_at
      else none

  unfoldable pub handle_pinch_begin : Env D → ℕ → ℕ → State D → State D × List (Output D)
  handle_pinch_begin env time count s = elim (magnified env) [
    | some (monitor, level) ↦ (record s { zoom = level }, activity ∷ [])
    | none ↦
        if bound env true count
        then (record s { ours = true; fingers = count; scale = d.hundredths 100 }, activity ∷ [])
        else (record s { ours = false }, activity ∷ sent (pinch_begin time count) ∷ [])
  ]

  abbrev pub zoom_at : Option (ℕ × D) → D → D → List (Output D)
  zoom_at none level by = []
  zoom_at (some (monitor, old)) level by = zoomed monitor (d.times level (d.narrow by)) ∷ []

  unfoldable pub handle_pinch_update :
      Env D → ℕ → D → D → D → D → State D → State D × List (Output D)
  handle_pinch_update env time x y by rotation s =
      if d.nonzero s.zoom
      then (s, activity ∷ zoom_at env.monitor_at s.zoom by)
      else if s.ours
      then (record s { scale = by }, activity ∷ [])
      else (s, activity ∷ sent (pinch_update time x y by rotation) ∷ [])

  -- `PinchIn` and `PinchOut` at the scales 0.8 and 1.25.
  unfoldable pub run_pinch : Env D → State D → List (Output D)
  run_pinch env s =
      if d.at_most s.scale (d.hundredths 80)
      then run_bindings 4 s.fingers env.gestures
      else if d.at_most (d.hundredths 125) s.scale
      then run_bindings 5 s.fingers env.gestures
      else []

  unfoldable pub handle_pinch_end : Env D → ℕ → Bool → State D → State D × List (Output D)
  handle_pinch_end env time cancelled s =
      if d.nonzero s.zoom
      then (record s { zoom = d.zero_d }, [])
      else if not s.ours
      then (s, sent (pinch_end time cancelled) ∷ [])
      else (record s { ours = false }, if cancelled || env.lock_active then [] else run_pinch env s)

  -- A handler, by its event. Holds are always for the client.
  unfoldable pub handle : Env D → Event D → State D → State D × List (Output D)
  handle env (swipe_begin time count) s = handle_swipe_begin env time count s
  handle env (swipe_update time x y) s = handle_swipe_update time x y s
  handle env (swipe_end time cancelled) s = handle_swipe_end env time cancelled s
  handle env (pinch_begin time count) s = handle_pinch_begin env time count s
  handle env (pinch_update time x y by rotation) s = handle_pinch_update env time x y by rotation s
  handle env (pinch_end time cancelled) s = handle_pinch_end env time cancelled s
  handle env (hold_begin time count) s = (s, activity ∷ sent (hold_begin time count) ∷ [])
  handle env (hold_end time cancelled) s = (s, sent (hold_end time cancelled) ∷ [])

  -- A sequence of events, each with what its handler is told.
  unfoldable pub handle_all : List (Env D × Event D) → State D → State D × List (Output D)
  handle_all [] s = (s, [])
  handle_all ((env, event) ∷ events) s =
      let after = handle env event s in
      let rest = handle_all events after.0 in (rest.0, after.1 ++ rest.1)
