-- ===== src/Gesture/Steps.antt =====
-- src/input/gesture.c: proofs on one handler, and what the client sees of it.
use mathlib.Core.Path.{subst}
use mathlib.Core.Option.{some-injective}
use g0wm.Common.{
  ℕ, ◌≡◌, refl, Bool, true, false, ◌&&◌, ◌||◌, Option, none, some, List, [], ◌∷◌, arith, Bool-cases,
  inl, inr, if◌then◌else◌,
}
use g0wm.Gesture.{
  Doubles, Event, swipe_begin, swipe_update, swipe_end, pinch_begin, pinch_update, pinch_end,
  hold_begin, hold_end, Env, State, Output, activity, sent, bound, run_bindings, handle_swipe_begin,
  handle_swipe_update, handle_swipe_end, magnified, zoom_at, greater_of, swipe_motion,
  handle_pinch_begin, handle_pinch_update, run_pinch, handle_pinch_end, handle,
}
use g0wm.Gesture.Client.{
  Kind, swipe, pinch, hold, follow, client_sees, client_sees-run_bindings, unless_run, option_cases,
}

module _ {D : Type 0} (d : Doubles D) where
  -- The gesture that the client has: none, while it is for a binding or for the magnifier.
  abbrev pub client_has : Option Kind → State D → Option Kind
  client_has k s = if s.ours || d.nonzero s.zoom then none else k

  -- At rest a gesture is for the client; a swipe is never for the magnifier, a pinch not for both.
  abbrev pub Fits : Option Kind → State D → Type 0
  Fits none s = (s.ours ≡ false) × (d.nonzero s.zoom ≡ false)
  Fits (some swipe) s = d.nonzero s.zoom ≡ false
  Fits (some pinch) s = (s.ours && d.nonzero s.zoom) ≡ false
  Fits (some hold) s = (s.ours ≡ false) × (d.nonzero s.zoom ≡ false)

  -- The zoom of the monitor under the pointer is not 0.
  abbrev pub MonitorZoomed : Env D → Type 0
  MonitorZoomed env =
      (monitor : ℕ) (level : D) → env.monitor_at ≡ some (monitor, level) → d.nonzero level ≡ true

  abbrev pub Handled : Option Kind → Option Kind → State D → State D × List (Output D) → Type 0
  Handled k after s (s', outputs) =
      Fits after s' × (client_sees (client_has k s) outputs ≡ some (client_has after s'))

  module _ (zero_zero : d.nonzero d.zero_d ≡ false) where
    swipe_begun :
        (env : Env D) (time count : ℕ) (s : State D)
        → Fits none s
        → Handled none (some swipe) s (handle_swipe_begin d env time count s)
    unfolding handle_swipe_begin
    swipe_begun env time count s (o, z) = elim (Bool-cases (bound env false count)) [
      | inl e ↦ rw (e, o, z) (refl, refl)
      | inr e ↦ rw (e, o, z) (refl, refl)
    ]

    swipe_updated :
        (time : ℕ) (x y : D) (s : State D)
        → Fits (some swipe) s
        → Handled (some swipe) (some swipe) s (handle_swipe_update d time x y s)
    unfolding handle_swipe_update
    swipe_updated time x y s z = elim (Bool-cases s.ours) [
      | inl e ↦ rw (e, z) (refl, refl)
      | inr e ↦ rw (e, z) (refl, refl)
    ]

    swipe_ended :
        (env : Env D) (time : ℕ) (cancelled : Bool) (s : State D)
        → Fits (some swipe) s
        → Handled (some swipe) none s (handle_swipe_end d env time cancelled s)
    unfolding handle_swipe_end swipe_motion
    swipe_ended env time cancelled s z = elim (Bool-cases s.ours) [
      | inl e ↦
          rw (e, z)
            (
              (refl, refl),
              unless_run D
                  (cancelled
                    || env.lock_active
                    || d.less (greater_of d (d.abs s.dx) (d.abs s.dy)) (d.hundredths 10000))
                  (run_bindings (swipe_motion d s) s.fingers env.gestures)
                  (client_sees-run_bindings D (swipe_motion d s) s.fingers env.gestures),
            )
      | inr e ↦ rw (e, z) ((refl, refl), refl)
    ]

    magnified_nonzero :
        (env : Env D)
        → MonitorZoomed env
        → (monitor : ℕ) (level : D) → magnified d env ≡ some (monitor, level)
        → d.nonzero level ≡ true
    unfolding magnified
    magnified_nonzero env m monitor level e = m monitor level (ground (arith, e))

    pinch_begun :
        (env : Env D) (time count : ℕ) (s : State D)
        → MonitorZoomed env
        → Fits none s
        → Handled none (some pinch) s (handle_pinch_begin d env time count s)
    unfolding handle_pinch_begin
    pinch_begun env time count s m (o, z) = elim (option_cases (magnified d env)) [
      | inr ((monitor, level), e) ↦
          rw (handle_pinch_begin, e, o, magnified_nonzero env m monitor level e, z) (refl, refl)
      | inl e ↦ elim (Bool-cases (bound env true count)) [
        | inl f ↦ rw (handle_pinch_begin, e, f, o, z) (refl, refl)
        | inr f ↦ rw (handle_pinch_begin, e, f, o, z) (refl, refl)
      ]
    ]

    pinch_seen : (env : Env D) (s : State D) → client_sees none (run_pinch d env s) ≡ some none
    unfolding run_pinch
    pinch_seen env s = elim (Bool-cases (d.at_most s.scale (d.hundredths 80))) [
      | inl e ↦ rw e (client_sees-run_bindings D 4 s.fingers env.gestures)
      | inr e ↦ elim (Bool-cases (d.at_most (d.hundredths 125) s.scale)) [
        | inl f ↦ rw (e, f) (client_sees-run_bindings D 5 s.fingers env.gestures)
        | inr f ↦ rw (e, f) refl
      ]
    ]

    zoom_seen :
        (at : Option (ℕ × D)) (level by : D) → client_sees none (zoom_at d at level by) ≡ some none
    zoom_seen none level by = refl
    zoom_seen (some (monitor, old)) level by = refl

    pinch_updated :
        (env : Env D) (time : ℕ) (x y by rotation : D) (s : State D)
        → Fits (some pinch) s
        → Handled (some pinch) (some pinch) s (handle_pinch_update d env time x y by rotation s)
    unfolding handle_pinch_update
    pinch_updated env time x y by rotation s b = elim (Bool-cases (d.nonzero s.zoom)) [
      | inl e ↦
          let free : s.ours ≡ false = ground (arith, b, e) in
          rw (e, free, e) (refl, zoom_seen env.monitor_at s.zoom by)
      | inr e ↦ elim (Bool-cases s.ours) [
        | inl f ↦ rw (e, f, e) (refl, refl)
        | inr f ↦ rw (e, f, e) (refl, refl)
      ]
    ]

    pinch_ended :
        (env : Env D) (time : ℕ) (cancelled : Bool) (s : State D)
        → Fits (some pinch) s
        → Handled (some pinch) none s (handle_pinch_end d env time cancelled s)
    unfolding handle_pinch_end run_pinch
    pinch_ended env time cancelled s b = elim (Bool-cases (d.nonzero s.zoom)) [
      | inl e ↦
          let free : s.ours ≡ false = ground (arith, b, e) in
          rw (e, free, zero_zero) ((refl, refl), refl)
      | inr e ↦ elim (Bool-cases s.ours) [
        | inl f ↦
            rw (e, f, e)
              (
                (refl, refl),
                unless_run D (cancelled || env.lock_active) (run_pinch d env s) (pinch_seen env s),
              )
        | inr f ↦ rw (e, f, e) ((refl, refl), refl)
      ]
    ]

    -- One event.
    pub handled :
        (env : Env D) (event : Event D) (k after : Option Kind) (s : State D)
        → MonitorZoomed env
        → Fits k s
        → follow k event ≡ some after
        → Handled k after s (handle d env event s)
    unfolding handle
    handled env (swipe_begin time count) none after s m h e =
        subst (λ k. Handled none k s (handle_swipe_begin d env time count s))
          (some-injective (some swipe) after e) (swipe_begun env time count s h)
    handled env (swipe_update time x y) (some swipe) after s m h e =
        subst (λ k. Handled (some swipe) k s (handle_swipe_update d time x y s))
          (some-injective (some swipe) after e) (swipe_updated time x y s h)
    handled env (swipe_end time cancelled) (some swipe) after s m h e =
        subst (λ k. Handled (some swipe) k s (handle_swipe_end d env time cancelled s))
          (some-injective none after e) (swipe_ended env time cancelled s h)
    handled env (pinch_begin time count) none after s m h e =
        subst (λ k. Handled none k s (handle_pinch_begin d env time count s))
          (some-injective (some pinch) after e) (pinch_begun env time count s m h)
    handled env (pinch_update time x y by rotation) (some pinch) after s m h e =
        subst (λ k. Handled (some pinch) k s (handle_pinch_update d env time x y by rotation s))
          (some-injective (some pinch) after e) (pinch_updated env time x y by rotation s h)
    handled env (pinch_end time cancelled) (some pinch) after s m h e =
        subst (λ k. Handled (some pinch) k s (handle_pinch_end d env time cancelled s))
          (some-injective none after e) (pinch_ended env time cancelled s h)
    handled env (hold_begin time count) none after s m (o, z) e =
        subst (λ k. Handled none k s (s, activity ∷ sent (hold_begin time count) ∷ []))
          (some-injective (some hold) after e) (rw (o, z) ((refl, refl), refl))
    handled env (hold_end time cancelled) (some hold) after s m (o, z) e =
        subst (λ k. Handled (some hold) k s (s, sent (hold_end time cancelled) ∷ []))
          (some-injective none after e) (rw (o, z) ((refl, refl), refl))
    handled env _ _ after s m h e = absurd (ground (arith, e))
