-- ===== src/Gesture/Forwarding.antt =====
-- src/input/gesture.c: gestures while the session is locked.
use g0wm.Common.{ℕ, ◌≡◌, refl, ap, ◌∙◌, Bool, true, false, none, List, [], ◌∷◌, ◌++◌}
use g0wm.Gesture.{
  Doubles, Event, swipe_begin, swipe_update, swipe_end, pinch_begin, pinch_update, pinch_end,
  hold_begin, hold_end, Env, State, Output, activity, sent, bound, handle_swipe_begin,
  handle_swipe_update, handle_swipe_end, magnified, handle_pinch_begin, handle_pinch_update,
  handle_pinch_end, handle, handle_all,
}

-- What a locked session does with an event: it is sent on, behind a notice of activity unless it is the
-- end of a gesture.
abbrev pub forwarded : {D : Type 0} → Event D → List (Output D)
forwarded (swipe_end time cancelled) = sent (swipe_end time cancelled) ∷ []
forwarded (pinch_end time cancelled) = sent (pinch_end time cancelled) ∷ []
forwarded (hold_end time cancelled) = sent (hold_end time cancelled) ∷ []
forwarded event = activity ∷ sent event ∷ []

abbrev pub all_forwarded : {D : Type 0} → List (Env D × Event D) → List (Output D)
all_forwarded [] = []
all_forwarded ((env, event) ∷ events) = forwarded event ++ all_forwarded events

abbrev pub AllLocked : {D : Type 0} → List (Env D × Event D) → Type 0
AllLocked [] = Unit {0}
AllLocked ((env, event) ∷ events) = (env.lock_active ≡ true) × AllLocked events

module _ {D : Type 0} (d : Doubles D) where
  abbrev pub IsFree : State D → Type 0
  IsFree s = (s.ours ≡ false) × (d.nonzero s.zoom ≡ false)

  bound-locked :
      (env : Env D) (pinch : Bool) (count : ℕ)
      → env.lock_active ≡ true
      → bound env pinch count ≡ false
  unfolding bound
  bound-locked env pinch count l = rw l refl

  magnified-locked : (env : Env D) → env.lock_active ≡ true → magnified d env ≡ none
  unfolding magnified
  magnified-locked env l = rw l refl

  -- A handler of a locked session sends its event on.
  handle-locked :
      (env : Env D) (event : Event D) (s : State D)
      → env.lock_active ≡ true
      → IsFree s
      → IsFree (handle d env event s).0 × ((handle d env event s).1 ≡ forwarded event)
  unfolding handle handle_swipe_begin handle_swipe_update handle_swipe_end handle_pinch_begin
      handle_pinch_update handle_pinch_end
  handle-locked env (swipe_begin time count) s l (o, z) =
      rw (bound-locked env false count l, z) ((refl, refl), refl)
  handle-locked env (swipe_update time x y) s l (o, z) = rw (o, z) ((refl, refl), refl)
  handle-locked env (swipe_end time cancelled) s l (o, z) = rw (o, z) ((refl, refl), refl)
  handle-locked env (pinch_begin time count) s l (o, z) =
      rw (handle, handle_pinch_begin, magnified-locked env l, bound-locked env true count l, z)
        ((refl, refl), refl)
  handle-locked env (pinch_update time x y by rotation) s l (o, z) =
      rw (z, o, z) ((refl, refl), refl)
  handle-locked env (pinch_end time cancelled) s l (o, z) = rw (z, o, z) ((refl, refl), refl)
  handle-locked env (hold_begin time count) s l h = (h, refl)
  handle-locked env (hold_end time cancelled) s l h = (h, refl)

  -- While the session is locked every event is sent on to the client, all in their order, each but the
  -- end of a gesture behind a notice of activity, and nothing else is done; if no gesture was for a
  -- binding or the magnifier when it was locked.
  pub handle_all-locked :
      (events : List (Env D × Event D)) (s : State D)
      → AllLocked events
      → IsFree s
      → (handle_all d events s).1 ≡ all_forwarded events
  unfolding handle_all
  handle_all-locked [] s l f = refl
  handle_all-locked ((env, event) ∷ events) s l f =
      let after = handle d env event s in
      let one = handle-locked env event s l.0 f in
      ap (◌++◌ after.1) (handle_all-locked events after.0 l.1 one.0)
      ∙ ap (λ o. o ++ all_forwarded events) one.1
