-- ===== src/Gesture/Whole.antt =====
-- src/input/gesture.c: proofs on sequences of gestures.
use mathlib.Core.Path.{subst}
use mathlib.Core.Option.{some-injective}
use g0wm.Common.{◌≡◌, refl, sym, ap, ◌∙◌, false, Option, none, some, List, [], ◌∷◌, arith}
use g0wm.Gesture.{Doubles, Event, Env, State, handle, handle_all}
use g0wm.Gesture.Client.{Kind, follow, follow_all, client_sees, client_sees-append}
use g0wm.Gesture.Steps.{client_has, Fits, MonitorZoomed, Handled, handled}

module _ {D : Type 0} (d : Doubles D) (zero_zero : d.nonzero d.zero_d ≡ false) where
  abbrev pub AllZoomed : List (Env D × Event D) → Type 0
  AllZoomed [] = Unit {0}
  AllZoomed ((env, event) ∷ events) = MonitorZoomed d env × AllZoomed events

  all-Handled :
      (events : List (Env D × Event D)) (k after : Option Kind) (s : State D)
      → AllZoomed events
      → Fits d k s
      → follow_all k events ≡ some after
      → Handled d k after s (handle_all d events s)
  unfolding handle_all
  all-Handled [] k after s m h e =
      subst (λ j. Handled d k j s (s, [])) (some-injective k after e) (h, refl)
  all-Handled ((env, event) ∷ events) k after s m h e =
      go (follow k event) (λ j. handled d zero_zero env event k j s m.0 h)
        (λ j f g. all-Handled events j after (handle d env event s).0 m.1 f g) e
    where
      go :
          (next : Option (Option Kind))
          → ((j : Option Kind) → next ≡ some j → Handled d k j s (handle d env event s))
          → ((j : Option Kind)
              → Fits d j (handle d env event s).0
              → follow_all j events ≡ some after
              → Handled d j after
                  (handle d env event s).0
                  (handle_all d events (handle d env event s).0))
          → (elim next as (λ _. Option (Option Kind)) [
            | none ↦ none
            | some j ↦ follow_all j events
          ])
            ≡ some after
          → Handled d k after s (handle_all d ((env, event) ∷ events) s)
      go none one ih g = absurd (ground (arith, g))
      go (some j) one ih g =
          let first = one j refl in
          let rest = ih j first.0 g in
          (
            rest.0,
            client_sees-append D (client_has d k s) (client_has d j (handle d env event s).0)
                  (handle d env event s).1 (handle_all d events (handle d env event s).0).1 first.1
                ∙ rest.1,
          )

  -- Whatever bindings there are, whatever is held and whether the session is locked: from rest on,
  -- for gestures that libinput reports whole, the client sees whole gestures too, and no binding runs
  -- and no zoom changes while it has one; in the end it has the gesture that is under way, or none if
  -- that is for a binding or the magnifier. The zoom of the monitor under the pointer is not 0.
  pub handle_all-whole :
      (events : List (Env D × Event D)) (after : Option Kind) (s : State D)
      → AllZoomed events
      → Fits d none s
      → follow_all none events ≡ some after
      → client_sees none (handle_all d events s).1
        ≡ some (client_has d after (handle_all d events s).0)
  handle_all-whole events after s m (o, z) e =
      let start : client_has d none s ≡ none = rw (o, z) refl in
      ap (λ k. client_sees k (handle_all d events s).1) (sym start)
      ∙ (all-Handled events none after s m (o, z) e).1
