-- ===== src/Gesture/Tests.antt =====
-- src/input/gesture.c: a swipe for a binding, then a pinch for the client.
use g0wm.Common.{
  ℕ, ◌+◌, ◌*◌, ◌≡◌, refl, true, false, not, none, some, List, [], ◌∷◌, ◌==◌, ltb, leb, arith,
}
use g0wm.Settings.Types.{lit}
use g0wm.Gesture.{
  Doubles, Event, swipe_begin, swipe_update, swipe_end, pinch_begin, pinch_update, Env, State,
  handle_all,
}
use g0wm.Gesture.Client.{client_sees, pinch}
use g0wm.Gesture.Steps.{client_has, MonitorZoomed}
use g0wm.Gesture.Whole.{handle_all-whole}
use g0wm.Gesture.Forwarding.{all_forwarded, handle_all-locked}

-- Hundredths.
abbrev counted : Doubles ℕ
counted = record {
  zero_d = 0;
  plus = λ x y. x + y;
  times = λ x y. x * y;
  abs = λ x. x;
  narrow = λ x. x;
  less = ltb;
  at_most = leb;
  nonzero = λ x. not (x == 0);
  hundredths = λ n. n;
}

abbrev three_fingers : Env ℕ
three_fingers = record {
  gestures = record { motion = 1; fingers = 3; func = some (lit "layout_view") } ∷ [];
  lock_active = false;
  pinch_zoom_modifier = 64;
  modifiers = 0;
  monitor_at = none;
}

abbrev locked : Env ℕ
locked = record three_fingers { lock_active = true }

abbrev at_rest : State ℕ
at_rest = record { ours = false; fingers = 0; dx = 0; dy = 0; scale = 0; zoom = 0 }

abbrev touched : Env ℕ → List (Env ℕ × Event ℕ)
touched env =
    (env, swipe_begin 1 3)
    ∷ (env, swipe_update 2 15000 10)
    ∷ (env, swipe_end 3 false)
    ∷ (env, pinch_begin 4 2)
    ∷ (env, pinch_update 5 0 0 150 0)
    ∷ []

far : MonitorZoomed counted three_fingers
far monitor level e = absurd (ground (arith, e))

handle_all-whole_example :
    client_sees none (handle_all counted (touched three_fingers) at_rest).1
    ≡ some (client_has counted (some pinch) (handle_all counted (touched three_fingers) at_rest).0)
handle_all-whole_example =
    handle_all-whole counted refl (touched three_fingers) (some pinch) at_rest
      (far, (far, (far, (far, (far, tt))))) (refl, refl) refl

handle_all-locked_example :
    (handle_all counted (touched locked) at_rest).1 ≡ all_forwarded (touched locked)
handle_all-locked_example =
    handle_all-locked counted (touched locked) at_rest (refl, (refl, (refl, (refl, (refl, tt)))))
      (refl, refl)
