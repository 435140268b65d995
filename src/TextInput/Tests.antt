-- ===== src/TextInput/Tests.antt =====
-- src/input/textinput.c: an input method, a text input of client 7, and the keyboard on its surface.
use g0wm.Common.{◌≡◌, refl, true, false, none, some, List, [], ◌∷◌, ◌==◌, if◌then◌else◌}
use g0wm.TextInput.{
  State, Wlroots, sync, is_some, sync_all, sync_one, leave_one, enter_one, is_stale, update,
  activate, send_state, deactivate, handle_new_text_input, handle_new_input_method,
  handle_focus_change,
}
use g0wm.TextInput.Sees.{Told}
use g0wm.TextInput.Focus.{Documented, wanted, sync-wanted}
use g0wm.TextInput.Follows.{Follows}
use g0wm.TextInput.Machine.{
  Event, changed, new_input_method, new_text_input, focus_changed, destroyed, im_destroyed, run,
  step, run-Follows, run-Told,
}
use g0wm.TextInput.Keys.{Grabs, textinput_key}
use g0wm.TextInput.Keys.Release.{key_all, no_keys, owed, textinput_key-release}

abbrev plain : Wlroots
plain = record {
  send_leave = λ t focused u. if u == t then none else focused u;
  send_enter = λ t f focused u. if u == t then some f else focused u;
}

plain-Documented : Documented plain
plain-Documented = record { left = λ t u focused. refl; entered = λ t f u focused. refl }

abbrev nothing_yet : State
nothing_yet = record {
  im = none;
  served = none;
  inputs = [];
  focused = λ t. none;
  owner = λ t. 7;
  surface_owner = λ f. if f == 3 then 7 else 8;
  keyboard_focus = some 3;
  requests = [];
}

abbrev typed_in : List Event
typed_in =
    new_text_input 1
    ∷ new_input_method 5
    ∷ changed 1 (record { enabled = true; has_text = true; has_type = false })
    ∷ focus_changed (some 4)
    ∷ destroyed 1
    ∷ im_destroyed
    ∷ []

nothing-Follows : Follows nothing_yet
nothing-Follows = record { follows = λ t f m e. cc m; listed = λ t e. cc e }

nothing-Told : Told nothing_yet
nothing-Told = record { served_im = λ i. refl; connected = λ i. cc i; alone = λ i. (_, refl) }

run-Follows_example : Follows (run plain typed_in nothing_yet)
unfolding step handle_new_text_input handle_new_input_method sync sync_all sync_one leave_one
    enter_one is_stale update activate send_state deactivate handle_focus_change
run-Follows_example =
    run-Follows plain plain-Documented typed_in nothing_yet
      ((refl, refl), (tt, (refl, (tt, (tt, (tt, tt)))))) nothing-Follows

run-Told_example : Told (run plain typed_in nothing_yet)
run-Told_example = run-Told plain typed_in nothing_yet nothing-Told

abbrev one_input : State
one_input = record nothing_yet { im = some 5; inputs = 1 ∷ [] }

sync-wanted_example :
    (sync plain (some 3) one_input).focused 1
    ≡ wanted (if is_some one_input.im then some 3 else none) 1 one_input
sync-wanted_example = sync-wanted plain plain-Documented (some 3) one_input 1 (λ u m f e. cc e) refl

abbrev grabbed : Grabs
grabbed = record { lock_active = false; im_grab = some 2; vkb = none }

abbrev locked : Grabs
locked = record grabbed { lock_active = true }

textinput_key-release_example :
    let before = key_all ((grabbed, record { keycode = 30; pressed = true }) ∷ []) no_keys [] in
    (textinput_key locked (record { keycode = 30; pressed = false }) before.0).taken
    ≡ owed 30 before.1
textinput_key-release_example =
    textinput_key-release ((grabbed, record { keycode = 30; pressed = true }) ∷ []) locked
      (record { keycode = 30; pressed = false }) refl
