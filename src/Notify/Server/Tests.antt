-- ===== src/Notify/Server/Tests.antt =====
-- Runs of the notification server, and its theorems at concrete states.
use g0wm.Common.{◌*◌, ◌≡◌, refl, true, false, List, [], ◌∷◌, none, some, arith, length}
use g0wm.Notify.{
  Notification, Env, State, normal, critical, blank, current, hold, enqueue, make_room, put_queue,
  arm, show_or_next, show, drop_unshown, history_push_cur, history_push, notify_closed, drop_hist,
  hist_slot, push_hist, show_next, show_next_loop, bring_up, next_index, unqueue, show_or_drop,
  clear, expire, dismiss, put_away, redraw, release, unseen_critical, expires, same_slot, add_timer,
  update_timer,
}
use g0wm.Notify.Server.{
  start, stop, deliver, pick_id, fresh_id, slot_id, queue_slot_id, place, take_box, replace_queued,
}
use g0wm.Notify.Valid.{IsValid}
use g0wm.Notify.Screen.{IsShown}
use g0wm.Notify.Icons.{count}
use g0wm.Notify.Machine.{
  Event, notify, times_out, dismisses, dismisses_all, run, step, step-IsValid, run-start-IsValid,
  run-start-IsShown, dismiss_all_held_silences,
}
use g0wm.Notify.Machine.Icons.{arrivals, count-freed-stop}
use g0wm.Notify.Timing.{hold_resumes}

-- Each external call takes a second, and none fails.
abbrev world : Env
world = record {
  clock = λ n. n * 1000;
  add_timer = λ n. true;
  timer_update = λ n. true;
  token = λ n. true;
}

abbrev mail : Notification
mail = record blank {
  urgency = normal;
  timeout_ms = 5000;
  text = b'm' ∷ [];
  app = b'm' ∷ [];
  icon = some 7;
}

abbrev alarm : Notification
alarm = record blank { urgency = critical; text = b'a' ∷ []; app = b'a' ∷ []; icon = some 8 }

abbrev zeroed : State
zeroed = record {
  timer = none;
  has_redraw = false;
  has_token = false;
  default_ms = 0;
  seq = 0;
  active = false;
  running = false;
  held = false;
  heldleft = 0;
  cur = blank;
  queue = [];
  hist = [];
  calls = 0;
  signals = [];
  freed = [];
  fault = false;
}

-- `mail` on screen since 1000, held with nothing queued.
abbrev showing : State
showing = record zeroed {
  timer = some 5000;
  active = true;
  running = true;
  seq = 1;
  calls = 3;
  cur = record mail { id = 1; shown_ms = 1000; seen = true };
}

abbrev script : List Event
script = notify 0 mail ∷ notify 0 alarm ∷ notify 1 mail ∷ times_out ∷ dismisses ∷ []

step-IsValid_example : IsValid (step world dismisses showing)
step-IsValid_example = step-IsValid world dismisses showing (ground arith)

run-start-IsValid_example : IsValid (run world script (start true true true true true 5 zeroed))
run-start-IsValid_example = run-start-IsValid world script true true true true 5 zeroed refl

run-start-IsShown_example : IsShown (run world script (start true true true true true 5 zeroed))
run-start-IsShown_example =
    run-start-IsShown world script true true true true 5 zeroed refl
      (tt, (tt, (tt, (tt, (tt, tt)))))

dismiss_all_held_silences_example :
    current (run world script (step world dismisses_all (record showing { held = true }))) ≡ none
dismiss_all_held_silences_example =
    dismiss_all_held_silences world script (record showing { held = true }) (ground arith) refl refl

hold_resumes_example : (hold world false (hold world true showing)).held ≡ false
hold_resumes_example =
    (hold_resumes world showing 5000 3000 refl refl refl refl refl (omega arith) (omega arith)
      (omega arith) (omega arith) (omega arith) (omega arith) (omega arith) (omega arith) refl).1

-- `alarm` covers `mail`, which is then updated in the queue, comes back when the alarm is dismissed,
-- and goes to the history.
script-run :
    let t = run world script (start true true true true true 5 zeroed) in
    (current t ≡ none) × (length t.hist ≡ 2) × (t.freed ≡ 7 ∷ []) × (t.timer ≡ some 0)
unfolding run step start current deliver pick_id fresh_id slot_id queue_slot_id place take_box
    replace_queued enqueue make_room put_queue arm show_or_next show drop_unshown history_push_cur
    history_push notify_closed drop_hist hist_slot push_hist show_next show_next_loop bring_up
    next_index unqueue show_or_drop clear expire dismiss put_away redraw release unseen_critical
    expires same_slot add_timer update_timer
script-run = (refl, refl, refl, refl)

count-freed-stop_example :
    count 7 (stop world (run world script (start true true true true true 5 zeroed))).freed ≡ 2
unfolding run step start current deliver pick_id fresh_id slot_id queue_slot_id place take_box
    replace_queued enqueue make_room put_queue arm show_or_next show drop_unshown history_push_cur
    history_push notify_closed drop_hist hist_slot push_hist show_next show_next_loop bring_up
    next_index unqueue show_or_drop clear expire dismiss put_away redraw release unseen_critical
    expires same_slot add_timer update_timer arrivals
count-freed-stop_example = count-freed-stop 7 world script true true 5 zeroed refl refl refl
