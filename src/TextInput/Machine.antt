-- ===== src/TextInput/Machine.antt =====
-- src/input/textinput.c: proofs on sequences of handlers.
use g0wm.Common.{
  ℕ, ◌≡◌, refl, sym, ◌∙◌, true, false, Option, none, List, [], ◌∷◌, ◌==◌, mem, arith, if◌then◌else◌,
}
use g0wm.TextInput.{
  Input, Composed, State, Wlroots, update, handle_disable, handle_destroy, handle_im_commit,
  handle_im_destroy, handle_new_input_method, handle_new_text_input, handle_focus_change,
}
use g0wm.TextInput.Sees.{
  Told, update-Told, handle_disable-Told, handle_destroy-Told, handle_im_commit-Told,
  handle_im_destroy-Told, handle_new_input_method-Told, handle_new_text_input-Told,
  handle_focus_change-Told,
}
use g0wm.TextInput.Focus.{Documented}
use g0wm.TextInput.Follows.{
  Follows, Quiet-Follows, handle_disable-Quiet, handle_disable-served, handle_im_commit-Quiet,
  handle_destroy-Follows, sync-Follows, Follows-Own, changed-Follows, new_text_input-Follows,
  new_input_method-Follows,
}

-- What calls a handler, and wlroots taking the surface away from a text input when it is destroyed.
pub data Event : Type 0 where
  changed : ℕ → Input → Event
  disabled destroyed unfocused new_text_input : ℕ → Event
  composed : Composed → Event
  im_destroyed : Event
  new_input_method : ℕ → Event
  focus_changed : Option ℕ → Event

-- Only text inputs that there are change, and a new one is not one of them and has no surface.
abbrev pub Allowed : Event → State → Type 0
Allowed (changed t input) s = mem t s.inputs ≡ true
Allowed (new_text_input t) s = (mem t s.inputs ≡ false) × (s.focused t ≡ none)
Allowed _ s = Unit {0}

module _ (w : Wlroots) where
  unfoldable pub step : Event → State → State
  step (changed t input) s = update t input s
  step (disabled t) s = handle_disable t s
  step (destroyed t) s = handle_destroy t s
  step (unfocused t) s = record s { focused = λ u. if u == t then none else s.focused u }
  step (new_text_input t) s = handle_new_text_input w t s
  step (composed c) s = handle_im_commit c s
  step im_destroyed s = handle_im_destroy w s
  step (new_input_method im) s = handle_new_input_method w im s
  step (focus_changed surface) s = handle_focus_change w surface s

  unfoldable pub run : List Event → State → State
  run [] s = s
  run (event ∷ events) s = run events (step event s)

  abbrev pub AllAllowed : List Event → State → Type 0
  AllAllowed [] s = Unit {0}
  AllAllowed (event ∷ events) s = Allowed event s × AllAllowed events (step event s)

  step-Told : (event : Event) (s : State) → Told s → Told (step event s)
  unfolding step
  step-Told (changed t input) s v = update-Told t input s v
  step-Told (disabled t) s v = handle_disable-Told t s v
  step-Told (destroyed t) s v = handle_destroy-Told t s v
  step-Told (unfocused t) s v = record {
    served_im = v.served_im;
    connected = v.connected;
    alone = v.alone;
  }
  step-Told (new_text_input t) s v = handle_new_text_input-Told w t s v
  step-Told (composed c) s v = handle_im_commit-Told c s v
  step-Told im_destroyed s v = handle_im_destroy-Told w s v
  step-Told (new_input_method im) s v = handle_new_input_method-Told w im s v
  step-Told (focus_changed surface) s v = handle_focus_change-Told w surface s v

  -- The input method is told in order: whatever happens, each activate comes when it is inactive, each
  -- deactivate and each state when it is active, and with an input method connected the last thing that
  -- it was told is done with whether it has a text input to serve; if it is so at the start.
  pub run-Told : (events : List Event) (s : State) → Told s → Told (run events s)
  unfolding run
  run-Told [] s v = v
  run-Told (event ∷ events) s v = run-Told events (step event s) (step-Told event s v)

module _ (w : Wlroots) (doc : Documented w) where
  step-Follows :
      (event : Event) (s : State) → Allowed event s → Follows s → Follows (step w event s)
  unfolding step handle_im_destroy handle_focus_change
  step-Follows (changed t input) s a v = changed-Follows w doc t input s a v
  step-Follows (disabled t) s a v =
      Quiet-Follows s (handle_disable t s) (handle_disable-Quiet t s)
        (λ u e. v.listed u (handle_disable-served t u s e).0) v
  step-Follows (destroyed t) s a v = handle_destroy-Follows t s v
  step-Follows (unfocused t) s a v = record {
    follows = λ u f m e. v.follows u f m (ground (arith, e));
    listed = v.listed;
  }
  step-Follows (new_text_input t) s a v = new_text_input-Follows w doc t s a.1 v
  step-Follows (composed c) s a v =
      let q = handle_im_commit-Quiet c s in
      Quiet-Follows s (handle_im_commit c s) q.0 (λ u e. v.listed u (sym q.1 ∙ e)) v
  step-Follows im_destroyed s a v =
      sync-Follows w doc none (record s { im = none; served = none }) (Follows-Own w doc s v)
        (λ u e. cc e) (λ i. cc i)
  step-Follows (new_input_method im) s a v = new_input_method-Follows w doc im s v
  step-Follows (focus_changed surface) s a v =
      sync-Follows w doc surface (record s { keyboard_focus = surface }) (Follows-Own w doc s v)
        v.listed (λ i. refl)

  -- From a state with no text inputs on, a text input that is listed has a surface only while an input
  -- method is connected, and that surface is the one of the keyboard and of its own client; and the text
  -- input that is served is listed, never one that was destroyed. wlroots keeps to what it documents.
  pub run-Follows :
      (events : List Event) (s : State)
      → AllAllowed w events s
      → Follows s
      → Follows (run w events s)
  unfolding run
  run-Follows [] s a v = v
  run-Follows (event ∷ events) s a v =
      run-Follows events (step w event s) a.1 (step-Follows event s a.0 v)
