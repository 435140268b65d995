-- ===== src/TextInput.antt =====
-- src/input/textinput.c: the relay between text inputs and the input method.
pub mod Keys
mod Sees
mod Focus
mod Follows
mod Machine
mod Tests
use g0wm.Common.{
  ℕ, Bool, true, false, not, ◌&&◌, ◌||◌, Option, none, some, List, [], ◌∷◌, ◌==◌, if◌then◌else◌,
}

-- Calls of wlroots: to the input method, to a text input, and for the popups of the input method.
pub data Request : Type 0 where
  im_unavailable im_connected im_activate im_deactivate im_text im_cause im_type im_done : Request
  popups_placed : Request
  leave enter preedit commit_text delete_text input_done : ℕ → Request

-- What a text input of wlroots says: whether it is enabled, and which features it has.
pub record Input : Type 0 where
  pub enabled : Bool
  pub has_text : Bool
  pub has_type : Bool

-- What the input method has committed.
pub record Composed : Type 0 where
  pub preedited : Bool
  pub committed : Bool
  pub deleted : Bool

-- `textinput_im`, `textinput_served`, `textinput_list`, the `focused_surface` of the text inputs and of
-- the seat's keyboard, and the clients that own text inputs and surfaces. `requests` holds the calls
-- that were made, newest first.
pub record State : Type 0 where
  pub im : Option ℕ
  pub served : Option ℕ
  pub inputs : List ℕ
  pub focused : ℕ → Option ℕ
  pub owner : ℕ → ℕ
  pub surface_owner : ℕ → ℕ
  pub keyboard_focus : Option ℕ
  pub requests : List Request

-- What `wlr_text_input_v3_send_leave` and `wlr_text_input_v3_send_enter` make of the surfaces that have
-- the focus of the text inputs.
pub record Wlroots : Type 0 where
  pub send_leave : ℕ → (ℕ → Option ℕ) → ℕ → Option ℕ
  pub send_enter : ℕ → ℕ → (ℕ → Option ℕ) → ℕ → Option ℕ

abbrev pub ask : Request → State → State
ask r s = record s { requests = r ∷ s.requests }

-- A call under a condition.
abbrev pub ask_if : Bool → Request → State → State
ask_if b r s = record s { requests = if b then r ∷ s.requests else s.requests }

abbrev pub same_option : Option ℕ → Option ℕ → Bool
same_option none none = true
same_option (some a) (some b) = a == b
same_option _ _ = false

abbrev pub is_some : Option ℕ → Bool
is_some none = false
is_some (some a) = true

-- `textinput_send_state`
unfoldable pub send_state : Input → State → State
send_state input s =
    let cause = ask im_cause (ask_if input.has_text im_text s) in
    ask im_done (ask popups_placed (ask_if input.has_type im_type cause))

-- `textinput_deactivate`
unfoldable pub deactivate : State → State
deactivate s =
    if is_some s.served
    then ask popups_placed (
        ask_if (is_some s.im) im_done
          (ask_if (is_some s.im) im_deactivate (record s { served = none })))
    else s

-- `textinput_activate`
unfoldable pub activate : ℕ → Input → State → State
activate t input s = send_state input (ask im_activate (record (deactivate s) { served = some t }))

-- `textinput_update`, which the enabling and the committing of a text input call.
unfoldable pub update : ℕ → Input → State → State
update t input s =
    if not (is_some s.im) || not (is_some (s.focused t)) || not input.enabled
    then s
    else if same_option (some t) s.served
    then send_state input s
    else activate t input s

-- `textinput_handle_disable`
unfoldable pub handle_disable : ℕ → State → State
handle_disable t s = if same_option (some t) s.served then deactivate s else s

abbrev pub without : ℕ → List ℕ → List ℕ
without t [] = []
without t (u ∷ inputs) = if u == t then without t inputs else u ∷ without t inputs

-- `textinput_handle_destroy`
unfoldable pub handle_destroy : ℕ → State → State
handle_destroy t s =
    let after = handle_disable t s in record after { inputs = without t after.inputs }

-- `textinput_handle_im_commit`
unfoldable pub handle_im_commit : Composed → State → State
handle_im_commit composed s = elim s.served [
  | none ↦ s
  | some t ↦
      if is_some (s.focused t)
      then ask (input_done t) (
          ask_if composed.deleted (delete_text t)
            (ask_if composed.committed (commit_text t) (ask_if composed.preedited (preedit t) s)))
      else s
]

module _ (w : Wlroots) where
  unfoldable pub leave_one : ℕ → State → State
  leave_one t s =
      if is_some (s.focused t)
      then ask (leave t) (record s { focused = w.send_leave t s.focused })
      else s

  unfoldable pub enter_one : Option ℕ → ℕ → State → State
  enter_one none t s = s
  enter_one (some surface) t s =
      if s.owner t == s.surface_owner surface
      then ask (enter t) (record s { focused = w.send_enter t surface s.focused })
      else s

  -- The loop of `textinput_sync`.
  unfoldable pub sync_one : Option ℕ → ℕ → State → State
  sync_one surface t s =
      if same_option (s.focused t) surface then s else enter_one surface t (leave_one t s)

  unfoldable pub sync_all : Option ℕ → List ℕ → State → State
  sync_all surface [] s = s
  sync_all surface (t ∷ inputs) s = sync_all surface inputs (sync_one surface t s)

  -- Whether the text input that is served has another surface than that, or none.
  unfoldable pub is_stale : Option ℕ → State → Bool
  is_stale surface s = elim s.served [
    | none ↦ false
    | some t ↦ not (is_some (s.focused t)) || not (same_option (s.focused t) surface)
  ]

  -- `textinput_sync`
  unfoldable pub sync : Option ℕ → State → State
  sync focus s =
      let surface = if is_some s.im then focus else none in
      let fresh = if is_stale surface s then deactivate s else s in
      ask popups_placed (sync_all surface fresh.inputs fresh)

  -- `textinput_handle_im_destroy`
  unfoldable pub handle_im_destroy : State → State
  handle_im_destroy s = sync none (record s { im = none; served = none })

  -- `textinput_handle_new_input_method`
  unfoldable pub handle_new_input_method : ℕ → State → State
  handle_new_input_method im s =
      if is_some s.im
      then ask im_unavailable s
      else sync s.keyboard_focus (ask im_connected (record s { im = some im }))

  -- `textinput_handle_new_text_input`, of a text input of the own seat, which has no surface yet.
  unfoldable pub handle_new_text_input : ℕ → State → State
  handle_new_text_input t s = sync s.keyboard_focus (record s { inputs = t ∷ s.inputs })

  -- `textinput_handle_focus_change`
  unfoldable pub handle_focus_change : Option ℕ → State → State
  handle_focus_change surface s = sync surface (record s { keyboard_focus = surface })
