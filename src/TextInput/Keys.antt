-- ===== src/TextInput/Keys.antt =====
-- src/input/textinput.c: the keys that the input method takes.
pub mod Release
use g0wm.Common.{
  ℕ, Bool, true, false, not, ◌&&◌, ◌||◌, Option, none, some, List, [], ◌∷◌, ◌==◌, leb,
  if◌then◌else◌,
}

-- What is asked: the session lock, the keyboard grab of the input method with the client that has it,
-- and the client of the virtual keyboard, if the group is one.
pub record Grabs : Type 0 where
  pub lock_active : Bool
  pub im_grab : Option ℕ
  pub vkb : Option ℕ

-- `struct wlr_keyboard_key_event`
pub record KeyEvent : Type 0 where
  pub keycode : ℕ
  pub pressed : Bool

abbrev own_grab : ℕ → Option ℕ → Option ℕ
own_grab grab none = some grab
own_grab grab (some client) = if client == grab then none else some grab

-- `textinput_keyboard_grab`
unfoldable pub keyboard_grab : Grabs → Option ℕ
keyboard_grab g =
    if g.lock_active then none else elim g.im_grab [ none ↦ none | some grab ↦ own_grab grab g.vkb ]

-- `imkeys`, the keys whose press the input method took; bit `keycode % 32` of word `keycode / 32` is the
-- value at `keycode`.
abbrev pub ImKeys : Type 0
ImKeys = ℕ → Bool

abbrev pub put_bit : ℕ → Bool → ImKeys → ImKeys
put_bit keycode b imkeys k = if k == keycode then b else imkeys k

abbrev pub has_grab : Option ℕ → Bool
has_grab none = false
has_grab (some grab) = true

-- What `textinput_key` does: whether the key was taken, the keys afterwards, and whether it is sent to
-- the input method.
pub record KeyResult : Type 0 where
  pub taken : Bool
  pub imkeys : ImKeys
  pub sent : Bool

-- `textinput_key`; `KEY_CNT` is 768.
unfoldable pub textinput_key : Grabs → KeyEvent → ImKeys → KeyResult
textinput_key g event imkeys =
    let grab = has_grab (keyboard_grab g) in
    if leb 768 event.keycode
    then record { taken = false; imkeys = imkeys; sent = false }
    else if event.pressed
    then (if not grab
        then record { taken = false; imkeys = imkeys; sent = false }
        else record { taken = true; imkeys = put_bit event.keycode true imkeys; sent = true })
    else if not (imkeys event.keycode)
    then record { taken = false; imkeys = imkeys; sent = false }
    else record { taken = true; imkeys = put_bit event.keycode false imkeys; sent = grab }

-- `textinput_modifiers`: whether they were taken, and so sent to the input method.
unfoldable pub textinput_modifiers : Grabs → Bool
textinput_modifiers g = has_grab (keyboard_grab g)
