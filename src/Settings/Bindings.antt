-- ===== src/Settings/Bindings.antt =====
-- src/core/settings/: the bindings of keys, buttons, gestures and pad buttons, read and written.
mod Args
mod Lines
mod Records
mod Reading
mod RoundTrip
mod Skips
mod Tests
unfoldable pub use Args.*
use g0wm.Common.{
  ℕ, Bool, true, false, Option, none, some, List, [], ◌∷◌, ◌++◌, ◌==◌, Bytes, bytes_eq,
  if◌then◌else◌,
}
use g0wm.Settings.Types.{Block, nothing, directive, Numbers, lit}
use g0wm.Settings.Names.{enum_value, enum_name}
use g0wm.Settings.Word.{carried}
use g0wm.Settings.Combo.{split_mods, write_combo}
use g0wm.Settings.Getters.{nth, or_else, uint_value, count_directives}

pub record Key (D : Type 0) : Type 0 where
  pub modifiers : ℕ
  pub keysym : ℕ
  pub func : Bytes
  pub arg : Arg D

pub record Button (D : Type 0) : Type 0 where
  pub click : ℕ
  pub modifiers : ℕ
  pub button : ℕ
  pub func : Bytes
  pub arg : Arg D

pub record Gesture (D : Type 0) : Type 0 where
  pub motion : ℕ
  pub fingers : ℕ
  pub func : Bytes
  pub arg : Arg D

pub record PadButton (D : Type 0) : Type 0 where
  pub button : ℕ
  pub func : Bytes
  pub arg : Arg D

-- `settings_lines_or_builtin`: the file's lines of a kind, or the built-in ones when it has none.
unfoldable pub lines_or_builtin : Option Block → Block → Bytes → Block
lines_or_builtin none block key = block
lines_or_builtin (some builtin) block key =
    if count_directives block key == 0 then builtin else block

-- The loop over the directives of one name, with what a turn of it adds, if anything.
unfoldable pub records {ℓ} : {A : Type ℓ} → Bytes → (List Bytes → Option A) → Block → List A
records name parse nothing = []
records name parse (directive other params children rest) =
    let later = records name parse rest in
    if bytes_eq other name
    then (elim (parse params) [ none ↦ later | some a ↦ a ∷ later ])
    else later

-- The loop that writes one directive for each, unless a turn of it goes on.
unfoldable pub write_records {ℓ} :
    {A : Type ℓ} → Bytes → (A → Option (List Bytes)) → List A → Block → Block
write_records name print [] rest = rest
write_records name print (a ∷ xs) rest = elim (print a) [
  | none ↦ write_records name print xs rest
  | some params ↦ directive name params nothing (write_records name print xs rest)
]

-- A word in front of another one that is there.
abbrev pub word_at : List Bytes → ℕ → Bytes
word_at params i = or_else (nth params i) []

module _ {D : Type 0} (d : Numbers D) (zero_value : D) (names : Names) where
  unfoldable pub read_key : List Bytes → Option (Key D)
  read_key params = elim (action_by_name names.actions (nth params 1)) [
    | none ↦ none
    | some action ↦
        let parts = split_mods names.modifier_names (word_at params 0) in
        let keysym = names.keysym_from_name parts.1 in
        if keysym == 0
        then none
        else some record {
          modifiers = parts.0;
          keysym = keysym;
          func = action.func;
          arg = get_arg d zero_value names action.arg params 2;
        }
  ]

  unfoldable pub read_button : List Bytes → Option (Button D)
  read_button params = elim (action_by_name names.actions (nth params 2)) [
    | none ↦ none
    | some action ↦
        let parts = split_mods names.modifier_names (word_at params 1) in
        some record {
          click = enum_value names.click_areas (word_at params 0) 4;
          modifiers = parts.0;
          button = enum_value names.mouse_buttons parts.1 names.btn_left;
          func = action.func;
          arg = get_arg d zero_value names action.arg params 3;
        }
  ]

  unfoldable pub read_gesture : List Bytes → Option (Gesture D)
  read_gesture params = elim (action_by_name names.actions (nth params 2)) [
    | none ↦ none
    | some action ↦ some record {
      motion = enum_value names.gesture_motions (word_at params 0) 0;
      fingers = uint_value d (nth params 1) 3;
      func = action.func;
      arg = get_arg d zero_value names action.arg params 3;
    }
  ]

  unfoldable pub read_pad_button : List Bytes → Option (PadButton D)
  read_pad_button params = elim (action_by_name names.actions (nth params 1)) [
    | none ↦ none
    | some action ↦ some record {
      button = uint_value d (nth params 0) 0;
      func = action.func;
      arg = get_arg d zero_value names action.arg params 2;
    }
  ]

  unfoldable pub print_key : Key D → Option (List Bytes)
  print_key key = elim (action_by_func names.actions key.func) [
    | none ↦ none
    | some action ↦ elim (names.keysym_get_name key.keysym) [
      | none ↦ none
      | some key_name ↦ some (
          write_combo names.modifier_names key.modifiers key_name
          ∷ carried d action.name
          ∷ write_arg d zero_value names action.arg key.arg)
    ]
  ]

  unfoldable pub print_button : Button D → Option (List Bytes)
  print_button button = elim (action_by_func names.actions button.func) [
    | none ↦ none
    | some action ↦ some (
        carried d (enum_name names.click_areas button.click)
        ∷ write_combo names.modifier_names button.modifiers
            (enum_name names.mouse_buttons button.button)
        ∷ carried d action.name
        ∷ write_arg d zero_value names action.arg button.arg)
  ]

  unfoldable pub print_gesture : Gesture D → Option (List Bytes)
  print_gesture gesture = elim (action_by_func names.actions gesture.func) [
    | none ↦ none
    | some action ↦ some (
        carried d (enum_name names.gesture_motions gesture.motion)
        ∷ d.show_uint gesture.fingers
        ∷ carried d action.name
        ∷ write_arg d zero_value names action.arg gesture.arg)
  ]

  unfoldable pub print_pad_button : PadButton D → Option (List Bytes)
  print_pad_button pad_button = elim (action_by_func names.actions pad_button.func) [
    | none ↦ none
    | some action ↦ some (
        d.show_uint pad_button.button
        ∷ carried d action.name
        ∷ write_arg d zero_value names action.arg pad_button.arg)
  ]

-- `keys`, `buttons`, `gestures` and `pad_buttons`.
pub record Bindings (D : Type 0) : Type 0 where
  pub keys : List (Key D)
  pub buttons : List (Button D)
  pub gestures : List (Gesture D)
  pub pad_buttons : List (PadButton D)

module _ {D : Type 0} (d : Numbers D) (zero_value : D) (names : Names) where
  -- The last four calls of `settings_apply`, with the built-in lines.
  unfoldable pub apply_bindings : Option Block → Block → Bindings D
  apply_bindings builtin block = record {
    keys =
        records (lit "key") (read_key d zero_value names)
          (lines_or_builtin builtin block (lit "key"));
    buttons =
        records (lit "button") (read_button d zero_value names)
          (lines_or_builtin builtin block (lit "button"));
    gestures =
        records (lit "gesture") (read_gesture d zero_value names)
          (lines_or_builtin builtin block (lit "gesture"));
    pad_buttons =
        records (lit "padbutton") (read_pad_button d zero_value names)
          (lines_or_builtin builtin block (lit "padbutton"));
  }

  -- The last four calls of `settings_write_all`.
  unfoldable pub write_bindings : Bindings D → Block
  write_bindings b = write_records (lit "key") (print_key d zero_value names) b.keys (
      write_records (lit "button") (print_button d zero_value names) b.buttons (
        write_records (lit "gesture") (print_gesture d zero_value names) b.gestures (
          write_records (lit "padbutton") (print_pad_button d zero_value names) b.pad_buttons
            nothing)))
