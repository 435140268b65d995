-- ===== src/Settings/Bindings/RoundTrip.antt =====
-- src/core/settings/: proofs on reading the bindings that were written.
use g0wm.Common.{ℕ, ◌<◌, ◌≡◌, refl, ◌∙◌, true, false, Option, some, [], ◌∷◌, ◌==◌, Bytes}
use g0wm.Settings.Types.{Block, Numbers, lit}
use g0wm.Settings.Names.{has_value, DistinctNames, enum_name, enum_value-enum_name}
use g0wm.Settings.Word.{carried, one_line, carried_same}
use g0wm.Settings.Combo.{write_combo, no_plus, AreReadable, picked, total, split_mods-write_combo}
use g0wm.Settings.RoundTrip.Covers.{IsPrinting}
use g0wm.Settings.Bindings.{
  Names, Arg, Action, action_by_name, action_by_func, write_arg, Key, Button, Gesture, PadButton,
  records, read_key, read_button, read_gesture, read_pad_button, print_key, print_button,
  print_gesture, print_pad_button, Bindings, apply_bindings, write_bindings,
}
use g0wm.Settings.Bindings.Records.{
  Returns, AllWritables, all_return, records-passed, read_back, passed, same_bindings,
}
use g0wm.Settings.Bindings.Lines.{has_some, records-lines_or_builtin}
use g0wm.Settings.Bindings.Reading.{WritableArg, uint_value-show_uint, get_arg-write_arg}

module _ {D : Type 0} (d : Numbers D) (zero_value : D) (names : Names) where
  -- A function that is an action with a name of its own, and an argument that the action has.
  abbrev pub Nameable : Bytes → Arg D → Type 0
  Nameable func a =
      (action : Action) × (action_by_func names.actions func ≡ some action)
      × (action_by_name names.actions (some action.name) ≡ some action)
      × (action.func ≡ func)
      × (one_line action.name ≡ true)
      × WritableArg d zero_value names action.arg a

  -- The modifiers are made of those in the table.
  abbrev pub Combined : ℕ → Type 0
  Combined modifiers = total 0 (picked names.modifier_names modifiers) ≡ modifiers

  abbrev pub WritableKey : Key D → Type 0
  WritableKey key =
      Nameable key.func key.arg
      × Combined key.modifiers
      × ((key_name : Bytes) × (names.keysym_get_name key.keysym ≡ some key_name)
          × (names.keysym_from_name key_name ≡ key.keysym)
          × (no_plus key_name ≡ true))
      × ((key.keysym == 0) ≡ false)

  abbrev pub WritableButton : Button D → Type 0
  WritableButton button =
      Nameable button.func button.arg
      × Combined button.modifiers
      × (has_value names.click_areas button.click ≡ true)
      × (one_line (enum_name names.click_areas button.click) ≡ true)
      × (has_value names.mouse_buttons button.button ≡ true)
      × (no_plus (enum_name names.mouse_buttons button.button) ≡ true)

  abbrev pub WritableGesture : Gesture D → Type 0
  WritableGesture gesture =
      Nameable gesture.func gesture.arg
      × (has_value names.gesture_motions gesture.motion ≡ true)
      × (one_line (enum_name names.gesture_motions gesture.motion) ≡ true)
      × (gesture.fingers < 4294967296)

  abbrev pub WritablePadButton : PadButton D → Type 0
  WritablePadButton pad_button =
      Nameable pad_button.func pad_button.arg × (pad_button.button < 4294967296)

  module _ (law : IsPrinting d) (readable : AreReadable names.modifier_names names.modifier_names)
      (areas : DistinctNames names.click_areas) (mice : DistinctNames names.mouse_buttons)
      (motions : DistinctNames names.gesture_motions) where
    key-Returns :
        (key : Key D)
        → WritableKey key
        → Returns (print_key d zero_value names) (read_key d zero_value names) key
    unfolding print_key read_key
    key-Returns key
          (
            (action, by_func, by_name, same, line, ok),
            made,
            (key_name, get, from, plain),
            nonzero,
          ) =
        let combo = write_combo names.modifier_names key.modifiers key_name in
        let words = write_arg d zero_value names action.arg key.arg in
        (
          combo ∷ carried d action.name ∷ words,
          rw (print_key, by_func, get) refl,
          rw
              (
                read_key,
                carried_same d action.name law.reading line,
                by_name,
                split_mods-write_combo names.modifier_names key.modifiers key_name readable plain,
                from,
                nonzero,
                get_arg-write_arg d zero_value names law action.arg key.arg
                    (combo ∷ carried d action.name ∷ []) ok,
                made,
                same,
              )
              refl,
        )

    button-Returns :
        (button : Button D)
        → WritableButton button
        → Returns (print_button d zero_value names) (read_button d zero_value names) button
    unfolding print_button read_button
    button-Returns button
          ((action, by_func, by_name, same, line, ok), made, area, area_line, mouse, plain) =
        let area_name = enum_name names.click_areas button.click in
        let mouse_name = enum_name names.mouse_buttons button.button in
        let combo = write_combo names.modifier_names button.modifiers mouse_name in
        let words = write_arg d zero_value names action.arg button.arg in
        (
          carried d area_name ∷ combo ∷ carried d action.name ∷ words,
          rw (print_button, by_func) refl,
          rw
              (
                read_button,
                carried_same d action.name law.reading line,
                by_name,
                split_mods-write_combo names.modifier_names button.modifiers mouse_name readable
                    plain,
                carried_same d area_name law.reading area_line,
                enum_value-enum_name names.click_areas button.click 4 areas area,
                enum_value-enum_name names.mouse_buttons button.button names.btn_left mice mouse,
                get_arg-write_arg d zero_value names law action.arg button.arg
                    (area_name ∷ combo ∷ carried d action.name ∷ []) ok,
                made,
                same,
              )
              refl,
        )

    gesture-Returns :
        (gesture : Gesture D)
        → WritableGesture gesture
        → Returns (print_gesture d zero_value names) (read_gesture d zero_value names) gesture
    unfolding print_gesture read_gesture
    gesture-Returns gesture
          ((action, by_func, by_name, same, line, ok), motion, motion_line, fingers) =
        let motion_name = enum_name names.gesture_motions gesture.motion in
        let count = d.show_uint gesture.fingers in
        let words = write_arg d zero_value names action.arg gesture.arg in
        (
          carried d motion_name ∷ count ∷ carried d action.name ∷ words,
          rw (print_gesture, by_func) refl,
          rw
              (
                read_gesture,
                carried_same d action.name law.reading line,
                by_name,
                carried_same d motion_name law.reading motion_line,
                enum_value-enum_name names.gesture_motions gesture.motion 0 motions motion,
                uint_value-show_uint d zero_value names law gesture.fingers 3 fingers,
                get_arg-write_arg d zero_value names law action.arg gesture.arg
                    (motion_name ∷ count ∷ carried d action.name ∷ []) ok,
                same,
              )
              refl,
        )

    pad_button-Returns :
        (pad_button : PadButton D)
        → WritablePadButton pad_button
        → Returns
            (print_pad_button d zero_value names)
            (read_pad_button d zero_value names)
            pad_button
    unfolding print_pad_button read_pad_button
    pad_button-Returns pad_button ((action, by_func, by_name, same, line, ok), number) =
        let count = d.show_uint pad_button.button in
        let words = write_arg d zero_value names action.arg pad_button.arg in
        (
          count ∷ carried d action.name ∷ words,
          rw (print_pad_button, by_func) refl,
          rw
              (
                read_pad_button,
                carried_same d action.name law.reading line,
                by_name,
                uint_value-show_uint d zero_value names law pad_button.button 0 number,
                get_arg-write_arg d zero_value names law action.arg pad_button.arg
                    (count ∷ carried d action.name ∷ []) ok,
                same,
              )
              refl,
        )

    keys_back :
        (b : Bindings D)
        → AllWritables WritableKey b.keys
        → records (lit "key") (read_key d zero_value names) (write_bindings d zero_value names b)
          ≡ b.keys
    unfolding write_bindings records
    keys_back b keys =
        read_back (lit "key") (print_key d zero_value names) (read_key d zero_value names) b.keys _
          (all_return (print_key d zero_value names) (read_key d zero_value names) b.keys
            key-Returns keys)
          (passed _ _ _ _ _ _ refl (passed _ _ _ _ _ _ refl (passed _ _ _ _ _ _ refl refl)))

    buttons_back :
        (b : Bindings D)
        → AllWritables WritableButton b.buttons
        → records
            (lit "button")
            (read_button d zero_value names)
            (write_bindings d zero_value names b)
          ≡ b.buttons
    unfolding write_bindings records
    buttons_back b buttons =
        records-passed _ _ _ _ _ _ refl
        ∙ read_back (lit "button") (print_button d zero_value names)
            (read_button d zero_value names) b.buttons _
            (all_return (print_button d zero_value names) (read_button d zero_value names) b.buttons
              button-Returns buttons)
            (passed _ _ _ _ _ _ refl (passed _ _ _ _ _ _ refl refl))

    gestures_back :
        (b : Bindings D)
        → AllWritables WritableGesture b.gestures
        → records
            (lit "gesture")
            (read_gesture d zero_value names)
            (write_bindings d zero_value names b)
          ≡ b.gestures
    unfolding write_bindings records
    gestures_back b gestures =
        records-passed _ _ _ _ _ _ refl
        ∙ (records-passed _ _ _ _ _ _ refl
            ∙ read_back (lit "gesture") (print_gesture d zero_value names)
                (read_gesture d zero_value names) b.gestures _
                (all_return (print_gesture d zero_value names) (read_gesture d zero_value names)
                  b.gestures gesture-Returns gestures)
                (passed _ _ _ _ _ _ refl refl))

    pad_buttons_back :
        (b : Bindings D)
        → AllWritables WritablePadButton b.pad_buttons
        → records
            (lit "padbutton")
            (read_pad_button d zero_value names)
            (write_bindings d zero_value names b)
          ≡ b.pad_buttons
    unfolding write_bindings records
    pad_buttons_back b pads =
        records-passed _ _ _ _ _ _ refl
        ∙ (records-passed _ _ _ _ _ _ refl
            ∙ (records-passed _ _ _ _ _ _ refl
                ∙ read_back (lit "padbutton") (print_pad_button d zero_value names)
                    (read_pad_button d zero_value names) b.pad_buttons _
                    (all_return (print_pad_button d zero_value names)
                      (read_pad_button d zero_value names) b.pad_buttons pad_button-Returns pads)
                    refl))

    -- The bindings that are written are read back as they were, all and in their order, whatever is
    -- built in: if there is one of each kind at least, the numbers of the C library read back as they are
    -- printed, scfg reads a word without special bytes as it is and takes the quotes and backslashes off
    -- another one, the names of the modifiers are readable, no click area, mouse button or motion has its
    -- name twice, and every binding is writable: its function is an action that has a name of its own, its
    -- argument is one that the action has, its modifiers and the rest are in the tables, its key has a name
    -- that xkbcommon reads back, and no word of it has a newline.
    pub apply_bindings-write_bindings :
        (builtin : Option Block) (b : Bindings D)
        → AllWritables WritableKey b.keys
        → AllWritables WritableButton b.buttons
        → AllWritables WritableGesture b.gestures
        → AllWritables WritablePadButton b.pad_buttons
        → has_some b.keys ≡ true
        → has_some b.buttons ≡ true
        → has_some b.gestures ≡ true
        → has_some b.pad_buttons ≡ true
        → apply_bindings d zero_value names builtin (write_bindings d zero_value names b) ≡ b
    unfolding apply_bindings
    apply_bindings-write_bindings builtin b keys buttons gestures pads some_key some_button
          some_gesture some_pad =
        let block = write_bindings d zero_value names b in
        same_bindings
          (records-lines_or_builtin (lit "key") (read_key d zero_value names) builtin block b.keys
            (keys_back b keys) some_key)
          (records-lines_or_builtin (lit "button") (read_button d zero_value names) builtin block
            b.buttons (buttons_back b buttons) some_button)
          (records-lines_or_builtin (lit "gesture") (read_gesture d zero_value names) builtin block
            b.gestures (gestures_back b gestures) some_gesture)
          (records-lines_or_builtin (lit "padbutton") (read_pad_button d zero_value names) builtin
            block b.pad_buttons (pad_buttons_back b pads) some_pad)
