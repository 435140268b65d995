-- ===== src/Settings/Bindings/Args.antt =====
-- src/core/settings/: the argument of an action, read and written.
use g0wm.Common.{ℕ, suc, zero, Option, none, some, List, [], ◌∷◌, Bytes, bytes_eq, if◌then◌else◌}
use g0wm.Settings.Types.{Numbers, Enum}
use g0wm.Settings.Names.{enum_value, enum_name}
use g0wm.Settings.Word.{carried, all_carried}
use g0wm.Settings.Getters.{nth, number_value, uint_value}

-- `Layout`, with the name of its arrangement.
pub record Layout : Type 0 where
  pub symbol : Bytes
  pub arrange : Bytes

-- The letters for the member of the `Arg` that an action uses.
pub data ArgKind : Type 0 where
  kind_none kind_int kind_uint kind_float kind_words kind_layout kind_drag : ArgKind

-- `Arg`, with the member that was set last; a pointer that is NULL is none.
pub data Arg (D : Type 0) : Type 0 where
  arg_none : Arg D
  arg_int : D → Arg D
  arg_uint : ℕ → Arg D
  arg_float : D → Arg D
  arg_words : Option (List Bytes) → Arg D
  arg_layout : Option Layout → Arg D

-- `Action`; a function by its name.
pub record Action : Type 0 where
  pub func : Bytes
  pub name : Bytes
  pub arg : ArgKind

unfoldable pub action_by_name : List Action → Option Bytes → Option Action
action_by_name actions none = none
action_by_name [] (some name) = none
action_by_name (action ∷ actions) (some name) =
    let later = action_by_name actions (some name) in
    if bytes_eq action.name name then some action else later

unfoldable pub action_by_func : List Action → Bytes → Option Action
action_by_func [] func = none
action_by_func (action ∷ actions) func =
    let later = action_by_func actions func in
    if bytes_eq action.func func then some action else later

unfoldable pub layout_by_symbol : List Layout → Option Bytes → Option Layout
layout_by_symbol layouts none = none
layout_by_symbol [] (some symbol) = none
layout_by_symbol (layout ∷ layouts) (some symbol) =
    let later = layout_by_symbol layouts (some symbol) in
    if bytes_eq layout.symbol symbol then some layout else later

-- `settings_collect_params`, none for NULL.
unfoldable pub collect_params : List Bytes → ℕ → Option (List Bytes)
collect_params params zero = some params
collect_params [] (suc from) = none
collect_params (p ∷ params) (suc from) = collect_params params from

abbrev pub option_words : Option (List Bytes) → List Bytes
option_words none = []
option_words (some words) = words

abbrev pub symbol_words : Option Layout → List Bytes
symbol_words none = []
symbol_words (some layout) = layout.symbol ∷ []

-- What the bindings are read and written with: the tables of settings.c and config.h, the layouts in
-- effect, `BTN_LEFT`, and the names of keys of xkbcommon, with 0 for `XKB_KEY_NoSymbol`.
pub record Names : Type 0 where
  pub actions : List Action
  pub layouts : List Layout
  pub modifier_names : List Enum
  pub click_areas : List Enum
  pub mouse_buttons : List Enum
  pub gesture_motions : List Enum
  pub drag_modes : List Enum
  pub btn_left : ℕ
  pub keysym_from_name : Bytes → ℕ
  pub keysym_get_name : ℕ → Option Bytes

module _ {D : Type 0} (d : Numbers D) (zero_value : D) (names : Names) where
  -- `settings_get_arg`; `CurMove` is 2.
  unfoldable pub get_arg : ArgKind → List Bytes → ℕ → Arg D
  get_arg kind_none params index = arg_none
  get_arg kind_int params index = arg_int (d.trunc (number_value d (nth params index) zero_value))
  get_arg kind_uint params index = arg_uint (uint_value d (nth params index) 0)
  get_arg kind_float params index =
      arg_float (d.narrow (number_value d (nth params index) zero_value))
  get_arg kind_words params index = arg_words (collect_params params index)
  get_arg kind_layout params index = arg_layout (layout_by_symbol names.layouts (nth params index))
  get_arg kind_drag params index = elim (nth params index) [
    | none ↦ arg_uint 2
    | some text ↦ arg_uint (enum_value names.drag_modes text 2)
  ]

  -- The words that `settings_write_arg` writes; none for a member that was not set.
  unfoldable pub write_arg : ArgKind → Arg D → List Bytes
  write_arg kind_int (arg_int i) = d.show_int i ∷ []
  write_arg kind_uint (arg_uint ui) = d.show_uint ui ∷ []
  write_arg kind_float (arg_float f) = d.show_number f ∷ []
  write_arg kind_words (arg_words words) = all_carried d (option_words words)
  write_arg kind_layout (arg_layout layout) = all_carried d (symbol_words layout)
  write_arg kind_drag (arg_uint ui) = carried d (enum_name names.drag_modes ui) ∷ []
  write_arg _ _ = []
