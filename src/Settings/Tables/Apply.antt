-- ===== src/Settings/Tables/Apply.antt =====
-- src/core/settings/read.c: one assignment of a variable from its key, and a run of them.
use g0wm.Common.{Option, none, some, List, [], ◌∷◌, Bytes}
use g0wm.Settings.Types.{Block, Numbers, Enum, Store, assign}
use g0wm.Settings.Combo.{mods_value}
use g0wm.Settings.Getters.{get_uint, get_number, get_bool, get_string, get_hex, get_enum}

-- What is made of a number: `(float)`, `(int)`, `fmin` and `fmax` with the bounds that are used.
pub data Conversion : Type 0 where
  exact narrowed truncated at_most_one at_least_one zero_to_one : Conversion

-- The getter that a variable is set with; a table of names by its name in the source.
pub data Kind : Type 0 where
  uint flag string color mods : Kind
  number : Conversion → Kind
  enum : Bytes → Kind

-- `variable = getter(block, key, variable)`
pub data Line : Type 0 where
  line : Bytes → Bytes → Kind → Line

abbrev pub convert : {D : Type 0} → Numbers D → Conversion → D → D
convert d exact v = v
convert d narrowed v = d.narrow v
convert d truncated v = d.trunc v
convert d at_most_one v = d.narrow (d.at_most_one v)
convert d at_least_one v = d.narrow (d.at_least_one v)
convert d zero_to_one v = d.narrow (d.at_most_one (d.at_least_zero v))

module _ {D : Type 0} (d : Numbers D) (tables : Bytes → List Enum) (modifiers : List Enum) where
  unfoldable pub apply_line : Line → Block → Store D → Store D
  apply_line (line key var uint) block s = record s {
    uints = assign var (get_uint d block key (s.uints var)) s.uints;
  }
  apply_line (line key var flag) block s = record s {
    flags = assign var (get_bool block key (s.flags var)) s.flags;
  }
  apply_line (line key var string) block s = record s {
    strings = assign var (get_string block key (s.strings var)) s.strings;
  }
  apply_line (line key var color) block s = record s {
    colors = assign var (get_hex d block key (s.colors var)) s.colors;
  }
  apply_line (line key var mods) block s = record s {
    uints = assign var (mods_value modifiers (get_string block key none) (s.uints var)) s.uints;
  }
  apply_line (line key var (number conversion)) block s = record s {
    numbers = assign var (convert d conversion (get_number d block key (s.numbers var))) s.numbers;
  }
  apply_line (line key var (enum table)) block s = record s {
    enums = assign var (get_enum block key (tables table) (s.enums var)) s.enums;
  }

  unfoldable pub apply_lines : List Line → Block → Store D → Store D
  apply_lines [] block s = s
  apply_lines (l ∷ lines) block s = apply_lines lines block (apply_line l block s)

  -- A run of assignments from a section of the block, if it is there.
  unfoldable pub apply_within : List Line → Option Block → Store D → Store D
  apply_within lines none s = s
  apply_within lines (some section) s = apply_lines lines section s
