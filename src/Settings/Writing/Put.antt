-- ===== src/Settings/Writing/Put.antt =====
-- src/core/settings/write.c: one line for a variable, and a run of them, as libscfg reads them back.
-- Comments and blank lines are no directives.
use g0wm.Common.{Option, none, some, List, [], ◌∷◌, Bytes, if◌then◌else◌}
use g0wm.Settings.Types.{Block, nothing, directive, Numbers, Enum, Store, lit}
use g0wm.Settings.Names.{enum_name}
use g0wm.Settings.Word.{carried, all_carried}
use g0wm.Settings.Combo.{write_mods}

-- The function that writes a variable; `settings_write_int` of an unsigned variable and of a signed
-- one, `settings_write_string` of the name of a value in a table.
pub data Form : Type 0 where
  written_uint written_int written_number written_bool written_string written_hex written_mods :
      Form
  written_name : Bytes → Form

pub data Written : Type 0 where
  put : Bytes → Bytes → Form → Written

abbrev pub word_of : Option Bytes → List Bytes
word_of none = []
word_of (some text) = text ∷ []

module _ {D : Type 0} (d : Numbers D) (tables : Bytes → List Enum) (modifiers : List Enum) where
  -- The parameters of the directive; numbers, colors, flags and modifiers are printed as they are, texts
  -- and names by `settings_put_word`.
  unfoldable pub written_params : Bytes → Form → Store D → List Bytes
  written_params var written_uint s = d.show_uint (s.uints var) ∷ []
  written_params var written_int s = d.show_int (s.numbers var) ∷ []
  written_params var written_number s = d.show_number (s.numbers var) ∷ []
  written_params var written_bool s = (if s.flags var then lit "true" else lit "false") ∷ []
  written_params var written_string s = all_carried d (word_of (s.strings var))
  written_params var written_hex s = (35 ∷ d.show_hex (s.colors var)) ∷ []
  written_params var written_mods s = write_mods modifiers (s.uints var)
  written_params var (written_name table) s =
      carried d (enum_name (tables table) (s.enums var)) ∷ []

  -- The directives of a run of lines, in front of others.
  unfoldable pub write_lines : List Written → Store D → Block → Block
  write_lines [] s rest = rest
  write_lines (put key var form ∷ lines) s rest =
      directive key (written_params var form s) nothing (write_lines lines s rest)
