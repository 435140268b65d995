-- ===== src/Settings/Sections.antt =====
-- src/core/settings/: the sections of the config file, behind the one for the look.
mod RoundTrip
pub mod Tests
use g0wm.Common.{Bool, true, false, Option, none, some, List, [], Bytes, if◌then◌else◌}
use g0wm.Settings.Types.{Block, nothing, directive, Numbers, Enum, Store, lit}
use g0wm.Settings.Getters.{find_section}
use g0wm.Settings.Tables.{
  apply_lines, apply_within, windows_lines, bar_lines, opacity_lines, blur_lines, input_first_lines,
  xkb_lines, input_lines, misc_lines,
}
use g0wm.Settings.Writing.{
  write_lines, windows_written, bar_written, opacity_written, blur_written, input_first_written,
  xkb_written, input_written, misc_written,
}

-- `integrated` is whether the build has INTEGRATED_BACKGROUND.
module _ {D : Type 0} (d : Numbers D) (tables : Bytes → List Enum) (modifiers : List Enum)
    (integrated : Bool) where
  unfoldable pub apply_opacity : Option Block → Store D → Store D
  apply_opacity none s = s
  apply_opacity (some block) s =
      let plain = apply_lines d tables modifiers opacity_lines block s in
      if integrated then apply_lines d tables modifiers blur_lines block plain else plain

  unfoldable pub apply_input : Option Block → Store D → Store D
  apply_input none s = s
  apply_input (some block) s =
      let first = apply_lines d tables modifiers input_first_lines block s in
      let keymap =
        apply_within d tables modifiers xkb_lines (find_section block (lit "xkb_rules")) first in
      apply_lines d tables modifiers input_lines block keymap

  -- `settings_apply_sections` behind the look.
  unfoldable pub apply_sections : Block → Store D → Store D
  apply_sections block s =
      let windows =
        apply_within d tables modifiers windows_lines (find_section block (lit "windows")) s in
      let bar =
        apply_within d tables modifiers bar_lines (find_section block (lit "bar")) windows in
      let opacity = apply_opacity (find_section block (lit "opacity")) bar in
      let input = apply_input (find_section block (lit "input")) opacity in
      apply_within d tables modifiers misc_lines (find_section block (lit "misc")) input

  unfoldable pub opacity_block : Store D → Block
  opacity_block s =
      let blur =
        if integrated then write_lines d tables modifiers blur_written s nothing else nothing in
      write_lines d tables modifiers opacity_written s blur

  unfoldable pub xkb_block : Store D → Block
  xkb_block s = write_lines d tables modifiers xkb_written s nothing

  unfoldable pub input_block : Store D → Block
  input_block s = write_lines d tables modifiers input_first_written s (
      directive (lit "xkb_rules") [] (xkb_block s)
        (write_lines d tables modifiers input_written s nothing))

  -- The sections of `settings_write_all` behind the look, in front of the records.
  unfoldable pub write_sections : Store D → Block → Block
  write_sections s records =
      directive (lit "windows") [] (write_lines d tables modifiers windows_written s nothing) (
        directive (lit "bar") [] (write_lines d tables modifiers bar_written s nothing) (
          directive (lit "opacity") [] (opacity_block s) (
            directive (lit "input") [] (input_block s) (
              directive (lit "misc") [] (write_lines d tables modifiers misc_written s nothing)
                records))))
