-- ===== src/Settings/Sections/RoundTrip.antt =====
-- src/core/settings/: proofs on reading the sections that were written.
use g0wm.Common.{◌≡◌, refl, Bool, true, false, some, Bytes, List, [], ◌∷◌, ◌++◌}
use g0wm.Settings.Types.{Block, nothing, Numbers, Enum, Store, lit}
use g0wm.Settings.Combo.{AreReadable}
use g0wm.Settings.Getters.{find_section, find_directive}
use g0wm.Settings.Tables.{
  Line, line, apply_lines, apply_within, windows_lines, bar_lines, opacity_lines, blur_lines,
  input_first_lines, xkb_lines, input_lines, misc_lines,
}
use g0wm.Settings.Writing.{
  Written, write_lines, windows_written, bar_written, opacity_written, blur_written,
  input_first_written, xkb_written, input_written, misc_written,
}
use g0wm.Settings.RoundTrip.Covers.{IsPrinting, covers, AllWritable, AllKept}
use g0wm.Settings.RoundTrip.Between.{IsBetween, IsBetween-Keeps, composed}
use g0wm.Settings.RoundTrip.{
  Serves, apply_lines-IsBetween, apply_lines-Serves, write_lines-Serves, around-Serves,
  find_section-around,
}
use g0wm.Settings.Sections.{
  apply_opacity, apply_input, apply_sections, opacity_block, xkb_block, input_block, write_sections,
}

-- The lines of the section for the opacity, and what is written there.
abbrev pub opacity_all_lines : Bool → List Line
opacity_all_lines true = opacity_lines ++ blur_lines
opacity_all_lines false = opacity_lines

abbrev pub opacity_all_written : Bool → List Written
opacity_all_written true = opacity_written ++ blur_written
opacity_all_written false = opacity_written

-- All lines that the sections read.
abbrev pub all_lines : Bool → List Line
all_lines integrated =
    windows_lines
    ++ (bar_lines
        ++ (opacity_all_lines integrated
            ++ (input_first_lines ++ (xkb_lines ++ (input_lines ++ misc_lines)))))

module _ {D : Type 0} (d : Numbers D) (tables : Bytes → List Enum) (modifiers : List Enum)
    (integrated : Bool) (s : Store D) where
  -- Values that every section writes without loss.
  abbrev pub SectionsWritable : Type 0
  SectionsWritable =
      AllWritable d tables modifiers s windows_lines windows_written
      × AllWritable d tables modifiers s bar_lines bar_written
      × AllWritable d tables modifiers s (opacity_all_lines integrated)
          (opacity_all_written integrated)
      × AllWritable d tables modifiers s input_first_lines (input_first_written ++ input_written)
      × AllWritable d tables modifiers s xkb_lines xkb_written
      × AllWritable d tables modifiers s input_lines (input_first_written ++ input_written)
      × AllWritable d tables modifiers s misc_lines misc_written

module _ {D : Type 0} (s : Store D) where
  -- A run sets its variables to what was written, and no other to anything else.
  abbrev Sets : List Line → Store D → Store D → Type 0
  Sets lines t u = AllKept s lines u × IsBetween s t u

  AllKept-IsBetween :
      (lines : List Line) (t u : Store D) → IsBetween s t u → AllKept s lines t → AllKept s lines u
  AllKept-IsBetween [] t u b k = tt
  AllKept-IsBetween (line key var kind ∷ lines) t u b k =
      (IsBetween-Keeps s var kind t u b k.0, AllKept-IsBetween lines t u b k.1)

  AllKept-append :
      (lines more : List Line) (t : Store D)
      → AllKept s lines t
      → AllKept s more t
      → AllKept s (lines ++ more) t
  AllKept-append [] more t k l = l
  AllKept-append (line key var kind ∷ lines) more t k l = (k.0, AllKept-append lines more t k.1 l)

  in_turn :
      (lines more : List Line) {t u v : Store D}
      → Sets lines t u
      → Sets more u v
      → Sets (lines ++ more) t v
  in_turn lines more {t} {u} {v} (k, b) (l, c) =
      (AllKept-append lines more v (AllKept-IsBetween lines u v c k) l, composed s b c)

module _ {D : Type 0} (d : Numbers D) (tables : Bytes → List Enum) (modifiers : List Enum)
    (law : IsPrinting d) (readable : AreReadable modifiers modifiers) (s : Store D) where
  set :
      (written : List Written) (block : Block) (lines : List Line) (t : Store D)
      → Serves d tables modifiers law readable s written block lines
      → covers lines written ≡ true
      → AllWritable d tables modifiers s lines written
      → Sets s lines t (apply_lines d tables modifiers lines block t)
  set written block lines t f c w = (
    apply_lines-Serves d tables modifiers law readable s written block lines t f c w,
    apply_lines-IsBetween d tables modifiers law readable s written block lines t f c w,
  )

  -- A section of one run of lines.
  set_section :
      (written : List Written) (lines : List Line) (t : Store D)
      → covers lines written ≡ true
      → AllWritable d tables modifiers s lines written
      → Sets s lines t (
          apply_lines d tables modifiers lines (write_lines d tables modifiers written s nothing) t)
  set_section written lines t c w =
      set written (write_lines d tables modifiers written s nothing) lines t
        (write_lines-Serves d tables modifiers law readable s written lines) c w

  set_opacity :
      (integrated : Bool) (t : Store D)
      → AllWritable d tables modifiers s
          (opacity_all_lines integrated)
          (opacity_all_written integrated)
      → Sets s (opacity_all_lines integrated) t (
          apply_opacity d tables modifiers integrated
            (some (opacity_block d tables modifiers integrated s))
            t)
  unfolding apply_opacity opacity_block apply_lines write_lines
  set_opacity true t w = set_section (opacity_all_written true) (opacity_all_lines true) t refl w
  set_opacity false t w = set_section opacity_written opacity_lines t refl w

  set_input :
      (integrated : Bool) (t : Store D)
      → AllWritable d tables modifiers s input_first_lines (input_first_written ++ input_written)
      → AllWritable d tables modifiers s xkb_lines xkb_written
      → AllWritable d tables modifiers s input_lines (input_first_written ++ input_written)
      → Sets s (input_first_lines ++ (xkb_lines ++ input_lines)) t (
          apply_input d tables modifiers integrated
            (some (input_block d tables modifiers integrated s))
            t)
  unfolding apply_input input_block apply_within xkb_block
  set_input integrated t f x i =
      let block = input_block d tables modifiers integrated s in
      let all = input_first_written ++ input_written in
      let serves =
        around-Serves d tables modifiers law readable s (lit "xkb_rules")
          (xkb_block d tables modifiers integrated s) input_written input_first_written in
      let first = set all block input_first_lines t (serves input_first_lines refl) refl f in
      let u = apply_lines d tables modifiers input_first_lines block t in
      let keymap = set_section xkb_written xkb_lines u refl x in
      let v =
        apply_within d tables modifiers xkb_lines (some (xkb_block d tables modifiers integrated s))
          u in
      let last = set all block input_lines v (serves input_lines refl) refl i in
      let found =
        find_section-around d tables modifiers law readable s (lit "xkb_rules")
          (xkb_block d tables modifiers integrated s) input_written input_first_written refl in
      rw (apply_input, found)
        (in_turn s input_first_lines (xkb_lines ++ input_lines) first
          (in_turn s xkb_lines input_lines keymap last))

  -- The sections that are written, with whatever records behind them, are read back: every variable
  -- that they set gets the value that was written, whatever it had before, if the numbers of the C
  -- library read back as they are printed, scfg reads a word without special bytes as it is and takes the
  -- quotes and backslashes off another one, the names of the modifiers are readable, and each value is
  -- among those that its line writes without loss, which for a text means that it has no newline.
  pub apply_sections-write_sections :
      (integrated : Bool) (records : Block) (t : Store D)
      → SectionsWritable d tables modifiers integrated s
      → AllKept s (all_lines integrated) (
          apply_sections d tables modifiers integrated
            (write_sections d tables modifiers integrated s records)
            t)
  unfolding apply_sections write_sections find_section find_directive apply_within
  apply_sections-write_sections integrated records t w =
      let windows = set_section windows_written windows_lines t refl w.0 in
      let bar = set_section bar_written bar_lines _ refl w.1 in
      let opacity = set_opacity integrated _ w.2 in
      let input = set_input integrated _ w.3 w.4 w.5 in
      let misc = set_section misc_written misc_lines _ refl w.6 in
      let behind_opacity = input_first_lines ++ (xkb_lines ++ (input_lines ++ misc_lines)) in
      let behind_bar = opacity_all_lines integrated ++ behind_opacity in
      (in_turn s windows_lines (bar_lines ++ behind_bar) windows (
        in_turn s bar_lines behind_bar bar (
          in_turn s (opacity_all_lines integrated) behind_opacity opacity
            (in_turn s (input_first_lines ++ (xkb_lines ++ input_lines)) misc_lines input misc)))).0
