-- ===== src/Settings/RoundTrip.antt =====
-- src/core/settings/: proofs on reading a run of lines from a block that was written.
pub mod Covers
pub mod Between
mod Apply
use g0wm.Common.{
  ℕ, suc, zero, ◌≤◌, ◌<◌, ◌≡◌, refl, sym, ap, ◌∙◌, ◌⊎◌, inl, inr, Bool, true, false, not, ◌&&◌,
  ◌||◌, Option, none, some, List, [], ◌∷◌, ◌++◌, ◌==◌, length, is_empty, Bytes, bytes_eq,
  bytes_eq_refl, bytes_eq_sound, if◌then◌else◌, arith, Bool-cases,
}
use g0wm.Settings.Types.{Block, nothing, directive, Numbers, Enum, Store, assign, lit}
use g0wm.Settings.Names.{enum_name, enum_value, has_value, DistinctNames, enum_value-enum_name}
use g0wm.Settings.Combo.{
  picked, total, AreReadable, first_word, mods_value, write_mods, mods_value-write_mods,
}
use g0wm.Settings.Getters.{
  find_directive, find_section, nth, param_at, is_bool, or_else, get_bool, get_string, get_enum,
  number_of, number_value, uint_value, hex_value, get_number, get_uint, get_hex,
}
use g0wm.Settings.Tables.{
  Line, line, Kind, uint, flag, string, color, mods, number, enum, Conversion, convert, apply_line,
  apply_lines,
}
use g0wm.Settings.Writing.{
  Written, put, Form, written_uint, written_int, written_number, written_bool, written_string,
  written_hex, written_mods, written_name, word_of, written_params, write_lines,
}
use g0wm.Settings.RoundTrip.Covers.{
  IsPrinting, ComesBack, written_at, suits, found_suits, covers, Writable, FoundWritable,
  AllWritable, Keeps, AllKept,
}
use g0wm.Settings.RoundTrip.Between.{
  IsBetween, IsBetween-Keeps, unchanged, composed, uints_assigned, numbers_assigned, flags_assigned,
  strings_assigned, colors_assigned, enums_assigned,
}
use g0wm.Settings.RoundTrip.Apply.{apply_line-Keeps}

module _ {D : Type 0} (d : Numbers D) (tables : Bytes → List Enum) (modifiers : List Enum)
    (law : IsPrinting d) (readable : AreReadable modifiers modifiers) (s : Store D) where
  -- The directive that a line finds among those that were written.
  find_directive-write_lines :
      (key : Bytes) (written : List Written) (rest : Block) (var : Bytes) (form : Form)
      → written_at written key ≡ some (var, form)
      → find_directive (write_lines d tables modifiers written s rest) key
        ≡ some (written_params d tables modifiers var form s, nothing)
  unfolding find_directive write_lines
  find_directive-write_lines key [] rest var form e = cc e
  find_directive-write_lines key (put k v f ∷ written) rest var form e =
      elim (Bool-cases (bytes_eq k key)) [
        | inl same ↦ rw same (cc (e, same))
        | inr other ↦
            rw other
              (find_directive-write_lines key written rest var form (ground (arith, e, other)))
      ]

  -- A block in which every line finds what was written.
  module _ (written : List Written) (block : Block) where
    abbrev pub Serves : List Line → Type 0
    Serves [] = Unit {0}
    Serves (line key var kind ∷ lines) =
        (find_directive block key
          ≡ find_directive (write_lines d tables modifiers written s nothing) key)
        × Serves lines

    -- A line sets its variable to what was written, and no other to anything else.
    line_applied :
        (key var : Bytes) (kind : Kind) (t : Store D) (at : Option (Bytes × Form))
        → find_directive block key
          ≡ find_directive (write_lines d tables modifiers written s nothing) key
        → written_at written key ≡ at
        → found_suits var kind at ≡ true
        → FoundWritable d tables modifiers s var kind at
        → Keeps s var kind (apply_line d tables modifiers (line key var kind) block t)
          × IsBetween s t (apply_line d tables modifiers (line key var kind) block t)
    line_applied key var kind t none f e ok w = cc ok
    line_applied key var kind t (some (other, form)) f e ok w =
        let same = bytes_eq_sound other var (ground (arith, ok)) in
        apply_line-Keeps d tables modifiers law readable s key block var kind form t
          (ground (arith, ok)) w
          (f
            ∙ find_directive-write_lines key written nothing other form e
            ∙ ap (λ v. some (written_params d tables modifiers v form s, nothing)) same)

    pub apply_lines-IsBetween :
        (lines : List Line) (t : Store D)
        → Serves lines
        → covers lines written ≡ true
        → AllWritable d tables modifiers s lines written
        → IsBetween s t (apply_lines d tables modifiers lines block t)
    unfolding apply_lines
    apply_lines-IsBetween [] t f c w = unchanged s t
    apply_lines-IsBetween (line key var kind ∷ lines) t f c w =
        let ok : found_suits var kind (written_at written key) ≡ true = ground (arith, c) in
        let here = line_applied key var kind t (written_at written key) f.0 refl ok w.0 in
        composed s here.1 (
          apply_lines-IsBetween lines (apply_line d tables modifiers (line key var kind) block t)
            f.1 (ground (arith, c)) w.1)

    -- A run of assignments from a block in which every line finds what was written gives every variable
    -- the value that was written, whatever it had before: if every line has its key written with its
    -- own variable in a form that suits it, and the values are among those that the form writes without
    -- loss.
    pub apply_lines-Serves :
        (lines : List Line) (t : Store D)
        → Serves lines
        → covers lines written ≡ true
        → AllWritable d tables modifiers s lines written
        → AllKept s lines (apply_lines d tables modifiers lines block t)
    unfolding apply_lines
    apply_lines-Serves [] t f c w = tt
    apply_lines-Serves (line key var kind ∷ lines) t f c w =
        let ok : found_suits var kind (written_at written key) ≡ true = ground (arith, c) in
        let here = line_applied key var kind t (written_at written key) f.0 refl ok w.0 in
        let after = apply_line d tables modifiers (line key var kind) block t in
        let rest : covers lines written ≡ true = ground (arith, c) in
        (
          IsBetween-Keeps s var kind after (apply_lines d tables modifiers lines block after)
              (apply_lines-IsBetween lines after f.1 rest w.1) here.0,
          apply_lines-Serves lines after f.1 rest w.1,
        )

  -- The block that was written serves every line.
  pub write_lines-Serves :
      (written : List Written) (lines : List Line)
      → Serves written (write_lines d tables modifiers written s nothing) lines
  write_lines-Serves written [] = tt
  write_lines-Serves written (line key var kind ∷ lines) = (refl, write_lines-Serves written lines)

  -- A section between two runs is in the way of no line that has another key.
  module _ (section : Bytes) (children : Block) (more : List Written) where
    find_directive-around :
        (written : List Written) (key : Bytes)
        → bytes_eq section key ≡ false
        → find_directive
            (write_lines d tables modifiers written s
              (directive section [] children (write_lines d tables modifiers more s nothing)))
            key
          ≡ find_directive (write_lines d tables modifiers (written ++ more) s nothing) key
    unfolding find_directive write_lines
    find_directive-around [] key e = rw e refl
    find_directive-around (put k v f ∷ written) key e =
        rw (find_directive-around written key e) refl

    abbrev pub lacks : List Line → Bool
    lacks [] = true
    lacks (line key var kind ∷ lines) = not (bytes_eq section key) && lacks lines

    pub around-Serves :
        (written : List Written) (lines : List Line)
        → lacks lines ≡ true
        → Serves
            (written ++ more)
            (write_lines d tables modifiers written s
              (directive section [] children (write_lines d tables modifiers more s nothing)))
            lines
    around-Serves written [] e = tt
    around-Serves written (line key var kind ∷ lines) e = (
      find_directive-around written key (ground (arith, e)),
      around-Serves written lines (ground (arith, e)),
    )

    -- The section itself is found behind a run that has no such key.
    section_found :
        (written : List Written)
        → written_at written section ≡ none
        → find_directive
            (write_lines d tables modifiers written s
              (directive section [] children (write_lines d tables modifiers more s nothing)))
            section
          ≡ some ([], children)
    unfolding find_directive write_lines
    section_found [] e = rw (bytes_eq_refl section) refl
    section_found (put k v f ∷ written) e = elim (Bool-cases (bytes_eq k section)) [
      | inl same ↦ cc (e, same)
      | inr other ↦ rw other (section_found written (ground (arith, e, other)))
    ]

    pub find_section-around :
        (written : List Written)
        → written_at written section ≡ none
        → find_section
            (write_lines d tables modifiers written s
              (directive section [] children (write_lines d tables modifiers more s nothing)))
            section
          ≡ some children
    unfolding find_section
    find_section-around written e = rw (find_section, section_found written e) refl
