-- ===== src/Settings/RoundTrip/Covers.antt =====
-- src/core/settings/: which variables of a section are written, and which values without loss.
use g0wm.Common.{
  ℕ, ◌<◌, ◌≡◌, Bool, true, false, ◌&&◌, Option, none, some, List, [], ◌∷◌, length, is_empty, Bytes,
  bytes_eq, if◌then◌else◌,
}
use g0wm.Settings.Types.{Numbers, Enum, Store}
use g0wm.Settings.Names.{has_value, DistinctNames, enum_name}
use g0wm.Settings.Word.{IsReading, one_line, AllOneLine}
use g0wm.Settings.Combo.{picked, total}
use g0wm.Settings.Tables.{
  Line, line, Kind, uint, flag, string, color, mods, number, enum, Conversion, convert,
}
use g0wm.Settings.Writing.{
  Written, put, Form, written_uint, written_int, written_number, written_bool, written_string,
  written_hex, written_mods, written_name, word_of,
}

-- What the C library promises of the numbers that it prints, and scfg of words.
pub record IsPrinting {D : Type 0} (d : Numbers D) : Type 0 where
  pub reading : IsReading d
  pub uint_text : (n : ℕ) → is_empty (d.show_uint n) ≡ false
  pub strtod-show_uint : (n : ℕ) → d.strtod (d.show_uint n) ≡ some (d.of_uint n)
  pub in_uint-of_uint : (n : ℕ) → n < 4294967296 → d.in_uint (d.of_uint n) ≡ some n
  pub hex_text : (n : ℕ) → n < 4294967296 → length (d.show_hex n) ≡ 8
  pub strtoul-show_hex : (n : ℕ) → n < 4294967296 → d.strtoul_hex (d.show_hex n) ≡ some n

-- A number that comes back from a text as it was, with the conversion made.
abbrev pub ComesBack : {D : Type 0} → Numbers D → Conversion → D → Bytes → Type 0
ComesBack d c v text =
    (is_empty text ≡ false) × ((w : _) × (d.strtod text ≡ some w) × (convert d c w ≡ v))

-- The name of a variable in a line that is written, and how.
abbrev pub written_at : List Written → Bytes → Option (Bytes × Form)
written_at [] key = none
written_at (put k var form ∷ lines) key =
    if bytes_eq k key then some (var, form) else written_at lines key

-- Whether a form writes what a kind of line reads.
abbrev pub suits : Kind → Form → Bool
suits uint written_uint = true
suits flag written_bool = true
suits string written_string = true
suits color written_hex = true
suits mods written_mods = true
suits (number conversion) written_int = true
suits (number conversion) written_number = true
suits (enum table) (written_name other) = bytes_eq table other
suits _ _ = false

abbrev pub found_suits : Bytes → Kind → Option (Bytes × Form) → Bool
found_suits var kind none = false
found_suits var kind (some (other, form)) = bytes_eq other var && suits kind form

-- Every line finds its key first with its own variable, written in a form that suits it.
abbrev pub covers : List Line → List Written → Bool
covers [] written = true
covers (line key var kind ∷ lines) written =
    found_suits var kind (written_at written key) && covers lines written

module _ {D : Type 0} (d : Numbers D) (tables : Bytes → List Enum) (modifiers : List Enum)
    (s : Store D) where
  -- A value that the form can write without loss.
  abbrev pub Writable : Bytes → Kind → Form → Type 0
  Writable var uint form = s.uints var < 4294967296
  Writable var color form = s.colors var < 4294967296
  Writable var mods form = total 0 (picked modifiers (s.uints var)) ≡ s.uints var
  Writable var (number conversion) written_int =
      ComesBack d conversion (s.numbers var) (d.show_int (s.numbers var))
  Writable var (number conversion) form =
      ComesBack d conversion (s.numbers var) (d.show_number (s.numbers var))
  Writable var string form = AllOneLine (word_of (s.strings var))
  Writable var (enum table) form =
      DistinctNames (tables table)
      × (has_value (tables table) (s.enums var) ≡ true)
      × (one_line (enum_name (tables table) (s.enums var)) ≡ true)
  Writable var _ form = Unit {0}

  abbrev pub FoundWritable : Bytes → Kind → Option (Bytes × Form) → Type 0
  FoundWritable var kind none = Unit {0}
  FoundWritable var kind (some (other, form)) = Writable var kind form

  abbrev pub AllWritable : List Line → List Written → Type 0
  AllWritable [] written = Unit {0}
  AllWritable (line key var kind ∷ lines) written =
      FoundWritable var kind (written_at written key) × AllWritable lines written

module _ {D : Type 0} (s : Store D) where
  -- The variable of a line has the value that it has in `s`.
  abbrev pub Keeps : Bytes → Kind → Store D → Type 0
  Keeps var uint t = t.uints var ≡ s.uints var
  Keeps var flag t = t.flags var ≡ s.flags var
  Keeps var string t = t.strings var ≡ s.strings var
  Keeps var color t = t.colors var ≡ s.colors var
  Keeps var mods t = t.uints var ≡ s.uints var
  Keeps var (number conversion) t = t.numbers var ≡ s.numbers var
  Keeps var (enum table) t = t.enums var ≡ s.enums var

  abbrev pub AllKept : List Line → Store D → Type 0
  AllKept [] t = Unit {0}
  AllKept (line key var kind ∷ lines) t = Keeps var kind t × AllKept lines t
