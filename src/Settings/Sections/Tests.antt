-- ===== src/Settings/Sections/Tests.antt =====
-- src/core/settings/: a configuration whose texts are a quote, a blank and a backslash, written and
-- read back.
use g0wm.Common.{
  ℕ, ◌≡◌, refl, true, false, Option, none, some, List, [], ◌∷◌, ◌++◌, ◌==◌, Bytes, if◌then◌else◌,
  ltb, arith,
}
use g0wm.Settings.Types.{nothing, Numbers, Enum, Store, lit}
use g0wm.Settings.Names.{enum_value, enum_name}
use g0wm.Settings.Word.{IsReading, unquoted, has_special}
use g0wm.Settings.Getters.{or_else}
use g0wm.Settings.Combo.{picked, AreReadable}
use g0wm.Settings.Tables.{
  convert, windows_lines, bar_lines, input_first_lines, xkb_lines, input_lines, misc_lines, Line,
  line, Kind, uint, flag, string, color, mods, number, enum, Conversion, exact, narrowed, truncated,
  at_most_one, at_least_one, zero_to_one,
}
use g0wm.Settings.Writing.{
  windows_written, bar_written, input_first_written, xkb_written, input_written, misc_written,
  Written, Form, written_uint, written_int, written_number, written_bool, written_string,
  written_hex, written_mods, written_name,
}
use g0wm.Settings.RoundTrip.Covers.{
  IsPrinting, written_at, Writable, FoundWritable, AllWritable, AllKept,
}
use g0wm.Settings.Sections.RoundTrip.{
  apply_sections-write_sections, all_lines, opacity_all_lines, opacity_all_written,
}
use g0wm.Settings.Sections.{apply_sections, write_sections}

-- Whole numbers, printed as one letter each.
abbrev letter : Bytes → Option ℕ
letter [] = none
letter (c ∷ cs) = some c

abbrev read_word : Bytes → Bytes
read_word [] = []
read_word (c ∷ text) = if c == 34 then or_else (unquoted text) [] else c ∷ text

read_word-IsBare : (word : Bytes) → has_special word ≡ false → read_word word ≡ word
read_word-IsBare [] h = refl
read_word-IsBare (c ∷ text) h = ground (arith, h)

abbrev pub whole : Numbers ℕ
whole = record {
  strtod = letter;
  strtoul_hex = letter;
  in_uint = λ n. if ltb n 4294967296 then some n else none;
  of_uint = λ n. n;
  narrow = λ n. n;
  trunc = λ n. n;
  at_most_one = λ n. n;
  at_least_zero = λ n. n;
  at_least_one = λ n. n;
  show_uint = λ n. n ∷ [];
  show_int = λ n. n ∷ [];
  show_number = λ n. n ∷ [];
  show_hex = λ n. n ∷ 0 ∷ 0 ∷ 0 ∷ 0 ∷ 0 ∷ 0 ∷ 0 ∷ [];
  scfg_word = read_word;
}

whole-IsReading : IsReading whole
whole-IsReading = record {
  bare = λ word e h o. read_word-IsBare word h;
  quoted = λ between word e. rw e refl;
}

pub whole-IsPrinting : IsPrinting whole
whole-IsPrinting = record {
  reading = whole-IsReading;
  uint_text = λ n. refl;
  strtod-show_uint = λ n. refl;
  in_uint-of_uint = λ n h. ground arith;
  hex_text = λ n h. refl;
  strtoul-show_hex = λ n h. refl;
}

abbrev pub shift : List Enum
shift = record { val = 1; name = lit "shift" } ∷ record { val = 4; name = lit "ctrl" } ∷ []

abbrev one_name : Bytes → List Enum
one_name table = record { val = 5; name = lit "five" } ∷ []

abbrev settings : Store ℕ
settings = record {
  uints = λ x. 5;
  numbers = λ x. 7;
  flags = λ x. true;
  strings = λ x. some (34 ∷ 32 ∷ 92 ∷ []);
  colors = λ x. 255;
  enums = λ x. 5;
}

abbrev empty : Store ℕ
empty = record {
  uints = λ x. 0;
  numbers = λ x. 0;
  flags = λ x. false;
  strings = λ x. none;
  colors = λ x. 0;
  enums = λ x. 0;
}

pub shift-AreReadable : AreReadable shift shift
unfolding enum_value
shift-AreReadable = (refl, refl, refl, refl, (refl, refl, refl, refl, tt))

convert_seven : (c : Conversion) → convert whole c 7 ≡ 7
convert_seven exact = refl
convert_seven narrowed = refl
convert_seven truncated = refl
convert_seven at_most_one = refl
convert_seven at_least_one = refl
convert_seven zero_to_one = refl

number-Writable :
    (var : Bytes) (c : Conversion) (form : Form)
    → Writable whole one_name shift settings var (number c) form
number-Writable var c written_int = (refl, (7, refl, convert_seven c))
number-Writable var c written_uint = (refl, (7, refl, convert_seven c))
number-Writable var c written_number = (refl, (7, refl, convert_seven c))
number-Writable var c written_bool = (refl, (7, refl, convert_seven c))
number-Writable var c written_string = (refl, (7, refl, convert_seven c))
number-Writable var c written_hex = (refl, (7, refl, convert_seven c))
number-Writable var c written_mods = (refl, (7, refl, convert_seven c))
number-Writable var c (written_name table) = (refl, (7, refl, convert_seven c))

five-Writable :
    (var : Bytes) (kind : Kind) (form : Form) → Writable whole one_name shift settings var kind form
unfolding picked enum_name
five-Writable var uint form = omega arith
five-Writable var color form = omega arith
five-Writable var mods form = refl
five-Writable var (number c) form = number-Writable var c form
five-Writable var (enum table) form = ((refl, tt), refl, refl)
five-Writable var flag form = tt
five-Writable var string form = (refl, tt)

all-Writable :
    (lines : List Line) (written : List Written)
    → AllWritable whole one_name shift settings lines written
all-Writable [] written = tt
all-Writable (line key var kind ∷ lines) written =
    (found (written_at written key), all-Writable lines written)
  where
    found : (at : Option (Bytes × Form)) → FoundWritable whole one_name shift settings var kind at
    found none = tt
    found (some (other, form)) = five-Writable var kind form

apply_sections-write_sections_example : AllKept settings (all_lines true) (
    apply_sections whole one_name shift true
      (write_sections whole one_name shift true settings nothing)
      empty)
apply_sections-write_sections_example =
    apply_sections-write_sections whole one_name shift whole-IsPrinting shift-AreReadable settings
      true nothing empty
      (
        all-Writable windows_lines windows_written,
        all-Writable bar_lines bar_written,
        all-Writable (opacity_all_lines true) (opacity_all_written true),
        all-Writable input_first_lines (input_first_written ++ input_written),
        all-Writable xkb_lines xkb_written,
        all-Writable input_lines (input_first_written ++ input_written),
        all-Writable misc_lines misc_written,
      )
