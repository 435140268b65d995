-- ===== src/Settings/RoundTrip/Apply.antt =====
-- src/core/settings/: proofs on a line that reads a directive as it was written.
use g0wm.Common.{
  ℕ, ◌<◌, ◌≡◌, refl, sym, ap, ◌∙◌, Bool, true, false, Option, none, some, List, [], ◌∷◌, Bytes,
  bytes_eq_sound, if◌then◌else◌,
}
use g0wm.Settings.Types.{Block, nothing, Numbers, Enum, Store, lit}
use g0wm.Settings.Names.{enum_name, has_value, DistinctNames, enum_value-enum_name}
use g0wm.Settings.Combo.{
  picked, total, AreReadable, first_word, mods_value, write_mods, mods_value-write_mods,
}
use g0wm.Settings.Word.{carried, one_line, carried_same, all_carried_same}
use g0wm.Settings.Getters.{
  find_directive, nth, param_at, is_bool, get_bool, get_string, get_enum, number_of, number_value,
  uint_value, hex_value, get_number, get_uint, get_hex,
}
use g0wm.Settings.Tables.{
  line, Kind, uint, flag, string, color, mods, number, enum, Conversion, convert, apply_line,
}
use g0wm.Settings.Writing.{
  Form, written_uint, written_int, written_number, written_bool, written_string, written_hex,
  written_mods, written_name, word_of, written_params,
}
use g0wm.Settings.RoundTrip.Covers.{IsPrinting, ComesBack, suits, Writable, Keeps}
use g0wm.Settings.RoundTrip.Between.{
  IsBetween, uints_assigned, numbers_assigned, flags_assigned, strings_assigned, colors_assigned,
  enums_assigned,
}

module _ {D : Type 0} (d : Numbers D) (tables : Bytes → List Enum) (modifiers : List Enum)
    (law : IsPrinting d) (readable : AreReadable modifiers modifiers) (s : Store D) where
  -- What the getters make of a directive that was written.
  module _ (key : Bytes) (block : Block) where
    abbrev Found : List Bytes → Type 0
    Found params = find_directive block key ≡ some (params, nothing)

    string_read :
        (params : List Bytes) (fallback : Option Bytes)
        → Found params
        → get_string block key fallback ≡ nth params 0
    unfolding get_string
    string_read params fallback e = rw (get_string, e) refl

    uint_read :
        (v : ℕ) (fallback : ℕ)
        → v < 4294967296
        → Found (d.show_uint v ∷ [])
        → get_uint d block key fallback ≡ v
    unfolding get_uint uint_value number_of param_at
    uint_read v fallback h e =
        rw
          (
            get_uint,
            e,
            uint_value,
            number_of,
            param_at,
            law.uint_text v,
            law.strtod-show_uint v,
            law.in_uint-of_uint v h,
          )
          refl

    color_read :
        (v : ℕ) (fallback : ℕ)
        → v < 4294967296
        → Found ((35 ∷ d.show_hex v) ∷ [])
        → get_hex d block key fallback ≡ v
    unfolding get_hex hex_value
    color_read v fallback h e =
        rw
          (
            get_hex,
            string_read ((35 ∷ d.show_hex v) ∷ []) none e,
            hex_value,
            law.hex_text v h,
            law.strtoul-show_hex v h,
          )
          refl

    flag_read :
        (v : Bool) (fallback : Bool)
        → Found ((if v then lit "true" else lit "false") ∷ [])
        → get_bool block key fallback ≡ v
    unfolding get_bool is_bool param_at
    flag_read true fallback e = rw e refl
    flag_read false fallback e = rw e refl

    number_read :
        (c : Conversion) (v fallback : D) (text : Bytes)
        → ComesBack d c v text
        → Found (text ∷ [])
        → convert d c (get_number d block key fallback) ≡ v
    unfolding get_number number_value number_of param_at
    number_read c v fallback text (ne, (w, back, same)) e = rw (e, ne, back) same

    enum_read :
        (table : List Enum) (v fallback : ℕ)
        → DistinctNames table
        → has_value table v ≡ true
        → one_line (enum_name table v) ≡ true
        → Found (carried d (enum_name table v) ∷ [])
        → get_enum block key table fallback ≡ v
    unfolding get_enum
    enum_read table v fallback n h o e =
        rw
          (
            get_enum,
            string_read (carried d (enum_name table v) ∷ []) none e,
            carried_same d (enum_name table v) law.reading o,
          )
          (enum_value-enum_name table v fallback n h)

    mods_read :
        (v fallback : ℕ)
        → total 0 (picked modifiers v) ≡ v
        → Found (write_mods modifiers v)
        → mods_value modifiers (get_string block key none) fallback ≡ v
    mods_read v fallback h e =
        ap (λ w. mods_value modifiers w fallback)
          (string_read (write_mods modifiers v) none e ∙ first_word-nth (write_mods modifiers v))
        ∙ mods_value-write_mods modifiers v fallback readable h
      where
        first_word-nth : (ws : List Bytes) → nth ws 0 ≡ first_word ws
        first_word-nth [] = refl
        first_word-nth (w ∷ ws) = refl

    nth-word_of : (v : Option Bytes) → nth (word_of v) 0 ≡ v
    nth-word_of none = refl
    nth-word_of (some text) = refl

    pub apply_line-Keeps :
        (var : Bytes) (kind : Kind) (form : Form) (t : Store D)
        → suits kind form ≡ true
        → Writable d tables modifiers s var kind form
        → Found (written_params d tables modifiers var form s)
        → Keeps s var kind (apply_line d tables modifiers (line key var kind) block t)
          × IsBetween s t (apply_line d tables modifiers (line key var kind) block t)
    unfolding apply_line written_params
    apply_line-Keeps var uint written_uint t ok w e =
        uints_assigned s var _ t (uint_read (s.uints var) (t.uints var) w e)
    apply_line-Keeps var flag written_bool t ok w e =
        flags_assigned s var _ t (flag_read (s.flags var) (t.flags var) e)
    apply_line-Keeps var string written_string t ok w e = strings_assigned s var _ t (
        string_read (written_params d tables modifiers var written_string s) (t.strings var) e
        ∙ ap (λ ws. nth ws 0) (all_carried_same d (word_of (s.strings var)) law.reading w)
        ∙ nth-word_of (s.strings var))
    apply_line-Keeps var color written_hex t ok w e =
        colors_assigned s var _ t (color_read (s.colors var) (t.colors var) w e)
    apply_line-Keeps var mods written_mods t ok w e =
        uints_assigned s var _ t (mods_read (s.uints var) (t.uints var) w e)
    apply_line-Keeps var (number c) written_int t ok w e =
        numbers_assigned s var _ t
          (number_read c (s.numbers var) (t.numbers var) (d.show_int (s.numbers var)) w e)
    apply_line-Keeps var (number c) written_number t ok w e =
        numbers_assigned s var _ t
          (number_read c (s.numbers var) (t.numbers var) (d.show_number (s.numbers var)) w e)
    apply_line-Keeps var (enum table) (written_name other) t ok w e =
        let same = bytes_eq_sound table other ok in
        enums_assigned s var _ t (
          enum_read (tables table) (s.enums var) (t.enums var) w.0 w.1 w.2 (
            e
            ∙ ap (λ b. some (carried d (enum_name (tables b) (s.enums var)) ∷ [], nothing))
                (sym same)))
    apply_line-Keeps var _ _ t ok w e = cc ok
