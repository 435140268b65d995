-- ===== src/Settings/Bindings/Reading.antt =====
-- src/core/settings/read.c: proofs on reading the argument of an action that was written.
use g0wm.Common.{
  ℕ, ◌<◌, ◌≡◌, refl, sym, true, false, none, some, List, [], ◌∷◌, ◌++◌, Bytes, is_empty, length,
}
use g0wm.Settings.Types.{Numbers}
use g0wm.Settings.Names.{has_value, DistinctNames, enum_name, enum_value-enum_name}
use g0wm.Settings.Word.{one_line, AllOneLine, carried_same, all_carried_same}
use g0wm.Settings.Getters.{nth, number_of, number_value, uint_value}
use g0wm.Settings.Tables.{truncated, narrowed}
use g0wm.Settings.RoundTrip.Covers.{IsPrinting, ComesBack}
use g0wm.Settings.Bindings.Args.{
  Names, Layout, Arg, arg_none, arg_int, arg_uint, arg_float, arg_words, arg_layout, ArgKind,
  kind_none, kind_int, kind_uint, kind_float, kind_words, kind_layout, kind_drag, layout_by_symbol,
  collect_params, get_arg, write_arg,
}

module _ {D : Type 0} (d : Numbers D) (zero_value : D) (names : Names) where
  -- An argument that an action of that kind has and that is written without loss.
  abbrev pub WritableArg : ArgKind → Arg D → Type 0
  WritableArg kind_none a = a ≡ arg_none
  WritableArg kind_int (arg_int i) = ComesBack d truncated i (d.show_int i)
  WritableArg kind_uint (arg_uint ui) = ui < 4294967296
  WritableArg kind_float (arg_float f) = ComesBack d narrowed f (d.show_number f)
  WritableArg kind_words (arg_words (some words)) = AllOneLine words
  WritableArg kind_layout (arg_layout none) = Unit {0}
  WritableArg kind_layout (arg_layout (some layout)) =
      (layout_by_symbol names.layouts (some layout.symbol) ≡ some layout)
      × (one_line layout.symbol ≡ true)
  WritableArg kind_drag (arg_uint ui) =
      DistinctNames names.drag_modes
      × (has_value names.drag_modes ui ≡ true)
      × (one_line (enum_name names.drag_modes ui) ≡ true)
  WritableArg _ _ = ⊥

  module _ (law : IsPrinting d) where
    pub uint_value-show_uint :
        (v fallback : ℕ) → v < 4294967296 → uint_value d (some (d.show_uint v)) fallback ≡ v
    unfolding uint_value number_of
    uint_value-show_uint v fallback h =
        rw (uint_value, number_of, law.uint_text v, law.strtod-show_uint v, law.in_uint-of_uint v h)
          refl

    number_back :
        (text : Bytes) (w : D)
        → is_empty text ≡ false
        → d.strtod text ≡ some w
        → number_value d (some text) zero_value ≡ w
    unfolding number_value number_of
    number_back text w e f = rw (number_value, number_of, e, f) refl

    nth-append : (before after : List Bytes) → nth (before ++ after) (length before) ≡ nth after 0
    nth-append [] after = refl
    nth-append (b ∷ before) after = nth-append before after

    collect_params-append :
        (before after : List Bytes) → collect_params (before ++ after) (length before) ≡ some after
    unfolding collect_params
    collect_params-append [] after = refl
    collect_params-append (b ∷ before) after = collect_params-append before after

    layout_none : (layouts : List Layout) → layout_by_symbol layouts none ≡ none
    unfolding layout_by_symbol
    layout_none [] = refl
    layout_none (layout ∷ layouts) = refl

    -- Behind the words that name the action an argument is read back as it was written, if it is one
    -- that an action of that kind has and that is written without loss.
    pub get_arg-write_arg :
        (kind : ArgKind) (a : Arg D) (before : List Bytes)
        → WritableArg kind a
        → get_arg d zero_value names kind
            (before ++ write_arg d zero_value names kind a)
            (length before)
          ≡ a
    unfolding get_arg write_arg
    get_arg-write_arg kind_none a before h = sym h
    get_arg-write_arg kind_int (arg_int i) before (e, (w, f, g)) =
        rw (get_arg, nth-append before (d.show_int i ∷ []), number_back (d.show_int i) w e f, g)
          refl
    get_arg-write_arg kind_uint (arg_uint ui) before h =
        rw (nth-append before (d.show_uint ui ∷ []), uint_value-show_uint ui 0 h) refl
    get_arg-write_arg kind_float (arg_float f) before (e, (w, g, same)) =
        rw (nth-append before (d.show_number f ∷ []), number_back (d.show_number f) w e g, same)
          refl
    get_arg-write_arg kind_words (arg_words (some words)) before h =
        rw (all_carried_same d words law.reading h, collect_params-append before words) refl
    get_arg-write_arg kind_layout (arg_layout none) before h =
        rw (all_carried_same d [] law.reading tt, nth-append before [], layout_none names.layouts)
          refl
    get_arg-write_arg kind_layout (arg_layout (some layout)) before h =
        rw
          (
            all_carried_same d (layout.symbol ∷ []) law.reading (h.1, tt),
            nth-append before (layout.symbol ∷ []),
            h.0,
          )
          refl
    get_arg-write_arg kind_drag (arg_uint ui) before h =
        rw
          (
            get_arg,
            carried_same d (enum_name names.drag_modes ui) law.reading h.2,
            nth-append before (enum_name names.drag_modes ui ∷ []),
            enum_value-enum_name names.drag_modes ui 2 h.0 h.1,
          )
          refl
    get_arg-write_arg _ _ before h = absurd h
