-- ===== src/Settings/Bindings/Tests.antt =====
-- src/core/settings/: a configuration with a binding of each kind.
use g0wm.Common.{ℕ, ◌≡◌, refl, none, some, [], ◌∷◌, ◌==◌, bytes_eq, if◌then◌else◌, arith}
use g0wm.Settings.Types.{Block, nothing, directive, lit}
use g0wm.Settings.Names.{enum_name}
use g0wm.Settings.Combo.{picked}
use g0wm.Settings.Sections.Tests.{whole, whole-IsPrinting, shift, shift-AreReadable}
use g0wm.Settings.Bindings.{
  Names, Layout, arg_none, arg_uint, arg_words, arg_layout, kind_none, kind_uint, kind_words,
  kind_layout, Bindings, action_by_name, action_by_func, layout_by_symbol, apply_bindings,
  write_bindings,
}
use g0wm.Settings.Bindings.RoundTrip.{apply_bindings-write_bindings}

abbrev tile : Layout
tile = record { symbol = lit "[]="; arrange = lit "tile" }

abbrev three : Names
three = record {
  actions =
      record { func = lit "quit"; name = lit "quit"; arg = kind_none }
      ∷ record { func = lit "spawn"; name = lit "spawn"; arg = kind_words }
      ∷ record { func = lit "layout_view"; name = lit "view"; arg = kind_uint }
      ∷ record { func = lit "layout_set"; name = lit "setlayout"; arg = kind_layout }
      ∷ [];
  layouts = tile ∷ [];
  modifier_names = shift;
  click_areas =
      record { val = 0; name = lit "tags" } ∷ record { val = 4; name = lit "client" } ∷ [];
  mouse_buttons =
      record { val = 272; name = lit "left" } ∷ record { val = 274; name = lit "middle" } ∷ [];
  gesture_motions =
      record { val = 0; name = lit "swipeleft" } ∷ record { val = 4; name = lit "pinchin" } ∷ [];
  drag_modes = [];
  btn_left = 272;
  keysym_from_name = λ name. if bytes_eq name (lit "q") then 113 else 0;
  keysym_get_name = λ keysym. if keysym == 113 then some (lit "q") else none;
}

abbrev bound : Bindings ℕ
bound = record {
  keys = record { modifiers = 5; keysym = 113; func = lit "quit"; arg = arg_none } ∷ [];
  buttons =
      record {
        click = 4;
        modifiers = 1;
        button = 274;
        func = lit "layout_set";
        arg = arg_layout (some tile);
      }
      ∷ [];
  gestures =
      record {
        motion = 4;
        fingers = 2;
        func = lit "spawn";
        arg = arg_words (some (lit "foot" ∷ lit "a b" ∷ []));
      }
      ∷ [];
  pad_buttons = record { button = 1; func = lit "layout_view"; arg = arg_uint 8 } ∷ [];
}

-- The built-in lines.
abbrev default : Block
default =
    directive (lit "key") (lit "q" ∷ lit "spawn" ∷ lit "foot" ∷ []) nothing
      (directive (lit "button") (lit "tags" ∷ lit "left" ∷ lit "view" ∷ []) nothing nothing)

apply_bindings-write_bindings_example :
    apply_bindings whole 0 three (some default) (write_bindings whole 0 three bound) ≡ bound
unfolding action_by_name action_by_func layout_by_symbol picked enum_name
apply_bindings-write_bindings_example =
    apply_bindings-write_bindings whole 0 three whole-IsPrinting shift-AreReadable
      (refl, (refl, tt)) (refl, (refl, tt)) (refl, (refl, tt)) (some default) bound
      (((_, refl, refl, refl, refl, refl), refl, (lit "q", refl, refl, refl), refl), tt)
      (((_, refl, refl, refl, refl, (refl, refl)), refl, refl, refl, refl, refl), tt)
      (((_, refl, refl, refl, refl, (refl, (refl, tt))), refl, refl, omega arith), tt)
      (((_, refl, refl, refl, refl, omega arith), omega arith), tt) refl refl refl refl
