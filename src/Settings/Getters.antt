-- ===== src/Settings/Getters.antt =====
-- src/core/settings/read.c: the getters that read a block of the config file.
use g0wm.Common.{
  ℕ, suc, zero, ◌+◌, Bool, false, ◌&&◌, ◌||◌, Option, none, some, List, [], ◌∷◌, ◌==◌, length,
  Bytes, bytes_eq, is_empty, if◌then◌else◌,
}
use g0wm.Settings.Types.{Block, nothing, directive, Numbers, Enum, lit}
use g0wm.Settings.Names.{enum_value}

-- `settings_find_directive`: the first directive of that name, with its parameters and its block.
unfoldable pub find_directive : Block → Bytes → Option (List Bytes × Block)
find_directive nothing key = none
find_directive (directive name params children rest) key =
    let later = find_directive rest key in
    if bytes_eq name key then some (params, children) else later

unfoldable pub find_section : Block → Bytes → Option Block
find_section block key = elim (find_directive block key) [
  | none ↦ none
  | some (params, children) ↦ some children
]

unfoldable pub count_directives : Block → Bytes → ℕ
count_directives nothing key = 0
count_directives (directive name params children rest) key =
    (if bytes_eq name key then 1 else 0) + count_directives rest key

abbrev pub nth : List Bytes → ℕ → Option Bytes
nth [] i = none
nth (p ∷ ps) zero = some p
nth (p ∷ ps) (suc i) = nth ps i

-- `settings_param_at`, `none` for a directive that is not there.
unfoldable pub param_at : Option (List Bytes × Block) → ℕ → Option Bytes
param_at none i = none
param_at (some (params, children)) i = nth params i

unfoldable pub is_bool : Option Bytes → Bool
is_bool none = false
is_bool (some text) = bytes_eq text (lit "true") || bytes_eq text (lit "false")

abbrev pub starts_with_t : Option Bytes → Bool
starts_with_t (some (c ∷ cs)) = c == 116
starts_with_t _ = false

abbrev pub or_else {ℓ} : {A : Type ℓ} → Option A → A → A
or_else none a = a
or_else (some b) a = b

-- The getters that need no numbers.
unfoldable pub get_bool : Block → Bytes → Bool → Bool
get_bool block key fallback =
    let text = param_at (find_directive block key) 0 in
    if is_bool text then starts_with_t text else fallback

unfoldable pub get_string : Block → Bytes → Option Bytes → Option Bytes
get_string block key fallback = elim (find_directive block key) [
  | none ↦ fallback
  | some (params, children) ↦ nth params 0
]

unfoldable pub get_enum : Block → Bytes → List Enum → ℕ → ℕ
get_enum block key table fallback = elim (get_string block key none) [
  | none ↦ fallback
  | some name ↦ enum_value table name fallback
]

module _ {D : Type 0} (d : Numbers D) where
  -- `settings_is_number` with the value.
  unfoldable pub number_of : Option Bytes → Option D
  number_of none = none
  number_of (some text) = if is_empty text then none else d.strtod text

  unfoldable pub number_value : Option Bytes → D → D
  number_value text fallback = or_else (number_of text) fallback

  unfoldable pub uint_value : Option Bytes → ℕ → ℕ
  uint_value text fallback = elim (number_of text) [
    | none ↦ fallback
    | some value ↦ or_else (d.in_uint value) fallback
  ]

  unfoldable pub hex_value : Option Bytes → ℕ → ℕ
  hex_value none fallback = fallback
  hex_value (some []) fallback = fallback
  hex_value (some (c ∷ cs)) fallback =
      if (c == 35) && (length cs == 8) then or_else (d.strtoul_hex cs) fallback else fallback

  -- The getters.
  unfoldable pub get_number : Block → Bytes → D → D
  get_number block key fallback = number_value (param_at (find_directive block key) 0) fallback

  unfoldable pub get_uint : Block → Bytes → ℕ → ℕ
  get_uint block key fallback = uint_value (param_at (find_directive block key) 0) fallback

  unfoldable pub get_hex : Block → Bytes → ℕ → ℕ
  get_hex block key fallback = hex_value (get_string block key none) fallback
