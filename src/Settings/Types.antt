-- ===== src/Settings/Types.antt =====
-- What src/core/settings/ reads and writes: the blocks of libscfg, the variables and the numbers.
use Prim.Native.Char.{code}
use Prim.Native.String.{String}
use g0wm.Common.{ℕ, Bool, Option, List, [], ◌∷◌, Bytes, bytes_eq, if◌then◌else◌}

-- A text literal of C.
abbrev pub lit : String → Bytes
lit String.[] = []
lit (String.◌∷◌ c s) = code c ∷ lit s

-- `struct scfg_block`: a directive has a name, parameters and a block of its own. The line numbers
-- serve the warnings only.
pub data Block : Type 0 where
  nothing : Block
  directive : Bytes → List Bytes → Block → Block → Block

-- `double` with the functions of the C library that the settings use of it. `strtod` gives none unless
-- it reads the whole text; `in_uint` is `(unsigned int)value`, none for a value out of range. And the
-- word that libscfg makes of a written one.
pub record Numbers (D : Type 0) : Type 0 where
  pub strtod : Bytes → Option D
  pub strtoul_hex : Bytes → Option ℕ
  pub in_uint : D → Option ℕ
  pub of_uint : ℕ → D
  pub narrow : D → D
  pub trunc : D → D
  pub at_most_one : D → D
  pub at_least_zero : D → D
  pub at_least_one : D → D
  pub show_uint : ℕ → Bytes
  pub show_int : D → Bytes
  pub show_number : D → Bytes
  pub show_hex : ℕ → Bytes
  pub scfg_word : Bytes → Bytes

-- `Enum`: the names of a table with their values.
pub record Enum : Type 0 where
  pub val : ℕ
  pub name : Bytes

-- The variables of the settings by their names in the source, for each type of variable.
pub record Store (D : Type 0) : Type 0 where
  pub uints : Bytes → ℕ
  pub numbers : Bytes → D
  pub flags : Bytes → Bool
  pub strings : Bytes → Option Bytes
  pub colors : Bytes → ℕ
  pub enums : Bytes → ℕ

-- An assignment to one variable.
abbrev pub assign {ℓ} : {A : Type ℓ} → Bytes → A → (Bytes → A) → Bytes → A
assign var a f x = if bytes_eq x var then a else f x
