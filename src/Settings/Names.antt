-- ===== src/Settings/Names.antt =====
-- src/core/settings/: names and values of a table.
use g0wm.Common.{
  ℕ, ◌≡◌, ap, ◌∙◌, ◌⊎◌, inl, inr, Bool, true, false, ◌||◌, List, [], ◌∷◌, ◌==◌, Bytes, bytes_eq,
  bytes_eq_refl, bytes_eq_sound, if◌then◌else◌, arith, Bool-cases,
}
use g0wm.Settings.Types.{Enum, lit}

-- `settings_enum_value` and `settings_enum_name`.
unfoldable pub enum_value : List Enum → Bytes → ℕ → ℕ
enum_value [] name fallback = fallback
enum_value (entry ∷ table) name fallback =
    let later = enum_value table name fallback in
    if bytes_eq entry.name name then entry.val else later

unfoldable pub enum_name : List Enum → ℕ → Bytes
enum_name [] value = lit "unknown"
enum_name (entry ∷ table) value =
    let later = enum_name table value in if entry.val == value then entry.name else later

-- Whether a name stands in the table, and a value.
abbrev pub has_name : List Enum → Bytes → Bool
has_name [] name = false
has_name (entry ∷ table) name = bytes_eq entry.name name || has_name table name

abbrev pub has_value : List Enum → ℕ → Bool
has_value [] value = false
has_value (entry ∷ table) value = (entry.val == value) || has_value table value

-- No name stands twice.
abbrev pub DistinctNames : List Enum → Type 0
DistinctNames [] = Unit {0}
DistinctNames (entry ∷ table) = (has_name table entry.name ≡ false) × DistinctNames table

enum_name-listed :
    (table : List Enum) (value : ℕ)
    → has_value table value ≡ true
    → has_name table (enum_name table value) ≡ true
unfolding enum_name
enum_name-listed [] value h = cc
enum_name-listed (entry ∷ table) value h = elim (Bool-cases (entry.val == value)) [
  | inl e ↦ rw e (ground (arith, bytes_eq_refl entry.name))
  | inr e ↦ rw e (ground (arith, enum_name-listed table value))
]

-- The name of a value that the table has reads back as the value, if no name stands in it twice.
pub enum_value-enum_name :
    (table : List Enum) (value fallback : ℕ)
    → DistinctNames table
    → has_value table value ≡ true
    → enum_value table (enum_name table value) fallback ≡ value
unfolding enum_value enum_name
enum_value-enum_name [] value fallback d h = cc
enum_value-enum_name (entry ∷ table) value fallback d h = elim (Bool-cases (entry.val == value)) [
  | inl e ↦ rw (e, bytes_eq_refl entry.name) (ground arith)
  | inr e ↦
      let listed = enum_name-listed table value (ground arith) in
      let ih = enum_value-enum_name table value fallback d.1 (ground arith) in
      let apart : bytes_eq entry.name (enum_name table value) ≡ false =
        other (Bool-cases (bytes_eq entry.name (enum_name table value))) listed in
      rw (e, apart) ih
]
  where
    other :
        (bytes_eq entry.name (enum_name table value) ≡ true)
          ⊎ (bytes_eq entry.name (enum_name table value) ≡ false)
        → has_name table (enum_name table value) ≡ true
        → bytes_eq entry.name (enum_name table value) ≡ false
    other (inr e) l = e
    other (inl e) l =
        let same = bytes_eq_sound entry.name (enum_name table value) e in
        let twice : has_name table entry.name ≡ true = ap (has_name table) same ∙ l in
        cc (twice, d.0)
