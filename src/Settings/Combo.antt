-- ===== src/Settings/Combo.antt =====
-- src/core/settings/: the modifiers of a key binding as text, `logo+shift+q`, read and written.
use Prim.Native.Nat.{bit_and, bit_or}
use g0wm.Common.{
  ℕ, suc, zero, ◌≡◌, refl, ◌∙◌, inl, inr, Bool, true, false, not, ◌&&◌, Option, none, some, List,
  [], ◌∷◌, ◌++◌, ◌==◌, Bytes, bytes_eq, bytes_eq_sound, if◌then◌else◌, arith, Bool-cases,
}
use g0wm.Settings.Types.{Enum, lit}
use g0wm.Settings.Names.{enum_value}

abbrev pub clip : ℕ → Bytes → Bytes
clip zero s = []
clip (suc k) [] = []
clip (suc k) (c ∷ s) = c ∷ clip k s

abbrev pub prefix_word : ℕ → List Bytes × Bytes → List Bytes × Bytes
prefix_word c ([], last) = ([], c ∷ last)
prefix_word c (w ∷ ws, last) = ((c ∷ w) ∷ ws, last)

-- The words in front of each plus sign, and what follows the last one.
unfoldable pub split_plus : Bytes → List Bytes × Bytes
split_plus [] = ([], [])
split_plus (c ∷ cs) =
    let later = split_plus cs in if c == 43 then ([] ∷ later.0, later.1) else prefix_word c later

-- `*modifiers` after the words, cut to the 15 bytes of `modifier_name`.
unfoldable pub mods_of : List Enum → ℕ → List Bytes → ℕ
mods_of table modifiers [] = modifiers
mods_of table modifiers (w ∷ ws) =
    mods_of table (bit_or modifiers (enum_value table (clip 15 w) 0)) ws

-- `settings_split_mods`: the modifiers and the rest.
unfoldable pub split_mods : List Enum → Bytes → ℕ × Bytes
split_mods table combo = let parts = split_plus combo in (mods_of table 0 parts.0, parts.1)

-- The value of `settings_get_mods` for a parameter.
unfoldable pub mods_value : List Enum → Option Bytes → ℕ → ℕ
mods_value table none fallback = fallback
mods_value table (some combo) fallback =
    if bytes_eq combo (lit "none")
    then 0
    else let parts = split_mods table combo in bit_or parts.0 (enum_value table parts.1 0)

-- The entries that `modifiers & entry->val` picks.
unfoldable pub picked : List Enum → ℕ → List Enum
picked [] modifiers = []
picked (entry ∷ table) modifiers =
    let later = picked table modifiers in
    if bit_and modifiers entry.val == 0 then later else entry ∷ later

abbrev pub plus_names : List Enum → Bytes → Bytes
plus_names [] last = last
plus_names (entry ∷ entries) last = entry.name ++ (43 ∷ plus_names entries last)

-- `settings_write_combo` behind the blank.
unfoldable pub write_combo : List Enum → ℕ → Bytes → Bytes
write_combo table modifiers last = plus_names (picked table modifiers) last

abbrev pub joined : Enum → List Enum → Bytes
joined entry [] = entry.name
joined entry (e ∷ entries) = entry.name ++ (43 ∷ joined e entries)

-- The parameters that `settings_write_mods` writes; 0 picks nothing.
unfoldable pub write_mods : List Enum → ℕ → List Bytes
write_mods table modifiers =
    if modifiers == 0
    then lit "none" ∷ []
    else elim (picked table modifiers) [ [] ↦ [] | entry ∷ entries ↦ joined entry entries ∷ [] ]

abbrev pub no_plus : Bytes → Bool
no_plus [] = true
no_plus (c ∷ cs) = not (c == 43) && no_plus cs

-- Entries that are found by their names: no plus sign in a name, no more bytes than are read, and not
-- the word for no modifier.
abbrev pub AreReadable : List Enum → List Enum → Type 0
AreReadable table [] = Unit {0}
AreReadable table (entry ∷ entries) =
    (no_plus entry.name ≡ true)
    × (clip 15 entry.name ≡ entry.name)
    × (enum_value table entry.name 0 ≡ entry.val)
    × (bytes_eq entry.name (lit "none") ≡ false)
    × AreReadable table entries

-- The values of the entries, added to those there are.
abbrev pub total : ℕ → List Enum → ℕ
total modifiers [] = modifiers
total modifiers (entry ∷ entries) = total (bit_or modifiers entry.val) entries

abbrev names : List Enum → List Bytes
names [] = []
names (entry ∷ entries) = entry.name ∷ names entries

split_plus-word :
    (w rest : Bytes)
    → no_plus w ≡ true
    → split_plus (w ++ (43 ∷ rest)) ≡ (w ∷ (split_plus rest).0, (split_plus rest).1)
unfolding split_plus
split_plus-word [] rest h = refl
split_plus-word (c ∷ w) rest h =
    let plain : (c == 43) ≡ false = ground arith in
    rw (plain, split_plus-word w rest (ground arith)) refl

split_plus-last : (w : Bytes) → no_plus w ≡ true → split_plus w ≡ ([], w)
unfolding split_plus
split_plus-last [] h = refl
split_plus-last (c ∷ w) h =
    let plain : (c == 43) ≡ false = ground arith in
    rw (plain, split_plus-last w (ground arith)) refl

split_plus-plus_names :
    (table entries : List Enum) (last : Bytes)
    → AreReadable table entries
    → no_plus last ≡ true
    → split_plus (plus_names entries last) ≡ (names entries, last)
split_plus-plus_names table [] last h k = split_plus-last last k
split_plus-plus_names table (entry ∷ entries) last h k =
    split_plus-word entry.name (plus_names entries last) h.0
    ∙ rw (split_plus-plus_names table entries last h.4 k) refl

mods_of-names :
    (table entries : List Enum) (modifiers : ℕ)
    → AreReadable table entries
    → mods_of table modifiers (names entries) ≡ total modifiers entries
unfolding mods_of
mods_of-names table [] modifiers h = refl
mods_of-names table (entry ∷ entries) modifiers h =
    rw (mods_of, h.1, h.2) (mods_of-names table entries (bit_or modifiers entry.val) h.4)

picked-AreReadable :
    (table entries : List Enum) (modifiers : ℕ)
    → AreReadable table entries
    → AreReadable table (picked entries modifiers)
unfolding picked
picked-AreReadable table [] modifiers h = tt
picked-AreReadable table (entry ∷ entries) modifiers h =
    elim (Bool-cases (bit_and modifiers entry.val == 0)) [
      | inl e ↦ rw e (picked-AreReadable table entries modifiers h.4)
      | inr e ↦ rw e (h.0, h.1, h.2, h.3, picked-AreReadable table entries modifiers h.4)
    ]

-- What `settings_write_combo` writes for modifiers and a key `settings_split_mods` reads back: the key,
-- and the modifiers that the table has, if the names of the table are readable and the key's name has
-- no plus sign.
pub split_mods-write_combo :
    (table : List Enum) (modifiers : ℕ) (last : Bytes)
    → AreReadable table table
    → no_plus last ≡ true
    → split_mods table (write_combo table modifiers last) ≡ (total 0 (picked table modifiers), last)
unfolding split_mods write_combo
split_mods-write_combo table modifiers last h k =
    let entries = picked table modifiers in
    let readable = picked-AreReadable table table modifiers h in
    rw (split_plus-plus_names table entries last readable k, mods_of-names table entries 0 readable)
      refl

-- All modifiers but the last stand in front of plus signs.
split_plus-joined :
    (table : List Enum) (entry : Enum) (entries : List Enum) (modifiers : ℕ)
    → AreReadable table (entry ∷ entries)
    → let parts = split_plus (joined entry entries) in
      bit_or (mods_of table modifiers parts.0) (enum_value table parts.1 0)
      ≡ total modifiers (entry ∷ entries)
unfolding mods_of
split_plus-joined table entry [] modifiers h = rw (split_plus-last entry.name h.0, h.2) refl
split_plus-joined table entry (e ∷ entries) modifiers h =
    rw (split_plus-word entry.name (joined e entries) h.0, mods_of, h.1, h.2)
      (split_plus-joined table e entries (bit_or modifiers entry.val) h.4)

joined-ne-none :
    (table : List Enum) (entry : Enum) (entries : List Enum)
    → AreReadable table (entry ∷ entries)
    → bytes_eq (joined entry entries) (lit "none") ≡ false
joined-ne-none table entry [] h = h.3
joined-ne-none table entry (e ∷ entries) h =
    elim (Bool-cases (bytes_eq (joined entry (e ∷ entries)) (lit "none"))) [
      | inr k ↦ k
      | inl k ↦
          let same = bytes_eq_sound (joined entry (e ∷ entries)) (lit "none") k in
          let left = split_plus-word entry.name (joined e entries) h.0 in
          let right = split_plus-last (lit "none") refl in cc (same, left, right)
    ]

-- The first parameter of what is written.
abbrev pub first_word : List Bytes → Option Bytes
first_word [] = none
first_word (w ∷ ws) = some w

-- The modifiers that `settings_write_mods` writes `settings_get_mods` reads back, if the names of the
-- table are readable and the modifiers are made of its values.
pub mods_value-write_mods :
    (table : List Enum) (modifiers fallback : ℕ)
    → AreReadable table table
    → total 0 (picked table modifiers) ≡ modifiers
    → mods_value table (first_word (write_mods table modifiers)) fallback ≡ modifiers
unfolding mods_value write_mods split_mods
mods_value-write_mods table modifiers fallback h made = elim (Bool-cases (modifiers == 0)) [
  | inl e ↦ rw e (ground arith)
  | inr e ↦ rw e (go (picked table modifiers) (picked-AreReadable table table modifiers h) made e)
]
  where
    go :
        (entries : List Enum)
        → AreReadable table entries
        → total 0 entries ≡ modifiers
        → (modifiers == 0) ≡ false
        → mods_value table
            (first_word (elim entries as (λ _. List Bytes) [
              | [] ↦ []
              | entry ∷ rest ↦ joined entry rest ∷ []
            ]))
            fallback
          ≡ modifiers
    go [] r m n = ground arith
    go (entry ∷ rest) r m n =
        rw (mods_value, joined-ne-none table entry rest r)
          (split_plus-joined table entry rest 0 r ∙ m)
