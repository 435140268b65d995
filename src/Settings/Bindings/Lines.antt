-- ===== src/Settings/Bindings/Lines.antt =====
-- src/core/settings/read.c: proofs on the lines of the file, or the built-in ones.
use g0wm.Common.{
  ◌≡◌, refl, inl, inr, Bool, true, false, Option, none, some, List, [], ◌∷◌, ◌==◌, Bytes, bytes_eq,
  arith, Bool-cases,
}
use g0wm.Settings.Types.{Block, nothing, directive}
use g0wm.Settings.Getters.{count_directives}
use g0wm.Settings.Bindings.{records, lines_or_builtin}

abbrev pub has_some {ℓ} : {A : Type ℓ} → List A → Bool
has_some [] = false
has_some (a ∷ xs) = true

-- A block without directives of a name has nothing to read for it.
records-count {ℓ} :
    {A : Type ℓ} (name : Bytes) (parse : List Bytes → Option A) (block : Block)
    → (count_directives block name == 0) ≡ true
    → records name parse block ≡ []
unfolding records count_directives
records-count name parse nothing e = refl
records-count name parse (directive other params children rest) e =
    elim (Bool-cases (bytes_eq other name)) [
      | inl same ↦ ground (arith, e, same)
      | inr apart ↦ rw apart (records-count name parse rest (ground (arith, e, apart)))
    ]

-- What a block has of a kind is read from it, whatever is built in, if it is something.
pub records-lines_or_builtin {ℓ} :
    {A : Type ℓ} (name : Bytes) (parse : List Bytes → Option A) (builtin : Option Block)
    (block : Block) (xs : List A)
    → records name parse block ≡ xs
    → has_some xs ≡ true
    → records name parse (lines_or_builtin builtin block name) ≡ xs
unfolding lines_or_builtin
records-lines_or_builtin name parse none block xs e h = e
records-lines_or_builtin name parse (some builtin) block xs e h =
    elim (Bool-cases (count_directives block name == 0)) [
      | inl zero_lines ↦ cc (h, e, records-count name parse block zero_lines)
      | inr lines ↦ rw lines e
    ]
