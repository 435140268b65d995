-- ===== src/Settings/Bindings/Records.antt =====
-- src/core/settings/: proofs on the directives of one name, written and read back.
use mathlib.Core.List.{append-nil}
use g0wm.Common.{
  ◌≡◌, refl, ap, ◌∙◌, false, Option, none, some, List, [], ◌∷◌, ◌++◌, Bytes, bytes_eq,
  bytes_eq_refl,
}
use g0wm.Settings.Types.{Block, nothing, directive}
use g0wm.Settings.Bindings.{records, write_records, Bindings}

-- An element that is written and read back as itself.
abbrev pub Returns {ℓ} :
    {A : Type ℓ} → (A → Option (List Bytes)) → (List Bytes → Option A) → A → Type ℓ
Returns print parse a = (params : List Bytes) × (print a ≡ some params) × (parse params ≡ some a)

abbrev pub AllReturn {ℓ} :
    {A : Type ℓ} → (A → Option (List Bytes)) → (List Bytes → Option A) → List A → Type ℓ
AllReturn print parse [] = Unit
AllReturn print parse (a ∷ xs) = Returns print parse a × AllReturn print parse xs

abbrev pub AllWritables {ℓ ℓ'} : {A : Type ℓ} → (A → Type ℓ') → List A → Type ℓ'
AllWritables P [] = Unit
AllWritables P (a ∷ xs) = P a × AllWritables P xs

pub all_return {ℓ ℓ'} :
    {A : Type ℓ} {P : A → Type ℓ'} (print : A → Option (List Bytes)) (parse : List Bytes → Option A)
    (xs : List A)
    → ((a : A) → P a → Returns print parse a)
    → AllWritables P xs
    → AllReturn print parse xs
all_return print parse [] f h = tt
all_return print parse (a ∷ xs) f h = (f a h.0, all_return print parse xs f h.1)

records-write_records {ℓ} :
    {A : Type ℓ} (name : Bytes) (print : A → Option (List Bytes)) (parse : List Bytes → Option A)
    (xs : List A) (rest : Block)
    → AllReturn print parse xs
    → records name parse (write_records name print xs rest) ≡ xs ++ records name parse rest
unfolding records write_records
records-write_records name print parse [] rest h = refl
records-write_records name print parse (a ∷ xs) rest ((params, e, f), h) =
    rw (write_records, e, records, bytes_eq_refl name, f)
      (ap (λ l. a ∷ l) (records-write_records name print parse xs rest h))

pub records-passed {ℓ ℓ'} :
    {A : Type ℓ} {B : Type ℓ'} (name other : Bytes) (print : B → Option (List Bytes))
    (parse : List Bytes → Option A) (xs : List B) (rest : Block)
    → bytes_eq other name ≡ false
    → records name parse (write_records other print xs rest) ≡ records name parse rest
unfolding records write_records
records-passed name other print parse [] rest h = refl
records-passed name other print parse (b ∷ xs) rest h =
    go (print b) (records-passed name other print parse xs rest h)
  where
    go :
        (printed : Option (List Bytes))
        → records name parse (write_records other print xs rest) ≡ records name parse rest
        → records name parse (elim printed as (λ _. Block) [
          | none ↦ write_records other print xs rest
          | some params ↦ directive other params nothing (write_records other print xs rest)
        ])
          ≡ records name parse rest
    go none e = e
    go (some params) e = rw h e

pub read_back {ℓ} :
    {A : Type ℓ} (name : Bytes) (print : A → Option (List Bytes)) (parse : List Bytes → Option A)
    (xs : List A) (rest : Block)
    → AllReturn print parse xs
    → records name parse rest ≡ []
    → records name parse (write_records name print xs rest) ≡ xs
read_back name print parse xs rest h e =
    records-write_records name print parse xs rest h ∙ rw e (append-nil xs)

pub passed {ℓ ℓ'} :
    {A : Type ℓ} {B : Type ℓ'} (name other : Bytes) (print : B → Option (List Bytes))
    (parse : List Bytes → Option A) (xs : List B) (rest : Block)
    → bytes_eq other name ≡ false
    → records name parse rest ≡ []
    → records name parse (write_records other print xs rest) ≡ []
passed name other print parse xs rest h e = records-passed name other print parse xs rest h ∙ e

pub same_bindings :
    {D : Type 0} {a b : Bindings D}
    → a.keys ≡ b.keys
    → a.buttons ≡ b.buttons
    → a.gestures ≡ b.gestures
    → a.pad_buttons ≡ b.pad_buttons
    → a ≡ b
same_bindings e f g h = λ i. record { keys = e i; buttons = f i; gestures = g i; pad_buttons = h i }
