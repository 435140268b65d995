-- ===== src/Apps/Offers.antt =====
-- src/desktop/runner/apps.c: proofs on the values that are offered as a name.
use mathlib.Core.Path.{subst}
use g0wm.Common.{
  ℕ, ◌≤◌, ◌<◌, ◌⊎◌, ◌≡◌, refl, sym, ap, ◌∙◌, inl, inr, Bool, false, not, ◌||◌, Option, none, some,
  List, [], ◌∷◌, ◌==◌, ltb, if◌then◌else◌, Bytes, bytes_eq, arith, Bool-cases, Option-cases,
}
use g0wm.Settings.Types.{lit}
use g0wm.Apps.NameKeys.{four_ranks}
use g0wm.Apps.Desktop.{Locale, name_rank, key_value, starts_with}

-- The lines of the group [Desktop Entry].
abbrev pub in_entry : Bool → List Bytes → List Bytes
in_entry group [] = []
in_entry group (line ∷ lines) =
    let header = starts_with 91 line in
    let next = if header then bytes_eq line (lit "[Desktop Entry]") else group in
    let rest = in_entry next lines in if header || not group then rest else line ∷ rest

-- The values that are offered as a name, each with the rank of its key.
abbrev pub offers : Locale → List Bytes → List (ℕ × Bytes)
offers e [] = []
offers e (line ∷ lines) =
    let rest = offers e lines in
    elim (key_value line) [
      | none ↦ rest
      | some (key, value) ↦ if name_rank e key == 0 then rest else (name_rank e key, value) ∷ rest
    ]

abbrev pub highest : List (ℕ × Bytes) → ℕ
highest [] = 0
highest ((rank, value) ∷ others) = let h = highest others in if ltb h rank then rank else h

-- The first value of a rank.
abbrev pub first_of : ℕ → List (ℕ × Bytes) → Option Bytes
first_of r [] = none
first_of r ((rank, value) ∷ others) =
    let later = first_of r others in if rank == r then some value else later

-- The first one that is set.
abbrev pub first_set : Option Bytes → Option Bytes → Option Bytes
first_set none b = b
first_set (some a) b = some a

-- What is offered has a rank.
pub offers-ranked : (e : Locale) (lines : List Bytes) → first_of 0 (offers e lines) ≡ none
offers-ranked e [] = refl
offers-ranked e (line ∷ lines) = elim (Option-cases (key_value line)) [
  | inl k ↦ rw (offers, k) (offers-ranked e lines)
  | inr ((key, value), k) ↦ elim (Bool-cases (name_rank e key == 0)) [
    | inl z ↦ rw (offers, k, z) (offers-ranked e lines)
    | inr z ↦ rw (offers, k, z) (rw z (offers-ranked e lines))
  ]
]

pub ranked :
    (o : List (ℕ × Bytes))
    → first_of 0 o ≡ none
    → (if ltb 0 (highest o) then first_of (highest o) o else none) ≡ first_of (highest o) o
ranked o h = elim (Bool-cases (ltb 0 (highest o))) [
  | inl p ↦ rw p refl
  | inr p ↦ let nothing : highest o ≡ 0 = ground (arith, p) in rw (nothing, h) refl
]

-- The first value behind a key of a kind.
abbrev pub value_of : (Bytes → Bool) → List Bytes → Option Bytes
value_of is_key [] = none
value_of is_key (line ∷ lines) =
    let later = value_of is_key lines in
    elim (key_value line) [
      | none ↦ later
      | some (key, value) ↦ if is_key key then some value else later
    ]

-- The values of a rank are those behind the keys of a kind.
pub first_of-value_of :
    (e : Locale) (rank : ℕ) (is_key : Bytes → Bool) (lines : List Bytes)
    → (rank == 0) ≡ false
    → ((key : Bytes) → (name_rank e key == rank) ≡ is_key key)
    → first_of rank (offers e lines) ≡ value_of is_key lines
first_of-value_of e rank is_key [] z h = refl
first_of-value_of e rank is_key (line ∷ lines) z h = elim (Option-cases (key_value line)) [
  | inl k ↦ rw (offers, value_of, k) (first_of-value_of e rank is_key lines z h)
  | inr ((key, value), k) ↦
      let ih = first_of-value_of e rank is_key lines z h in
      elim (Bool-cases (name_rank e key == 0)) [
        | inl n ↦
            let other : is_key key ≡ false = sym (h key) ∙ ground (arith, n, z) in
            rw (offers, value_of, k, n, other) ih
        | inr n ↦ rw (offers, value_of, k, n, ← h key, ih) refl
      ]
]

pub first_above : (r : ℕ) (o : List (ℕ × Bytes)) → highest o < r → first_of r o ≡ none
first_above r [] h = refl
first_above r ((rank, value) ∷ o) h = ground (arith, first_above r o)

first_highest :
    (o : List (ℕ × Bytes)) → (highest o ≡ 0) ⊎ ((v : Bytes) × (first_of (highest o) o ≡ some v))
first_highest [] = inl refl
first_highest ((rank, value) ∷ o) = elim (Bool-cases (ltb (highest o) rank)) [
  | inl e ↦ inr (value, rw e (ground arith))
  | inr e ↦ elim (Bool-cases (rank == highest o)) [
    | inl same ↦ inr (value, rw e (rw same refl))
    | inr other ↦ elim (first_highest o) [
      | inl z ↦ inl (rw e z)
      | inr (v, f) ↦
          let same : highest ((rank, value) ∷ o) ≡ highest o = rw e refl in
          inr (v, subst (λ r. first_of r ((rank, value) ∷ o) ≡ some v) (sym same) (rw other f))
    ]
  ]
]

pub first_some :
    (o : List (ℕ × Bytes))
    → (highest o == 0) ≡ false
    → (v : Bytes) × (first_of (highest o) o ≡ some v)
first_some o z = elim (first_highest o) [ inl e ↦ absurd (ground (arith, z, e)) | inr f ↦ f ]

-- The best of three ranks.
pub best_of :
    (o : List (ℕ × Bytes))
    → first_of 0 o ≡ none
    → highest o ≤ 3
    → first_of (highest o) o ≡ first_set (first_of 3 o) (first_set (first_of 2 o) (first_of 1 o))
best_of o n h = elim (Bool-cases (highest o == 0)) [
  | inl z ↦
      let e : highest o ≡ 0 = ground (arith, z) in
      rw
        (
          e,
          n,
          first_above 3 o (omega arith),
          first_above 2 o (omega arith),
          first_above 1 o (omega arith),
        )
        refl
  | inr z ↦
      let (v, f) = first_some o z in
      elim (Bool-cases (highest o == 3)) [
        | inl d ↦
            let e : highest o ≡ 3 = ground (arith, d) in
            let g : first_of 3 o ≡ some v = ap (λ r. first_of r o) (sym e) ∙ f in rw (e, g) refl
        | inr d ↦
            let three : first_of 3 o ≡ none = first_above 3 o (ground (arith, d, h)) in
            elim (Bool-cases (highest o == 2)) [
              | inl d' ↦
                  let e : highest o ≡ 2 = ground (arith, d') in
                  let g : first_of 2 o ≡ some v = ap (λ r. first_of r o) (sym e) ∙ f in
                  rw (e, three, g) refl
              | inr d' ↦
                  let e : highest o ≡ 1 = ground (arith, z, d, d', h) in
                  rw (e, three, first_above 2 o (omega arith)) refl
            ]
      ]
]

pub offers-le : (e : Locale) (lines : List Bytes) → highest (offers e lines) ≤ 3
offers-le e [] = omega arith
offers-le e (line ∷ lines) = elim (Option-cases (key_value line)) [
  | inl k ↦ rw (offers, k) (offers-le e lines)
  | inr ((key, value), k) ↦
      let le = four_ranks e key in
      let ih = offers-le e lines in
      elim (Bool-cases (name_rank e key == 0)) [
        | inl z ↦ rw (offers, k, z) ih
        | inr z ↦ rw (offers, k, z) (ground (arith, le, ih))
      ]
]
