-- ===== src/Utf8/Clean.antt =====
-- `notify_sanitize`: proofs on the turns of its loop.
use g0wm.Common.{
  ℕ, suc, zero, ◌+◌, ◌-◌, ◌≤◌, ◌<◌, ◌≡◌, refl, sym, ◌∙◌, ap, ◌⊎◌, inl, inr, Bool, true, false, not,
  ◌&&◌, List, [], ◌∷◌, ◌++◌, ◌==◌, leb, if◌then◌else◌, length, arith, Bool-cases,
}
use g0wm.Utf8.{sequence_length, is_continuation, continues, is_control, first, sanitize_from}

-- A string of whole sequences without control characters, of which `k` continuation bytes are due.
unfoldable pub is_clean : ℕ → List ℕ → Bool
is_clean zero [] = true
is_clean (suc k) [] = false
is_clean (suc k) (byte ∷ src) = is_continuation byte && is_clean k src
is_clean zero (byte ∷ src) =
    not (sequence_length byte == 0)
    && (not (is_control byte) && is_clean (sequence_length byte - 1) src)

-- Whole sequences put before a clean string.
is_clean-first :
    (k : ℕ) (src rest : List ℕ)
    → continues k src ≡ true
    → is_clean 0 rest ≡ true
    → is_clean k (first k src ++ rest) ≡ true
unfolding is_clean continues
is_clean-first zero src rest h c = c
is_clean-first (suc k) [] rest h c = cc
is_clean-first (suc k) (byte ∷ src) rest h c = ground (arith, is_clean-first k src rest)

length-first : (k : ℕ) (src rest : List ℕ) → length (first k src ++ rest) ≤ k + length rest
length-first zero src rest = omega arith
length-first (suc k) [] rest = omega arith
length-first (suc k) (byte ∷ src) rest = ground (arith, length-first k src rest)

-- What the loop writes for one whole sequence.
abbrev piece : ℕ → List ℕ → List ℕ
piece byte src = if is_control byte then 32 ∷ [] else first (sequence_length byte) (byte ∷ src)

lead-cases : (byte : ℕ) → (sequence_length byte ≡ 0) ⊎ ((j : ℕ) × (sequence_length byte ≡ suc j))
lead-cases byte = go (sequence_length byte)
  where
    go : (n : ℕ) → (n ≡ 0) ⊎ ((j : ℕ) × (n ≡ suc j))
    go zero = inl refl
    go (suc j) = inr (j, refl)

suc_ne : (j : ℕ) → (suc j == 0) ≡ false
suc_ne j = ground arith

pred_suc : (j : ℕ) → suc j - 1 ≡ j
pred_suc j = omega arith

is_clean-space : (rest : List ℕ) → is_clean 0 (32 ∷ rest) ≡ is_clean 0 rest
unfolding is_clean sequence_length
is_clean-space rest = refl

is_clean-lead :
    (byte j : ℕ) (xs : List ℕ)
    → sequence_length byte ≡ suc j
    → is_control byte ≡ false
    → is_clean 0 (byte ∷ xs) ≡ is_clean j xs
unfolding is_clean
is_clean-lead byte j xs e k = rw (is_clean, e, k, suc_ne j, pred_suc j) refl

is_clean-printable :
    (byte : ℕ) (src : List ℕ) → is_clean 0 (byte ∷ src) ≡ true → is_control byte ≡ false
unfolding is_clean
is_clean-printable byte src c = ground arith

no_lead :
    {A : Type 0} (byte : ℕ) (src : List ℕ)
    → sequence_length byte ≡ 0
    → is_clean 0 (byte ∷ src) ≡ true
    → A
unfolding is_clean
no_lead byte src e c = ground arith

continues-clean : (k : ℕ) (src : List ℕ) → is_clean k src ≡ true → continues k src ≡ true
unfolding is_clean continues
continues-clean zero src h = refl
continues-clean (suc k) [] h = cc
continues-clean (suc k) (byte ∷ src) h = ground (arith, continues-clean k src)

length-clean : (k : ℕ) (src : List ℕ) → is_clean k src ≡ true → k ≤ length src
unfolding is_clean
length-clean zero src h = omega arith
length-clean (suc k) [] h = ground arith
length-clean (suc k) (byte ∷ src) h = ground (arith, length-clean k src)

piece-clean :
    (byte j : ℕ) (src rest : List ℕ)
    → sequence_length byte ≡ suc j
    → continues j src ≡ true
    → is_clean 0 rest ≡ true
    → is_clean 0 (piece byte src ++ rest) ≡ true
piece-clean byte j src rest e h c = elim (Bool-cases (is_control byte)) [
  | inl k ↦ rw k (is_clean-space rest ∙ c)
  | inr k ↦
      rw (k, e) (is_clean-lead byte j (first j src ++ rest) e k ∙ is_clean-first j src rest h c)
]

length-piece :
    (byte j : ℕ) (src rest : List ℕ)
    → sequence_length byte ≡ suc j
    → length (piece byte src ++ rest) ≤ suc j + length rest
length-piece byte j src rest e = elim (Bool-cases (is_control byte)) [
  | inl k ↦ rw k (omega arith)
  | inr k ↦ rw (k, e) (ground (arith, length-first j src rest))
]

module _ (dstsz : ℕ) where
  turn-writes :
      (written byte j : ℕ) (src : List ℕ)
      → sequence_length byte ≡ suc j
      → continues j src ≡ true
      → written + suc j < dstsz
      → sanitize_from dstsz written 0 (byte ∷ src)
        ≡ piece byte src ++ sanitize_from dstsz (written + suc j) j src
  unfolding sanitize_from
  turn-writes written byte j src e c f =
      let room : leb dstsz (written + suc j) ≡ false = ground arith in
      rw (sanitize_from, e, suc_ne j, pred_suc j, c, e, room, e, pred_suc j) refl

  -- One turn of the loop at a lead byte.
  turn :
      (written byte : ℕ) (src : List ℕ)
      → (sanitize_from dstsz written 0 (byte ∷ src) ≡ sanitize_from dstsz written 0 src)
        ⊎ (sanitize_from dstsz written 0 (byte ∷ src) ≡ [])
        ⊎ ((j : ℕ) × (sequence_length byte ≡ suc j)
            × (continues j src ≡ true)
            × (written + suc j < dstsz)
            × (sanitize_from dstsz written 0 (byte ∷ src)
                ≡ piece byte src ++ sanitize_from dstsz (written + suc j) j src))
  unfolding sanitize_from
  turn written byte src = elim (lead-cases byte) [
    | inl e ↦ inl (rw (sanitize_from, e) refl)
    | inr (j, e) ↦ elim (Bool-cases (continues j src)) [
      | inr c ↦ inl (rw (sanitize_from, e, suc_ne j, pred_suc j, c) refl)
      | inl c ↦ elim (Bool-cases (leb dstsz (written + suc j))) [
        | inl f ↦ inr (inl (rw (sanitize_from, e, suc_ne j, pred_suc j, c, e, f) refl))
        | inr f ↦
            let fits : written + suc j < dstsz = ground arith in
            inr (inr (j, e, c, fits, turn-writes written byte j src e c fits))
      ]
    ]
  ]

  pub sanitize_from-clean :
      (written skip : ℕ) (src : List ℕ) → is_clean 0 (sanitize_from dstsz written skip src) ≡ true
  unfolding is_clean sanitize_from
  sanitize_from-clean written skip [] = refl
  sanitize_from-clean written (suc skip) (byte ∷ src) = sanitize_from-clean written skip src
  sanitize_from-clean written zero (byte ∷ src) = elim (turn written byte src) [
    | inl e ↦ rw e (sanitize_from-clean written 0 src)
    | inr (inl e) ↦ rw e refl
    | inr (inr (j, e, c, f, eq)) ↦
        rw eq (piece-clean byte j src _ e c (sanitize_from-clean (written + suc j) j src))
  ]

  pub sanitize_from-length :
      (written skip : ℕ) (src : List ℕ)
      → written < dstsz
      → written + length (sanitize_from dstsz written skip src) < dstsz
  unfolding sanitize_from
  sanitize_from-length written skip [] h = omega arith
  sanitize_from-length written (suc skip) (byte ∷ src) h = sanitize_from-length written skip src h
  sanitize_from-length written zero (byte ∷ src) h = elim (turn written byte src) [
    | inl e ↦ rw e (sanitize_from-length written 0 src h)
    | inr (inl e) ↦ rw e (omega arith)
    | inr (inr (j, e, c, f, eq)) ↦
        let rest = sanitize_from dstsz (written + suc j) j src in
        let ih = sanitize_from-length (written + suc j) j src f in
        let le = length-piece byte j src rest e in rw eq (omega arith)
  ]

  -- A clean string that fits is not changed.
  pub sanitize_from-same :
      (written skip : ℕ) (src : List ℕ)
      → is_clean skip src ≡ true
      → written + length src < dstsz + skip
      → first skip src ++ sanitize_from dstsz written skip src ≡ src
  unfolding sanitize_from is_clean
  sanitize_from-same written zero [] c h = refl
  sanitize_from-same written (suc skip) [] c h = refl
  sanitize_from-same written (suc skip) (byte ∷ src) c h =
      ap (◌∷◌ byte) (sanitize_from-same written skip src (ground arith) (omega arith))
  sanitize_from-same written zero (byte ∷ src) c h = elim (lead-cases byte) [
    | inl e ↦ no_lead byte src e c
    | inr (j, e) ↦
        let printable : is_control byte ≡ false = is_clean-printable byte src c in
        let due : is_clean j src ≡ true = sym (is_clean-lead byte j src e printable) ∙ c in
        let whole = continues-clean j src due in
        let fits = length-clean j src due in
        turn-writes written byte j src e whole (omega arith)
        ∙ rw (printable, e)
            (ap (◌∷◌ byte) (sanitize_from-same (written + suc j) j src due (omega arith)))
  ]
