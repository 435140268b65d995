-- ===== src/Utf8/Text.antt =====
-- `notify_sanitize`: what its result is, and that it leaves alone what needs no change.
use mathlib.Core.Path.{subst}
use g0wm.Common.{
  ℕ, suc, zero, ◌-◌, ◌≤◌, ◌<◌, ◌≡◌, refl, ◌∙◌, ◌⊎◌, inl, inr, Bool, true, false, not, ◌&&◌, Option,
  none, some, List, [], ◌∷◌, ◌==◌, leb, if◌then◌else◌, length, arith,
}
use g0wm.Utf8.{sequence_length, is_control, sanitize_from, sanitize}
use g0wm.Utf8.Clean.{is_clean, sanitize_from-clean, sanitize_from-length, sanitize_from-same}

-- A byte from one to another.
abbrev between : ℕ → ℕ → ℕ → Bool
between low high byte = leb low byte && leb byte high

-- How many bytes 80 to BF are to follow a byte: a printable byte of ASCII stands alone.
abbrev pub announced : ℕ → Option ℕ
announced byte =
    if between 0x20 0x7E byte
    then some 0
    else if between 0xC2 0xDF byte
    then some 1
    else if between 0xE0 0xEF byte
    then some 2
    else if between 0xF0 0xF4 byte
    then some 3
    else none

-- A string of such sequences, of which `k` bytes are due.
abbrev pub is_text : ℕ → List ℕ → Bool
is_text zero [] = true
is_text (suc k) [] = false
is_text (suc k) (byte ∷ src) = between 0x80 0xBF byte && is_text k src
is_text zero (byte ∷ src) = elim (announced byte) [ none ↦ false | some k ↦ is_text k src ]

-- Well-formed UTF-8 as in Unicode's table, without control bytes of ASCII: how many bytes follow the
-- first one, and between which two the second one is.
abbrev pub table_row : ℕ → Option (ℕ × ℕ × ℕ)
table_row byte =
    if between 0x20 0x7E byte
    then some (0, 0x80, 0xBF)
    else if between 0xC2 0xDF byte
    then some (1, 0x80, 0xBF)
    else if byte == 0xE0
    then some (2, 0xA0, 0xBF)
    else if byte == 0xED
    then some (2, 0x80, 0x9F)
    else if between 0xE1 0xEF byte
    then some (2, 0x80, 0xBF)
    else if byte == 0xF0
    then some (3, 0x90, 0xBF)
    else if between 0xF1 0xF3 byte
    then some (3, 0x80, 0xBF)
    else if byte == 0xF4
    then some (3, 0x80, 0x8F)
    else none

abbrev is_well_formed : ℕ → ℕ → ℕ → List ℕ → Bool
is_well_formed zero low high [] = true
is_well_formed (suc k) low high [] = false
is_well_formed (suc k) low high (byte ∷ src) =
    between low high byte && is_well_formed k 0x80 0xBF src
is_well_formed zero low high (byte ∷ src) = elim (table_row byte) [
  | none ↦ false
  | some (k, first_low, first_high) ↦ is_well_formed k first_low first_high src
]

abbrev pub is_unicode : List ℕ → Bool
is_unicode src = is_well_formed 0 0x80 0xBF src

announced-cases :
    (byte : ℕ)
    → ((announced byte ≡ none)
        × ((not (sequence_length byte == 0) && not (is_control byte)) ≡ false))
      ⊎ ((announced byte ≡ some (sequence_length byte - 1))
          × ((sequence_length byte == 0) ≡ false)
          × (is_control byte ≡ false))
unfolding sequence_length
announced-cases byte = ground arith

pub is_text_clean : (k : ℕ) (src : List ℕ) → is_text k src ≡ is_clean k src
unfolding is_clean
is_text_clean zero [] = refl
is_text_clean (suc k) [] = refl
is_text_clean (suc k) (byte ∷ src) = ground (arith, is_text_clean k src)
is_text_clean zero (byte ∷ src) = elim (announced-cases byte) [
  | inl (e, f) ↦ rw (is_text, e) (ground (arith, f))
  | inr (e, f, g) ↦ rw (is_text, e, f, g) (is_text_clean (sequence_length byte - 1) src)
]

abbrev low_of : ℕ → ℕ
low_of byte = if byte == 0xE0 then 0xA0 else if byte == 0xF0 then 0x90 else 0x80

abbrev high_of : ℕ → ℕ
high_of byte = if byte == 0xED then 0x9F else if byte == 0xF4 then 0x8F else 0xBF

table_row-cases :
    (byte : ℕ)
    → (table_row byte ≡ none)
      ⊎ ((table_row byte ≡ some (sequence_length byte - 1, low_of byte, high_of byte))
          × ((sequence_length byte == 0) ≡ false)
          × (is_control byte ≡ false))
unfolding sequence_length
table_row-cases byte = ground arith

low_of-le : (byte : ℕ) → 0x80 ≤ low_of byte
low_of-le byte = ground arith

high_of-le : (byte : ℕ) → high_of byte ≤ 0xBF
high_of-le byte = ground arith

well_formed-clean :
    (k low high : ℕ) (src : List ℕ)
    → 0x80 ≤ low
    → high ≤ 0xBF
    → is_well_formed k low high src ≡ true
    → is_clean k src ≡ true
unfolding is_clean
well_formed-clean zero low high [] l h w = refl
well_formed-clean (suc k) low high [] l h w = w
well_formed-clean (suc k) low high (byte ∷ src) l h w =
    let later = well_formed-clean k 0x80 0xBF src (omega arith) (omega arith) (ground (arith, w)) in
    ground (arith, w, later, l, h)
well_formed-clean zero low high (byte ∷ src) l h w = elim (table_row-cases byte) [
  | inl e ↦
      let wrong : false ≡ true =
        subst
          (λ o.
            elim o as (λ _. Bool) [ none ↦ false | some (k, a, b) ↦ is_well_formed k a b src ]
            ≡ true)
          e w in
      absurd (ground (arith, wrong))
  | inr (e, f, g) ↦
      let rest : is_well_formed (sequence_length byte - 1) (low_of byte) (high_of byte) src ≡ true =
        subst
          (λ o.
            elim o as (λ _. Bool) [ none ↦ false | some (k, x, y) ↦ is_well_formed k x y src ]
            ≡ true)
          e w in
      rw (f, g)
        (well_formed-clean (sequence_length byte - 1) (low_of byte) (high_of byte) src
          (low_of-le byte) (high_of-le byte) rest)
]

-- Whatever comes from the bus, `notify_sanitize` leaves room for the NUL, if the buffer has any room, and
-- writes whole sequences: printable bytes of ASCII, and bytes 0xc2 to 0xf4 each with as many bytes 0x80
-- to 0xbf behind it as it announces. No control byte of ASCII is left; the second byte of a sequence is
-- not looked at more closely, so that the control characters from U+0080 to U+009F are written too.
pub sanitize-is_text :
    (n : ℕ) (src : List ℕ)
    → (length (sanitize (suc n) src) < suc n) × (is_text 0 (sanitize (suc n) src) ≡ true)
unfolding sanitize
sanitize-is_text n src =
    let fits = sanitize_from-length (suc n) 0 0 src (omega arith) in
    (
      omega arith,
      is_text_clean 0 (sanitize_from (suc n) 0 0 src) ∙ sanitize_from-clean (suc n) 0 0 src,
    )

-- A text of well-formed UTF-8 as Unicode has it, without control bytes of ASCII, that fits comes through
-- `notify_sanitize` as it is; and on any text a second pass changes nothing.
pub sanitize-same :
    (n : ℕ) (src any : List ℕ)
    → is_unicode src ≡ true
    → length src < suc n
    → (sanitize (suc n) src ≡ src)
      × (sanitize (suc n) (sanitize (suc n) any) ≡ sanitize (suc n) any)
unfolding sanitize
sanitize-same n src any w h =
    let fits = sanitize_from-length (suc n) 0 0 any (omega arith) in
    (
      sanitize_from-same (suc n) 0 0 src
          (well_formed-clean 0 0x80 0xBF src (omega arith) (omega arith) w) (omega arith),
      sanitize_from-same (suc n) 0 0 (sanitize (suc n) any) (sanitize_from-clean (suc n) 0 0 any)
          (omega arith),
    )
