-- ===== src/Utf8/Codepoint.antt =====
-- `util_put_codepoint`: its bytes fit and read back as the codepoint.
use g0wm.Common.{
  ℕ, suc, ◌+◌, ◌-◌, ◌*◌, ◌<◌, ◌≡◌, Bool, true, false, not, ◌&&◌, List, [], ◌∷◌, ◌==◌, leb, length,
  arith,
}
use g0wm.Utf8.{put_codepoint, sequence_length, continues}

-- What the bytes of one sequence stand for.
pub decode : List ℕ → ℕ
decode (a ∷ []) = a
decode (a ∷ b ∷ []) = (a - 0xC0) * 64 + (b - 0x80)
decode (a ∷ b ∷ c ∷ []) = (a - 0xE0) * 4096 + (b - 0x80) * 64 + (c - 0x80)
decode (a ∷ b ∷ c ∷ d ∷ []) = (a - 0xF0) * 262144 + (b - 0x80) * 4096 + (c - 0x80) * 64 + (d - 0x80)
decode _ = 0

-- One whole sequence.
pub is_sequence : List ℕ → Bool
is_sequence [] = false
is_sequence (byte ∷ src) = (sequence_length byte == suc (length src)) && continues (length src) src

-- The codepoints that UTF-8 has, but the NUL.
abbrev pub is_scalar : ℕ → Bool
is_scalar codepoint =
    not (codepoint == 0)
    && (not (leb 0xD800 codepoint && leb codepoint 0xDFFF) && leb codepoint 0x10FFFF)

-- What `util_put_codepoint` writes, if it writes anything, is one whole sequence that reads back as
-- the codepoint and leaves room for the NUL; it writes something for every codepoint but NUL, the
-- surrogates and what lies beyond U+10FFFF if the buffer has room for five bytes.
pub put_codepoint-decode :
    (capacity codepoint : ℕ)
    → ((length (put_codepoint capacity codepoint) == 0) ≡ false
        → (decode (put_codepoint capacity codepoint) ≡ codepoint)
          × (is_sequence (put_codepoint capacity codepoint) ≡ true)
          × (length (put_codepoint capacity codepoint) < capacity)
          × (is_scalar codepoint ≡ true))
      × (is_scalar codepoint ≡ true
          → 4 < capacity
          → (length (put_codepoint capacity codepoint) == 0) ≡ false)
unfolding put_codepoint decode is_sequence sequence_length continues
put_codepoint-decode capacity codepoint =
    (λ h. (ground arith, ground arith, ground arith, ground arith), λ h k. ground arith)
