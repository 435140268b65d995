-- ===== src/Utf8.antt =====
-- src/core/util.c and src/desktop/notify/message.c: the UTF-8 that the compositor writes and lets
-- in. A string is the list of its bytes before the NUL.
pub mod Codepoint
pub mod Clean
pub mod Text
mod Tests
use g0wm.Common.{
  ℕ, suc, zero, ◌+◌, ◌-◌, ◌/◌, ◌%◌, Bool, true, false, not, ◌&&◌, ◌||◌, List, [], ◌∷◌, ◌++◌, ◌==◌,
  ltb, leb, if◌then◌else◌,
}

-- `util_put_codepoint`: the bytes written, none if it returns 0. `|` is `+` where the bits do not
-- overlap.
unfoldable pub put_codepoint : ℕ → ℕ → List ℕ
put_codepoint capacity codepoint =
    if (codepoint == 0) || (leb 0xD800 codepoint && leb codepoint 0xDFFF) || ltb 0x10FFFF codepoint
    then []
    else if ltb codepoint 0x80 && ltb 1 capacity
    then codepoint ∷ []
    else if ltb codepoint 0x800 && ltb 2 capacity
    then (0xC0 + codepoint / 64) ∷ (0x80 + codepoint % 64) ∷ []
    else if ltb codepoint 0x10000 && ltb 3 capacity
    then (0xE0 + codepoint / 4096) ∷ (0x80 + (codepoint / 64) % 64) ∷ (0x80 + codepoint % 64) ∷ []
    else if leb 0x10000 codepoint && ltb 4 capacity
    then (0xF0 + codepoint / 262144)
      ∷ (0x80 + (codepoint / 4096) % 64)
      ∷ (0x80 + (codepoint / 64) % 64)
      ∷ (0x80 + codepoint % 64)
      ∷ []
    else []

-- `sequence_length` as the lead byte has it; 0 for a byte that leads nothing.
unfoldable pub sequence_length : ℕ → ℕ
sequence_length byte =
    if ltb byte 0x80
    then 1
    else if ltb byte 0xC2
    then 0
    else if ltb byte 0xE0
    then 2
    else if ltb byte 0xF0
    then 3
    else if ltb byte 0xF5
    then 4
    else 0

abbrev pub is_continuation : ℕ → Bool
is_continuation byte = leb 0x80 byte && ltb byte 0xC0

-- Whether the string goes on with that many continuation bytes.
unfoldable pub continues : ℕ → List ℕ → Bool
continues zero src = true
continues (suc k) [] = false
continues (suc k) (byte ∷ src) = is_continuation byte && continues k src

abbrev pub is_control : ℕ → Bool
is_control byte = ltb byte 32 || (byte == 127)

abbrev pub first : ℕ → List ℕ → List ℕ
first zero src = []
first (suc k) [] = []
first (suc k) (byte ∷ src) = byte ∷ first k src

-- The loop of `notify_sanitize` with `written` bytes in `dst`; `skip` bytes of `src` have been dealt
-- with already.
pub sanitize_from : ℕ → ℕ → ℕ → List ℕ → List ℕ
sanitize_from dstsz written skip [] = []
sanitize_from dstsz written (suc skip) (byte ∷ src) = sanitize_from dstsz written skip src
sanitize_from dstsz written zero (byte ∷ src) =
    elim ((sequence_length byte == 0) || not (continues (sequence_length byte - 1) src)) [
      | true ↦ sanitize_from dstsz written 0 src
      | false ↦ elim (leb dstsz (written + sequence_length byte)) [
        | true ↦ []
        | false ↦
            (if is_control byte then 32 ∷ [] else first (sequence_length byte) (byte ∷ src))
            ++ sanitize_from dstsz (written + sequence_length byte) (sequence_length byte - 1) src
      ]
    ]

-- `notify_sanitize` into a buffer of `dstsz` bytes.
pub sanitize : ℕ → List ℕ → List ℕ
sanitize zero src = []
sanitize (suc n) src = sanitize_from (suc n) 0 0 src
