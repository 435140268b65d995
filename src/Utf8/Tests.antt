-- ===== src/Utf8/Tests.antt =====
-- The theorems on UTF-8 at concrete strings.
use g0wm.Common.{ℕ, ◌<◌, ◌≡◌, refl, true, false, List, [], ◌∷◌, ◌==◌, length, arith}
use g0wm.Utf8.{put_codepoint, sanitize}
use g0wm.Utf8.Text.{is_text, sanitize-is_text, sanitize-same}
use g0wm.Utf8.Codepoint.{decode, is_sequence, is_scalar, put_codepoint-decode}

put_codepoint-decode_example :
    ((length (put_codepoint 8 8364) == 0) ≡ false
      → (decode (put_codepoint 8 8364) ≡ 8364)
        × (is_sequence (put_codepoint 8 8364) ≡ true)
        × (length (put_codepoint 8 8364) < 8)
        × (is_scalar 8364 ≡ true))
    × (is_scalar 8364 ≡ true → 4 < 8 → (length (put_codepoint 8 8364) == 0) ≡ false)
put_codepoint-decode_example = put_codepoint-decode 8 8364

-- "a", a line feed, a lead byte cut short, "é".
abbrev from_bus : List ℕ
from_bus = 97 ∷ 10 ∷ 226 ∷ 195 ∷ 169 ∷ []

sanitize-is_text_example :
    (length (sanitize 8 from_bus) < 8) × (is_text 0 (sanitize 8 from_bus) ≡ true)
sanitize-is_text_example = sanitize-is_text 7 from_bus

-- "aé€".
abbrev a_text : List ℕ
a_text = 97 ∷ 195 ∷ 169 ∷ 226 ∷ 130 ∷ 172 ∷ []

sanitize-same_example :
    (sanitize 8 a_text ≡ a_text) × (sanitize 8 (sanitize 8 from_bus) ≡ sanitize 8 from_bus)
sanitize-same_example = sanitize-same 7 a_text from_bus refl (omega arith)
