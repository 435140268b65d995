-- ===== src/Search.antt =====
-- src/desktop/runner/runner.c: the address of a web search.
pub mod Bounds
use g0wm.Common.{
  ℕ, suc, zero, ◌+◌, ◌/◌, ◌%◌, Bool, true, false, ◌&&◌, ◌||◌, Option, none, some, List, [], ◌∷◌,
  ◌++◌, ◌==◌, leb, ltb, if◌then◌else◌,
}

-- `isalnum` in the C locale, or one of "-_.~".
abbrev pub is_unreserved : ℕ → Bool
is_unreserved c =
    (leb 48 c && leb c 57)
    || ((leb 65 c && leb c 90)
        || ((leb 97 c && leb c 122) || ((c == 45) || ((c == 95) || ((c == 46) || (c == 126))))))

-- A digit of `%02X`.
abbrev pub hex_digit : ℕ → ℕ
hex_digit d = if ltb d 10 then 48 + d else 55 + d

abbrev pub encode_byte : ℕ → List ℕ
encode_byte c =
    if is_unreserved c then c ∷ [] else 37 ∷ hex_digit (c / 16) ∷ hex_digit (c % 16) ∷ []

pub encode : List ℕ → List ℕ
encode [] = []
encode (c ∷ query) = encode_byte c ++ encode query

abbrev pub starts_with_placeholder : List ℕ → Bool
starts_with_placeholder (a ∷ b ∷ url) = (a == 37) && (b == 115)
starts_with_placeholder _ = false

abbrev pub skip_two : List ℕ → List ℕ
skip_two (a ∷ b ∷ url) = url
skip_two _ = []

abbrev pub with_byte : ℕ → Option (List ℕ × List ℕ) → Option (List ℕ × List ℕ)
with_byte c none = none
with_byte c (some (before, behind)) = some (c ∷ before, behind)

-- `strstr(url, "%s")`: what is before it and what is behind it.
pub split_placeholder : List ℕ → Option (List ℕ × List ℕ)
split_placeholder [] = none
split_placeholder (c ∷ url) =
    let further = with_byte c (split_placeholder url) in
    if starts_with_placeholder (c ∷ url) then some ([], skip_two (c ∷ url)) else further

-- `result` of `runner_search`.
pub search_address : List ℕ → List ℕ → List ℕ
search_address url query = elim (split_placeholder url) [
  | none ↦ url ++ encode query
  | some (before, behind) ↦ before ++ (encode query ++ behind)
]
