-- ===== src/Search/Bounds.antt =====
-- The address of a search fits in the memory that is allocated for it and quotes what it must.
mod Tests
use g0wm.Common.{
  ℕ, suc, zero, ◌+◌, ◌*◌, ◌/◌, ◌%◌, ◌≤◌, ◌<◌, ◌≡◌, refl, ap, Bool, true, false, ◌&&◌, ◌||◌, ◌⊎◌,
  inl, inr, Option, none, some, List, [], ◌∷◌, ◌++◌, ◌==◌, leb, ltb, length, length-append,
  if◌then◌else◌, arith, Bool-cases, Option-cases,
}
use g0wm.Search.{
  is_unreserved, hex_digit, encode_byte, encode, split_placeholder, search_address,
  starts_with_placeholder, skip_two, with_byte,
}

-- Only bytes that an address may hold unquoted, and the sign of a quotation.
abbrev pub all_safe : List ℕ → Bool
all_safe [] = true
all_safe (c ∷ cs) = (is_unreserved c || (c == 37)) && all_safe cs

-- Bytes, not larger numbers.
abbrev pub AreBytes : List ℕ → Type 0
AreBytes [] = Unit {0}
AreBytes (c ∷ cs) = (c < 256) × AreBytes cs

length-encode : (query : List ℕ) → length (encode query) ≤ 3 * length query
unfolding encode
length-encode [] = omega arith
length-encode (c ∷ query) = elim (Bool-cases (is_unreserved c)) [
  | inl e ↦ let ih = length-encode query in rw e (omega arith)
  | inr e ↦ let ih = length-encode query in rw e (omega arith)
]

hex_digit-safe : (d : ℕ) → d < 16 → is_unreserved (hex_digit d) ≡ true
hex_digit-safe d h = ground arith

encode-all_safe : (query : List ℕ) → AreBytes query → all_safe (encode query) ≡ true
unfolding encode
encode-all_safe [] h = refl
encode-all_safe (c ∷ query) h = elim (Bool-cases (is_unreserved c)) [
  | inl e ↦ let ih = encode-all_safe query h.1 in rw e (rw e ih)
  | inr e ↦
      let ih = encode-all_safe query h.1 in
      let high = hex_digit-safe (c / 16) (ground arith) in
      let low = hex_digit-safe (c % 16) (ground arith) in rw e (rw (high, low) ih)
]

-- The address as the split has it.
abbrev IsSplit : List ℕ → Option (List ℕ × List ℕ) → Type 0
IsSplit url none = Unit {0}
IsSplit url (some (before, behind)) = url ≡ before ++ 37 ∷ 115 ∷ behind

with_byte-IsSplit :
    (c : ℕ) (url : List ℕ) (o : Option (List ℕ × List ℕ))
    → IsSplit url o
    → IsSplit (c ∷ url) (with_byte c o)
with_byte-IsSplit c url none h = tt
with_byte-IsSplit c url (some (before, behind)) h = ap (◌∷◌ c) h

split_placeholder-IsSplit : (url : List ℕ) → IsSplit url (split_placeholder url)
unfolding split_placeholder
split_placeholder-IsSplit [] = tt
split_placeholder-IsSplit (c ∷ []) = tt
split_placeholder-IsSplit (a ∷ b ∷ url) = elim (Bool-cases ((a == 37) && (b == 115))) [
  | inl e ↦ rw e (ground arith)
  | inr e ↦ rw e (
      with_byte-IsSplit a (b ∷ url) (split_placeholder (b ∷ url))
        (split_placeholder-IsSplit (b ∷ url)))
]

-- The memory that `runner_search` allocates, three bytes for each of the query's and the address with
-- its NUL, is enough; and what it puts in for the query holds only bytes that an address may hold
-- unquoted and the sign of a quotation, if the query is made of bytes.
pub search_address-fits :
    (url query : List ℕ)
    → AreBytes query
    → (length (search_address url query) < length url + 3 * length query + 1)
      × (all_safe (encode query) ≡ true)
unfolding search_address
search_address-fits url query h =
    (go (split_placeholder url) (split_placeholder-IsSplit url), encode-all_safe query h)
  where
    go :
        (o : Option (List ℕ × List ℕ))
        → IsSplit url o
        → length (elim o as (λ _. List ℕ) [
          | none ↦ url ++ encode query
          | some (before, behind) ↦ before ++ (encode query ++ behind)
        ])
          < length url + 3 * length query + 1
    go none _ =
        let le = length-encode query in let total = length-append url (encode query) in omega arith
    go (some (before, behind)) e =
        let le = length-encode query in
        let outer = length-append before (encode query ++ behind) in
        let inner = length-append (encode query) behind in
        let whole = length-append before (37 ∷ 115 ∷ behind) in
        let same : length url ≡ length (before ++ 37 ∷ 115 ∷ behind) = ap length e in omega arith
