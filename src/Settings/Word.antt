-- ===== src/Settings/Word.antt =====
-- src/core/settings/write.c: a word as it is written, and as libscfg reads it.
use g0wm.Common.{
  ℕ, ◌≡◌, refl, ap, inl, inr, Bool, true, false, not, ◌&&◌, ◌||◌, Option, none, some, List, [], ◌∷◌,
  ◌++◌, ◌==◌, if◌then◌else◌, Bytes, is_empty, mem, arith, Bool-cases,
}
use g0wm.Settings.Types.{Numbers}

-- `strpbrk(text, " \t\"'\\{}")`
abbrev pub is_special : ℕ → Bool
is_special c = mem c (32 ∷ 9 ∷ 34 ∷ 39 ∷ 92 ∷ 123 ∷ 125 ∷ [])

abbrev pub has_special : Bytes → Bool
has_special [] = false
has_special (c ∷ text) = is_special c || has_special text

-- The text with a backslash in front of each quote and each backslash.
abbrev pub escaped : Bytes → Bytes
escaped [] = []
escaped (c ∷ text) =
    let rest = escaped text in if (c == 34) || (c == 92) then 92 ∷ c ∷ rest else c ∷ rest

-- `settings_put_word` behind the blank.
unfoldable pub put_word : Bytes → Bytes
put_word text =
    if not (is_empty text) && not (has_special text) then text else 34 ∷ escaped text ++ 34 ∷ []

-- The word that libscfg makes of a word that is written.
unfoldable pub carried : {D : Type 0} → Numbers D → Bytes → Bytes
carried d text = d.scfg_word (put_word text)

unfoldable pub all_carried : {D : Type 0} → Numbers D → List Bytes → List Bytes
all_carried d [] = []
all_carried d (word ∷ words) = carried d word ∷ all_carried d words

-- A file is read by lines, and a newline ends a word in any case.
abbrev pub one_line : Bytes → Bool
one_line [] = true
one_line (c ∷ text) = not (c == 10) && one_line text

abbrev pub AllOneLine : List Bytes → Type 0
AllOneLine [] = Unit {0}
AllOneLine (word ∷ words) = (one_line word ≡ true) × AllOneLine words

-- What scfg(5) makes of the bytes behind an opening double quote up to the closing one, which is the last
-- of the word: a backslash takes the next byte as it is.
abbrev with_byte : ℕ → Option Bytes → Option Bytes
with_byte c none = none
with_byte c (some text) = some (c ∷ text)

abbrev pub unquoted : Bytes → Option Bytes
unquoted [] = none
unquoted (c ∷ []) = if c == 34 then some [] else none
unquoted (c ∷ d ∷ text) = elim (c == 92) [
  | true ↦ with_byte d (unquoted text)
  | false ↦ if (c == 34) || (c == 10) then none else with_byte c (unquoted (d ∷ text))
]

-- What scfg(5) says of words: one without blanks, quotes, backslashes, braces and newlines stands for
-- itself, and one in double quotes for what is between them.
pub record IsReading {D : Type 0} (d : Numbers D) : Type 0 where
  pub bare :
      (word : Bytes)
      → is_empty word ≡ false
      → has_special word ≡ false
      → one_line word ≡ true
      → d.scfg_word word ≡ word
  pub quoted :
      (between word : Bytes) → unquoted between ≡ some word → d.scfg_word (34 ∷ between) ≡ word

unquoted-plain :
    (c : ℕ) (text word : Bytes)
    → ((c == 34) || (c == 92)) ≡ false
    → (c == 10) ≡ false
    → unquoted text ≡ some word
    → unquoted (c ∷ text) ≡ some (c ∷ word)
unquoted-plain c [] word q n e = cc e
unquoted-plain c (d ∷ text) word q n e =
    let back : (c == 92) ≡ false = ground (arith, q) in
    let quote : (c == 34) ≡ false = ground (arith, q) in
    rw (unquoted, back) (rw (quote, n) (ap (with_byte c) e))

unquoted-escaped :
    (text : Bytes) → one_line text ≡ true → unquoted (escaped text ++ 34 ∷ []) ≡ some text
unquoted-escaped [] h = refl
unquoted-escaped (c ∷ text) h =
    let ih = unquoted-escaped text (ground (arith, h)) in
    elim (Bool-cases ((c == 34) || (c == 92))) [
      | inl e ↦ rw e (ap (with_byte c) ih)
      | inr e ↦ rw e (unquoted-plain c (escaped text ++ 34 ∷ []) text e (ground (arith, h)) ih)
    ]

-- A word of one line is read as it was written.
pub carried_same :
    {D : Type 0} (d : Numbers D) (text : Bytes)
    → IsReading d
    → one_line text ≡ true
    → carried d text ≡ text
unfolding carried put_word
carried_same d text law h = elim (Bool-cases (not (is_empty text) && not (has_special text))) [
  | inl e ↦ rw (carried, put_word, e) (law.bare text (ground (arith, e)) (ground (arith, e)) h)
  | inr e ↦
      rw (carried, put_word, e)
        (law.quoted (escaped text ++ 34 ∷ []) text (unquoted-escaped text h))
]

pub all_carried_same :
    {D : Type 0} (d : Numbers D) (words : List Bytes)
    → IsReading d
    → AllOneLine words
    → all_carried d words ≡ words
unfolding all_carried
all_carried_same d [] law h = refl
all_carried_same d (word ∷ words) law h =
    λ i. carried_same d word law h.0 i ∷ all_carried_same d words law h.1 i
