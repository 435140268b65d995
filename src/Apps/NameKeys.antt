-- ===== src/Apps/NameKeys.antt =====
-- src/desktop/runner/apps.c: the keys for a name, and proofs on their ranks.
use mathlib.Core.Path.{subst}
use g0wm.Common.{
  ℕ, ◌≤◌, ◌≡◌, refl, sym, ap, ◌∙◌, inl, inr, Bool, true, false, not, ◌&&◌, ◌||◌, Option, none, some,
  [], ◌∷◌, ◌++◌, ◌==◌, if◌then◌else◌, Bytes, bytes_eq, bytes_eq_sound, is_empty, mem, arith,
  Bool-cases,
}
use g0wm.Settings.Types.{lit}
use g0wm.Apps.Desktop.{Locale, set_or, before, without_prefix, fits_locale, locale_rank, name_rank}

-- The locale: of LC_ALL and LC_MESSAGES the first that is set and not empty, or else LANG.
abbrev locale_from : Option Bytes → Option Bytes → Option Bytes → Option Bytes
locale_from (some (c ∷ all)) messages lang = some (c ∷ all)
locale_from _ (some (c ∷ messages)) lang = some (c ∷ messages)
locale_from _ _ lang = lang

-- A text in front of the first of the stops, and all but the last byte.
abbrev up_to : Bytes → Bytes → Bytes
up_to stops [] = []
up_to stops (c ∷ text) = let rest = up_to stops text in if mem c stops then [] else c ∷ rest

abbrev but_last : Bytes → Bytes
but_last [] = []
but_last (c ∷ []) = []
but_last (c ∷ d ∷ text) = c ∷ but_last (d ∷ text)

-- `Name[` and the part of the locale in front of a stop, whatever byte closes it.
abbrev names_locale : Bytes → Option Bytes → Bytes → Bool
names_locale stops none key = false
names_locale stops (some locale) key =
    not (is_empty key) && bytes_eq (but_last key) (lit "Name[" ++ up_to stops locale)

-- The key for the language and the country, the one for the language only, and the one without a locale.
abbrev pub is_country : Locale → Bytes → Bool
is_country e key = names_locale (lit ".@") (locale_from e.lc_all e.lc_messages e.lang) key

abbrev pub is_language : Locale → Bytes → Bool
is_language e key =
    not (is_country e key)
    && names_locale (lit "_.@") (locale_from e.lc_all e.lc_messages e.lang) key

abbrev pub is_plain : Bytes → Bool
is_plain key = bytes_eq key (lit "Name")

locale_of_set : (a b c : Option Bytes) → set_or (set_or a b) c ≡ locale_from a b c
locale_of_set none none c = refl
locale_of_set none (some []) c = refl
locale_of_set none (some (x ∷ b)) c = refl
locale_of_set (some []) none c = refl
locale_of_set (some []) (some []) c = refl
locale_of_set (some []) (some (x ∷ b)) c = refl
locale_of_set (some (x ∷ a)) b c = refl

-- What stands behind `Name[` is a text and one byte more.
abbrev behind : Option Bytes → Bytes → Bool
behind none wanted = false
behind (some []) wanted = false
behind (some (c ∷ rest)) wanted = bytes_eq (but_last (c ∷ rest)) wanted

abbrev behind_locale : Bytes → Option Bytes → Option Bytes → Bool
behind_locale stops none found = false
behind_locale stops (some locale) found = behind found (up_to stops locale)

but_last-fits :
    (c : ℕ) (rest wanted : Bytes)
    → fits_locale (c ∷ rest) wanted ≡ bytes_eq (but_last (c ∷ rest)) wanted
but_last-fits c [] [] = refl
but_last-fits c [] (x ∷ wanted) = ground arith
but_last-fits c (d ∷ rest) [] = ground arith
but_last-fits c (d ∷ rest) (x ∷ wanted) = ground (arith, but_last-fits d rest wanted)

behind-prefix :
    (prefix key wanted : Bytes)
    → not (is_empty key) && bytes_eq (but_last key) (prefix ++ wanted)
      ≡ behind (without_prefix prefix key) wanted
behind-prefix [] [] wanted = refl
behind-prefix [] (c ∷ key) wanted = refl
behind-prefix (p ∷ prefix) [] wanted = refl
behind-prefix (p ∷ []) (c ∷ []) wanted = ground arith
behind-prefix (p ∷ q ∷ prefix) (c ∷ []) wanted = ground arith
behind-prefix (p ∷ prefix) (c ∷ d ∷ key) wanted =
    ground (arith, behind-prefix prefix (d ∷ key) wanted)

names_locale-behind :
    (stops : Bytes) (locale : Option Bytes) (key : Bytes)
    → names_locale stops locale key ≡ behind_locale stops locale (without_prefix (lit "Name[") key)
names_locale-behind stops none key = refl
names_locale-behind stops (some locale) key = behind-prefix (lit "Name[") key (up_to stops locale)

up_to_country : (text : Bytes) → up_to (lit ".@") text ≡ before (λ c. (c == 46) || (c == 64)) text
up_to_country [] = refl
up_to_country (c ∷ text) = ground (arith, up_to_country text)

up_to_language :
    (text : Bytes)
    → up_to (lit "_.@") text ≡ before (λ c. (c == 95) || ((c == 46) || (c == 64))) text
up_to_language [] = refl
up_to_language (c ∷ text) = ground (arith, up_to_language text)

abbrev rank_behind : Option Bytes → Option Bytes → ℕ
rank_behind found locale = elim found [
  | none ↦ 0
  | some [] ↦ 0
  | some (c ∷ rest) ↦ locale_rank (c ∷ rest) locale
]

three_if : (a b : Bool) → ((if a then 3 else if b then 2 else 0) == 3) ≡ a
three_if true b = refl
three_if false true = refl
three_if false false = refl

two_if : (a b : Bool) → ((if a then 3 else if b then 2 else 0) == 2) ≡ (not a && b)
two_if true b = refl
two_if false true = refl
two_if false false = refl

and_same : {a b c d : Bool} → a ≡ c → b ≡ d → (not a && b) ≡ (not c && d)
and_same e f = λ i. not (e i) && f i

and_none : (a b : Bool) → b ≡ false → false ≡ (not a && b)
and_none true b e = refl
and_none false b e = sym e

rank_behind_three :
    (found locale : Option Bytes)
    → (rank_behind found locale == 3) ≡ behind_locale (lit ".@") locale found
rank_behind_three none none = refl
rank_behind_three none (some locale) = refl
rank_behind_three (some []) none = refl
rank_behind_three (some []) (some locale) = refl
rank_behind_three (some (c ∷ rest)) none = refl
rank_behind_three (some (c ∷ rest)) (some locale) =
    three_if _ _
    ∙ but_last-fits c rest _
    ∙ ap (bytes_eq (but_last (c ∷ rest))) (sym (up_to_country locale))

rank_behind_two :
    (found locale : Option Bytes)
    → (rank_behind found locale == 2)
      ≡ (not (behind_locale (lit ".@") locale found) && behind_locale (lit "_.@") locale found)
rank_behind_two none none = refl
rank_behind_two none (some locale) = refl
rank_behind_two (some []) none = refl
rank_behind_two (some []) (some locale) = refl
rank_behind_two (some (c ∷ rest)) none = refl
rank_behind_two (some (c ∷ rest)) (some locale) =
    let country =
      but_last-fits c rest _ ∙ ap (bytes_eq (but_last (c ∷ rest))) (sym (up_to_country locale)) in
    let language =
      but_last-fits c rest _ ∙ ap (bytes_eq (but_last (c ∷ rest))) (sym (up_to_language locale)) in
    two_if _ _ ∙ and_same country language

plain_no_locale :
    (stops : Bytes) (locale : Option Bytes) → names_locale stops locale (lit "Name") ≡ false
plain_no_locale stops none = refl
plain_no_locale stops (some locale) = refl

abbrev chosen : Locale → Option Bytes
chosen e = locale_from e.lc_all e.lc_messages e.lang

other_rank :
    (e : Locale) (key : Bytes)
    → is_plain key ≡ false
    → name_rank e key ≡ rank_behind (without_prefix (lit "Name[") key) (chosen e)
unfolding name_rank
other_rank e key p = rw p (
    ap (rank_behind (without_prefix (lit "Name[") key))
      (locale_of_set e.lc_all e.lc_messages e.lang))

pub country_rank : (e : Locale) (key : Bytes) → (name_rank e key == 3) ≡ is_country e key
unfolding name_rank
country_rank e key = elim (Bool-cases (is_plain key)) [
  | inl p ↦
      subst (λ k. (name_rank e k == 3) ≡ is_country e k) (sym (bytes_eq_sound key (lit "Name") p))
        (sym (plain_no_locale (lit ".@") (chosen e)))
  | inr p ↦
      ap (λ n. n == 3) (other_rank e key p)
      ∙ rank_behind_three (without_prefix (lit "Name[") key) (chosen e)
      ∙ sym (names_locale-behind (lit ".@") (chosen e) key)
]

pub language_rank : (e : Locale) (key : Bytes) → (name_rank e key == 2) ≡ is_language e key
unfolding name_rank
language_rank e key = elim (Bool-cases (is_plain key)) [
  | inl p ↦
      subst (λ k. (name_rank e k == 2) ≡ is_language e k) (sym (bytes_eq_sound key (lit "Name") p))
        (and_none (names_locale (lit ".@") (chosen e) (lit "Name")) _
          (plain_no_locale (lit "_.@") (chosen e)))
  | inr p ↦
      ap (λ n. n == 2) (other_rank e key p)
      ∙ rank_behind_two (without_prefix (lit "Name[") key) (chosen e)
      ∙ and_same (sym (names_locale-behind (lit ".@") (chosen e) key))
          (sym (names_locale-behind (lit "_.@") (chosen e) key))
]

pub plain_rank : (e : Locale) (key : Bytes) → (name_rank e key == 1) ≡ is_plain key
unfolding name_rank
plain_rank e key = ground arith

pub four_ranks : (e : Locale) (key : Bytes) → name_rank e key ≤ 3
unfolding name_rank
four_ranks e key = ground arith
