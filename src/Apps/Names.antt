-- ===== src/Apps/Names.antt =====
-- src/desktop/runner/apps.c: proofs on the name that an application gets.
use g0wm.Common.{
  ℕ, ◌≡◌, refl, ◌∙◌, inl, inr, Bool, true, false, Option, none, some, List, [], ◌∷◌, ◌==◌, ltb,
  if◌then◌else◌, Bytes, bytes_eq, bytes_eq_sound, arith, Bool-cases, Option-cases,
}
use g0wm.Settings.Types.{lit}
use g0wm.Apps.NameKeys.{is_country, is_language, is_plain, country_rank, language_rank, plain_rank}
use g0wm.Apps.Offers.{
  in_entry, offers, highest, first_of, first_set, value_of, offers-ranked, ranked,
  first_of-value_of, best_of, offers-le,
}
use g0wm.Apps.Desktop.{
  Locale, name_rank, Reading, read_field, read_gname, key_value, starts_with, read_line, read_lines,
  unread, differing, read_app,
}

-- What a field does to the name.
record Named (e : Locale) (key value : Bytes) (s t : Reading) : Type 0 where
  group : t.group ≡ s.group
  gname : t.gname ≡ s.gname
  rank : t.rank ≡ (if ltb s.rank (name_rank e key) then name_rank e key else s.rank)
  name : t.name ≡ (if ltb s.rank (name_rank e key) then some value else s.name)

module _ (e : Locale) (key value : Bytes) (s : Reading) where
  -- The other words are no names.
  word_rank : (word : Bytes) → name_rank e word ≡ 0 → bytes_eq key word ≡ true → name_rank e key ≡ 0
  word_rank word z h = rw (bytes_eq_sound key word h) z

  type_rank : bytes_eq key (lit "Type") ≡ true → name_rank e key ≡ 0
  unfolding name_rank
  type_rank = word_rank (lit "Type") refl

  exec_rank : bytes_eq key (lit "Exec") ≡ true → name_rank e key ≡ 0
  unfolding name_rank
  exec_rank = word_rank (lit "Exec") refl

  icon_rank : bytes_eq key (lit "Icon") ≡ true → name_rank e key ≡ 0
  unfolding name_rank
  icon_rank = word_rank (lit "Icon") refl

  terminal_rank : bytes_eq key (lit "Terminal") ≡ true → name_rank e key ≡ 0
  unfolding name_rank
  terminal_rank = word_rank (lit "Terminal") refl

  no_display_rank : bytes_eq key (lit "NoDisplay") ≡ true → name_rank e key ≡ 0
  unfolding name_rank
  no_display_rank = word_rank (lit "NoDisplay") refl

  hidden_rank : bytes_eq key (lit "Hidden") ≡ true → name_rank e key ≡ 0
  unfolding name_rank
  hidden_rank = word_rank (lit "Hidden") refl

  ruleset words = (type_rank, exec_rank, icon_rank, terminal_rank, no_display_rank, hidden_rank)

  read_field-Named : Named e key value s (read_field e key value s)
  unfolding read_field
  read_field-Named = record {
    group = ground arith;
    gname = ground arith;
    rank = ground (arith, words);
    name = ground (arith, words);
  }

-- The name and the other one after offers, from a rank and names before.
record Chosen (q : ℕ) (n g : Option Bytes) (t : Reading) (o : List (ℕ × Bytes)) : Type 0 where
  name : t.name ≡ (if ltb q (highest o) then first_of (highest o) o else n)
  gname : t.gname ≡ first_set g (first_of 1 o)

better_name :
    (q r : ℕ) (n : Option Bytes) (v : Bytes) (o : List (ℕ × Bytes))
    → (if ltb (if ltb q r then r else q) (highest o)
        then first_of (highest o) o
        else (if ltb q r then some v else n))
      ≡ (if ltb q (highest ((r, v) ∷ o)) then first_of (highest ((r, v) ∷ o)) ((r, v) ∷ o) else n)
better_name q r n v o = ground arith

module _ (e : Locale) (key value : Bytes) (s : Reading) where
  -- A field and the test behind it.
  abbrev after : Reading
  after = read_gname key value (read_field e key value s)

  after-group : after.group ≡ s.group
  unfolding read_gname
  after-group = ground (arith, Named.group (read_field-Named e key value s))

  after-rank : after.rank ≡ (if ltb s.rank (name_rank e key) then name_rank e key else s.rank)
  unfolding read_gname
  after-rank = ground (arith, Named.rank (read_field-Named e key value s))

  after-name : after.name ≡ (if ltb s.rank (name_rank e key) then some value else s.name)
  unfolding read_gname
  after-name = ground (arith, Named.name (read_field-Named e key value s))

  after-gname : after.gname ≡ first_set s.gname (if name_rank e key == 1 then some value else none)
  unfolding read_gname
  after-gname = rw (plain_rank e key) (ground (arith, Named.gname (read_field-Named e key value s)))

  -- An offer, and what comes after it.
  offered-Chosen :
      (t : Reading) (o : List (ℕ × Bytes))
      → Chosen after.rank after.name after.gname t o
      → Chosen s.rank s.name s.gname t ((name_rank e key, value) ∷ o)
  offered-Chosen t o c = record {
    name =
        c.name ∙ rw (after-rank, after-name) (better_name s.rank (name_rank e key) s.name value o);
    gname = c.gname ∙ rw after-gname (ground arith);
  }

  -- A key that is no name.
  plain-Chosen :
      (t : Reading) (o : List (ℕ × Bytes))
      → Chosen after.rank after.name after.gname t o
      → (name_rank e key == 0) ≡ true
      → Chosen s.rank s.name s.gname t o
  plain-Chosen t o c z = record {
    name = c.name ∙ rw (after-rank, after-name) (ground (arith, z));
    gname = c.gname ∙ rw after-gname (ground (arith, z));
  }

-- The name after the lines.
read_lines-Chosen :
    (e : Locale) (lines : List Bytes) (s : Reading) (group : Bool)
    → s.group ≡ group
    → Chosen s.rank s.name s.gname (read_lines e lines s) (offers e (in_entry group lines))
unfolding read_lines read_line
read_lines-Chosen e [] s group g = record { name = ground arith; gname = ground arith }
read_lines-Chosen e (line ∷ lines) s group g = elim (Bool-cases (starts_with 91 line)) [
  | inl h ↦
      let header = bytes_eq line (lit "[Desktop Entry]") in
      rw h (read_lines-Chosen e lines (record s { group = header }) header refl)
  | inr h ↦ elim (Bool-cases group) [
    | inr i ↦
        let outside = g ∙ i in simp (h, i, outside) (read_lines-Chosen e lines s false outside)
    | inl i ↦
        let inside = g ∙ i in
        elim (Option-cases (key_value line)) [
          | inl k ↦
              simp (h, i, inside, k) (rw (offers, k) (read_lines-Chosen e lines s true inside))
          | inr ((key, value), k) ↦
              let t = after e key value s in
              let c = read_lines-Chosen e lines t true (after-group e key value s ∙ inside) in
              elim (Bool-cases (name_rank e key == 0)) [
                | inl z ↦
                    simp (h, i, inside, k)
                      (rw (offers, k, z) (plain-Chosen e key value s (read_lines e lines t) _ c z))
                | inr z ↦
                    simp (h, i, inside, k)
                      (rw (offers, k, z) (offered-Chosen e key value s (read_lines e lines t) _ c))
              ]
        ]
  ]
]

-- The value of a key for the language and the country; without one that for the language, and without
-- that as well the value of the key Name; each time the first of them.
abbrev pub best_name : Locale → List Bytes → Option Bytes
best_name e lines =
    first_set (value_of (is_country e) lines)
      (first_set (value_of (is_language e) lines) (value_of is_plain lines))

-- The name of an application is, of the lines of the group [Desktop Entry], the first value of a key for
-- the language and the country of the locale, or if there is none of a key for the language only, or
-- else of the key Name, the locale being the first of LC_ALL and LC_MESSAGES that is set and not empty or
-- else LANG; and its other name is the first value of the key Name, unless that is the name.
pub read_app-name :
    (e : Locale) (id : Bytes) (order : ℕ) (lines : List Bytes)
    → ((read_app e id order lines).name ≡ best_name e (in_entry false lines))
      × ((read_app e id order lines).gname
          ≡ differing
              (value_of is_plain (in_entry false lines))
              (best_name e (in_entry false lines)))
unfolding read_app
read_app-name e id order lines =
    let ours = in_entry false lines in
    let o = offers e ours in
    let c = read_lines-Chosen e lines unread false refl in
    let country = first_of-value_of e 3 (is_country e) ours refl (country_rank e) in
    let language = first_of-value_of e 2 (is_language e) ours refl (language_rank e) in
    let plain = first_of-value_of e 1 is_plain ours refl (plain_rank e) in
    let name =
      Chosen.name c
      ∙ ranked o (offers-ranked e ours)
      ∙ best_of o (offers-ranked e ours) (offers-le e ours)
      ∙ (λ i. first_set (country i) (first_set (language i) (plain i))) in
    (name, (λ i. differing ((Chosen.gname c ∙ plain) i) (name i)))
