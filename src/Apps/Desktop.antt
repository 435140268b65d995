-- ===== src/Apps/Desktop.antt =====
-- src/desktop/runner/apps.c: what is read of a desktop file, line by line.
use g0wm.Common.{
  ℕ, ◌+◌, Bool, true, false, not, ◌&&◌, ◌||◌, Option, none, some, List, [], ◌∷◌, ◌==◌, ltb,
  if◌then◌else◌, length, Bytes, bytes_eq, is_empty,
}
use g0wm.Settings.Types.{lit}

-- `RunnerApp`, without the picture of the icon.
pub record App : Type 0 where
  pub id : Bytes
  pub name : Option Bytes
  pub gname : Option Bytes
  pub exec : Option Bytes
  pub icon : Option Bytes
  pub term : Bool
  pub hide : Bool
  pub order : ℕ

abbrev pub is_padding : ℕ → Bool
is_padding c = (c == 32) || (c == 9)

abbrev drop_blanks : Bytes → Bytes
drop_blanks [] = []
drop_blanks (c ∷ cs) = let rest = drop_blanks cs in if is_padding c then rest else c ∷ cs

abbrev drop_end : Bytes → Bytes
drop_end [] = []
drop_end (c ∷ cs) = let rest = drop_end cs in if is_padding c && is_empty rest then [] else c ∷ rest

-- `runner_trim`
unfoldable pub trim : Bytes → Bytes
trim text = drop_end (drop_blanks text)

-- The variables of the environment for the locale.
pub record Locale : Type 0 where
  pub lc_all : Option Bytes
  pub lc_messages : Option Bytes
  pub lang : Option Bytes

-- `a`, and `b` where `a` is not set or empty.
abbrev pub set_or : Option Bytes → Option Bytes → Option Bytes
set_or none b = b
set_or (some []) b = b
set_or (some (c ∷ cs)) b = some (c ∷ cs)

-- What follows the prefix, if the text has it: `strncmp` with the length of the prefix.
abbrev pub without_prefix : Bytes → Bytes → Option Bytes
without_prefix [] text = some text
without_prefix (p ∷ prefix) [] = none
without_prefix (p ∷ prefix) (c ∷ text) = if p == c then without_prefix prefix text else none

-- The bytes in front of the first one that is a stop: `strcspn`.
abbrev pub before : (ℕ → Bool) → Bytes → Bytes
before stop [] = []
before stop (c ∷ cs) = let rest = before stop cs in if stop c then [] else c ∷ rest

-- The locale, and one byte for the bracket.
abbrev pub fits_locale : Bytes → Bytes → Bool
fits_locale key wanted =
    (length key == length wanted + 1)
    && elim (without_prefix wanted key) [ none ↦ false | some rest ↦ true ]

abbrev pub locale_rank : Bytes → Option Bytes → ℕ
locale_rank key none = 0
locale_rank key (some lang) =
    if fits_locale key (before (λ c. (c == 46) || (c == 64)) lang)
    then 3
    else if fits_locale key (before (λ c. (c == 95) || ((c == 46) || (c == 64))) lang)
    then 2
    else 0

-- `runner_name_rank`
unfoldable pub name_rank : Locale → Bytes → ℕ
name_rank e key = if bytes_eq key (lit "Name") then 1 else elim (without_prefix (lit "Name[") key) [
  | none ↦ 0
  | some [] ↦ 0
  | some (c ∷ rest) ↦ locale_rank (c ∷ rest) (set_or (set_or e.lc_all e.lc_messages) e.lang)
]

-- The variables of `runner_read_app`, with the fields of `app` that the lines set.
pub record Reading : Type 0 where
  pub group : Bool
  pub is_application : Bool
  pub rank : ℕ
  pub name : Option Bytes
  pub gname : Option Bytes
  pub exec : Option Bytes
  pub icon : Option Bytes
  pub term : Bool
  pub hide : Bool

abbrev is_none : Option Bytes → Bool
is_none none = true
is_none (some s) = false

-- The chain of tests on a key.
unfoldable pub read_field : Locale → Bytes → Bytes → Reading → Reading
read_field e key value s =
    if bytes_eq key (lit "Type")
    then record s { is_application = bytes_eq value (lit "Application") }
    else if bytes_eq key (lit "Exec") && is_none s.exec
    then record s { exec = some value }
    else if bytes_eq key (lit "Icon") && is_none s.icon
    then record s { icon = some value }
    else if bytes_eq key (lit "Terminal")
    then record s { term = bytes_eq value (lit "true") }
    else if bytes_eq key (lit "NoDisplay") || bytes_eq key (lit "Hidden")
    then record s { hide = s.hide || bytes_eq value (lit "true") }
    else if ltb s.rank (name_rank e key)
    then record s { name = some value; rank = name_rank e key }
    else s

-- The `if` behind that chain.
unfoldable pub read_gname : Bytes → Bytes → Reading → Reading
read_gname key value s =
    if bytes_eq key (lit "Name") && is_none s.gname then record s { gname = some value } else s

-- `strchr(line, '=')`: what stands before the sign and behind it.
abbrev pub split_equals : Bytes → Option (Bytes × Bytes)
split_equals [] = none
split_equals (c ∷ cs) =
    let later = split_equals cs in
    if c == 61
    then some ([], cs)
    else elim later [ none ↦ none | some (key, value) ↦ some (c ∷ key, value) ]

abbrev pub starts_with : ℕ → Bytes → Bool
starts_with b [] = false
starts_with b (c ∷ cs) = c == b

-- The key and the value of a line that is no header and no comment.
abbrev pub key_value : Bytes → Option (Bytes × Bytes)
key_value line =
    if starts_with 35 line
    then none
    else elim (split_equals line) [ none ↦ none | some (key, value) ↦ some (trim key, trim value) ]

-- A turn of the loop; `line` is what `fgets` has read, up to the end of the line.
unfoldable pub read_line : Locale → Bytes → Reading → Reading
read_line e line s =
    if starts_with 91 line
    then record s { group = bytes_eq line (lit "[Desktop Entry]") }
    else if not s.group
    then s
    else elim (key_value line) [
      | none ↦ s
      | some (key, value) ↦ read_gname key value (read_field e key value s)
    ]

unfoldable pub read_lines : Locale → List Bytes → Reading → Reading
read_lines e [] s = s
read_lines e (line ∷ lines) s = read_lines e lines (read_line e line s)

abbrev pub unread : Reading
unread = record {
  group = false;
  is_application = false;
  rank = 0;
  name = none;
  gname = none;
  exec = none;
  icon = none;
  term = false;
  hide = false;
}

-- `gname` is kept only where it differs from the name.
abbrev pub differing : Option Bytes → Option Bytes → Option Bytes
differing none name = none
differing (some gname) none = some gname
differing (some gname) (some name) = if bytes_eq gname name then none else some gname

-- Not set or empty.
abbrev is_missing : Option Bytes → Bool
is_missing none = true
is_missing (some text) = is_empty text

-- `runner_read_app` behind `fopen`.
unfoldable pub read_app : Locale → Bytes → ℕ → List Bytes → App
read_app e id order lines =
    let s = read_lines e lines unread in
    record {
      id = id;
      name = s.name;
      gname = differing s.gname s.name;
      exec = s.exec;
      icon = s.icon;
      term = s.term;
      hide = s.hide || (not s.is_application || (is_none s.name || is_missing s.exec));
      order = order;
    }
