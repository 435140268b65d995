-- ===== src/Match/Filter.antt =====
-- src/desktop/runner/match.c: the candidates of a mode, and those that a line lists.
pub mod Lists
pub mod Exact
mod Tests
use g0wm.Common.{
  ℕ, suc, zero, ◌+◌, ◌-◌, ◌*◌, Bool, true, false, not, ◌&&◌, ◌||◌, Option, none, some, List, [],
  ◌∷◌, ◌++◌, ◌==◌, ltb, leb, if◌then◌else◌, get_elem?, Bytes, bytes_eq, is_empty,
}
use g0wm.Settings.Types.{lit}
use g0wm.Match.{score}
use g0wm.Apps.Desktop.{App}

-- `ModeApp` and so on.
pub data Mode : Type 0 where
  app_mode run_mode term_mode calc_mode search_mode window_mode tag_mode file_mode : Mode

-- A client of `focus_stack`, as `runner_windows` sees it.
pub record OpenWindow : Type 0 where
  pub unmanaged : Bool
  pub has_monitor : Bool
  pub app_id : Bytes
  pub title : Bytes

abbrev pub window_label : OpenWindow → Bytes
window_label w =
    if is_empty w.title || bytes_eq w.app_id w.title
    then w.app_id
    else w.app_id ++ (lit ": " ++ w.title)

-- `runner_window_labels` after `runner_windows`.
unfoldable pub windows : List OpenWindow → List Bytes
windows [] = []
windows (w ∷ stack) =
    let rest = windows stack in
    if w.unmanaged || not w.has_monitor then rest else window_label w ∷ rest

-- `runner_expand` of the first bytes of a line.
unfoldable pub expand_home : Option Bytes → Bytes → Bytes
expand_home home [] = []
expand_home none (c ∷ text) = c ∷ text
expand_home (some home) (c ∷ text) = if c == 126 then home ++ text else c ∷ text

-- An entry of a directory, and whether it is a directory itself.
pub record DirEntry : Type 0 where
  pub d_name : Bytes
  pub is_directory : Bool

abbrev is_left_out : Bool → Bytes → Bool
is_left_out hidden [] = false
is_left_out hidden (c ∷ name) =
    bytes_eq (c ∷ name) (lit ".") || (bytes_eq (c ∷ name) (lit "..") || ((c == 46) && not hidden))

-- The entries that `runner_read_entries` takes, before they are sorted.
unfoldable pub read_entries : Bool → List DirEntry → List Bytes
read_entries hidden [] = []
read_entries hidden (e ∷ entries) =
    let rest = read_entries hidden entries in
    if is_left_out hidden e.d_name
    then rest
    else (if e.is_directory then e.d_name ++ 47 ∷ [] else e.d_name) ∷ rest

-- What there is to choose from, and how often it was chosen.
pub record Offered : Type 0 where
  pub apps : List App
  pub app_use : ℕ → ℕ
  pub commands : List Bytes
  pub command_use : ℕ → ℕ
  pub focus_stack : List OpenWindow
  pub tags : List Bytes
  pub entries : List Bytes

-- `runner_source`, `runner_alt_names` and the array of uses.
pub record Source : Type 0 where
  pub names : List Bytes
  pub alt : ℕ → Option Bytes
  pub used : Option (ℕ → ℕ)

abbrev name_of : App → Bytes
name_of app = elim app.name [ none ↦ [] | some name ↦ name ]

abbrev pub app_names : List App → List Bytes
app_names [] = []
app_names (app ∷ apps) = name_of app ∷ app_names apps

abbrev pub gname_of : List App → ℕ → Option Bytes
gname_of [] i = none
gname_of (app ∷ apps) zero = app.gname
gname_of (app ∷ apps) (suc i) = gname_of apps i

abbrev plain : List Bytes → Source
plain names = record { names = names; alt = λ i. none; used = none }

-- `runner_set_source`, with the entries that are read.
unfoldable pub set_source : Offered → Mode → Source
set_source o app_mode = record {
  names = app_names o.apps;
  alt = gname_of o.apps;
  used = some o.app_use;
}
set_source o run_mode = record { names = o.commands; alt = λ i. none; used = some o.command_use }
set_source o term_mode = record { names = o.commands; alt = λ i. none; used = some o.command_use }
set_source o window_mode = plain (windows o.focus_stack)
set_source o tag_mode = plain o.tags
set_source o file_mode = plain o.entries
set_source o calc_mode = plain []
set_source o search_mode = plain []

-- An entry of `runner_matches` with its score.
pub record Match : Type 0 where
  pub index : ℕ
  pub points : ℕ

abbrev pub max : ℕ → ℕ → ℕ
max a b = if ltb a b then b else a

abbrev pub min : ℕ → ℕ → ℕ
min a b = if ltb a b then a else b

-- The score of a candidate by its name and by its other name.
unfoldable pub best_score : Bool → Bool → Option Bytes → Bytes → Bytes → ℕ
best_score fuzzy fold none name query = score fuzzy fold name query
best_score fuzzy fold (some alt) name query =
    max (score fuzzy fold name query) (score fuzzy fold alt query)

abbrev pub use_points : Option (ℕ → ℕ) → ℕ → ℕ
use_points none i = 0
use_points (some used) i = min (used i) 65536 * 16

-- The loop of `runner_filter` from a candidate on.
unfoldable pub matches_from : Bool → Bool → Source → Bytes → ℕ → List Bytes → List Match
matches_from fuzzy fold src query i [] = []
matches_from fuzzy fold src query i (name ∷ names) =
    let rest = matches_from fuzzy fold src query (suc i) names in
    let found = best_score fuzzy fold (src.alt i) name query in
    if found == 0 then rest else record { index = i; points = found + use_points src.used i } ∷ rest

-- `runner_by_score(left, right) > 0`
abbrev pub by_score : Match → Match → Bool
by_score left right =
    if left.points == right.points then ltb right.index left.index else ltb left.points right.points

abbrev pub indices : List Match → List ℕ
indices [] = []
indices (m ∷ ms) = m.index ∷ indices ms

abbrev pub has_upper : Bytes → Bool
has_upper [] = false
has_upper (c ∷ query) = (leb 65 c && leb c 90) || has_upper query

abbrev count_from : ℕ → List Bytes → List ℕ
count_from i [] = []
count_from i (name ∷ names) = i ∷ count_from (suc i) names

abbrev is_short : Mode → Bool
is_short window_mode = true
is_short tag_mode = true
is_short file_mode = true
is_short _ = false

-- `runner_matches` after `runner_filter`: `sort` is that of `qsort`, `is_sum` whether `runner_calc` has
-- a value for the line.
unfoldable pub filter : (List Match → List Match) → Bool → Offered → Bool → Mode → Bytes → List ℕ
filter sort fuzzy o is_sum mode query =
    let src = set_source o mode in
    if is_empty query
    then (if is_short mode then count_from 0 src.names else [])
    else if is_sum
    then []
    else indices (sort (matches_from fuzzy (not (has_upper query)) src query 0 src.names))
