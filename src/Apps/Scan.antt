-- ===== src/Apps/Scan.antt =====
-- src/desktop/runner/apps.c: the applications of all directories, and which of them are kept.
use g0wm.Common.{
  ℕ, ◌+◌, Bool, true, false, ◌&&◌, ◌||◌, Option, none, some, List, [], ◌∷◌, ◌++◌, ◌==◌, ltb, leb,
  if◌then◌else◌, length, Bytes, bytes_eq,
}
use g0wm.Settings.Types.{lit}
use g0wm.Apps.Desktop.{App, Locale, read_app, starts_with}

-- A directory as `readdir` gives it: each entry by its name and, where `fopen` opens it, the lines that
-- `fgets` reads. Entries that `stat` fails on are left out.
mutual
  pub data Entry : Type 0 where
    file : Bytes → Option (List Bytes) → Entry
    directory : Bytes → Option (List Bytes) → Entries → Entry

  pub data Entries : Type 0 where
    end : Entries
    more : Entry → Entries → Entries

-- `*order` and `runner_apps`.
pub record Found : Type 0 where
  pub count : ℕ
  pub apps : List App

abbrev pub last_eight : Bytes → Bytes
last_eight [] = []
last_eight (c ∷ cs) = let rest = last_eight cs in if leb (length cs) 7 then c ∷ cs else rest

abbrev is_desktop : Bytes → Bool
is_desktop id = ltb 8 (length id) && bytes_eq (last_eight id) (lit ".desktop")

-- `runner_read_app`, which may not open the file, and `(*order)++`.
abbrev read_one : Locale → Bytes → Option (List Bytes) → Found → Found
read_one e id none s = record s { count = s.count + 1 }
read_one e id (some lines) s = record {
  count = s.count + 1;
  apps = s.apps ++ read_app e id s.count lines ∷ [];
}

abbrev scan_file : Locale → Bytes → Option (List Bytes) → Found → Found
scan_file e id lines s = if is_desktop id then read_one e id lines s else s

-- A hidden entry, or one whose path or id is too long for the buffers of `path_max` bytes.
abbrev is_skipped : ℕ → Bytes → Bytes → Bytes → Bool
is_skipped path_max dir prefix name =
    starts_with 46 name
    || (leb path_max (length dir + (1 + length name)) || leb path_max (length prefix + length name))

-- `runner_scan_apps`
unfoldable mutual
  pub scan_apps : Locale → ℕ → Bytes → Bytes → Entries → Found → Found
  scan_apps e path_max dir prefix end s = s
  scan_apps e path_max dir prefix (more one rest) s =
      scan_apps e path_max dir prefix rest (scan_entry e path_max dir prefix one s)

  pub scan_entry : Locale → ℕ → Bytes → Bytes → Entry → Found → Found
  scan_entry e path_max dir prefix (file name lines) s =
      if is_skipped path_max dir prefix name then s else scan_file e (prefix ++ name) lines s
  scan_entry e path_max dir prefix (directory name lines entries) s =
      let below =
        scan_apps e path_max (dir ++ (47 ∷ name)) (prefix ++ (name ++ 45 ∷ [])) entries s in
      if is_skipped path_max dir prefix name
      then s
      else if ltb (length prefix + length name + 1) path_max
      then below
      else scan_file e (prefix ++ name) lines s

-- The first loop of `runner_build_apps`, over the directories that `opendir` opens.
unfoldable pub scan_dirs : Locale → ℕ → List (Bytes × Entries) → Found → Found
scan_dirs e path_max [] s = s
scan_dirs e path_max ((dir, entries) ∷ dirs) s =
    scan_dirs e path_max dirs (scan_apps e path_max dir [] entries s)

-- `strcmp(a, b) < 0`
unfoldable pub bytes_less : Bytes → Bytes → Bool
bytes_less a [] = false
bytes_less [] (y ∷ ys) = true
bytes_less (x ∷ xs) (y ∷ ys) = let rest = bytes_less xs ys in if x == y then rest else ltb x y

-- `runner_by_id(left, right) > 0`
unfoldable pub by_id : App → App → Bool
by_id left right =
    if bytes_eq left.id right.id then ltb right.order left.order else bytes_less right.id left.id

-- `runner_by_name(left, right) > 0`; what is not hidden has a name.
abbrev pub by_name : App → App → Bool
by_name left right = elim left.name [
  | none ↦ false
  | some a ↦ elim right.name [ none ↦ false | some b ↦ bytes_less b a ]
]

-- `kept_count && !strcmp(runner_apps[kept_count - 1].id, id)`
abbrev pub is_last : Option Bytes → Bytes → Bool
is_last none id = false
is_last (some last) id = bytes_eq last id

-- The second loop, behind an application that is kept with the id `last`.
unfoldable pub keep : Option Bytes → List App → List App
keep last [] = []
keep last (app ∷ apps) =
    let dropped = is_last last app.id || app.hide in
    let rest = keep (if dropped then last else some app.id) apps in
    if dropped then rest else app ∷ rest

-- `runner_apps` as the directories give it.
abbrev pub all_apps : Locale → ℕ → List (Bytes × Entries) → List App
all_apps e path_max dirs = (scan_dirs e path_max dirs (record { count = 0; apps = [] })).apps

-- `runner_apps` after `runner_build_apps`; the two sorts are those of `qsort`.
unfoldable pub build_apps :
    (List App → List App) → (List App → List App) → Locale → ℕ → List (Bytes × Entries) → List App
build_apps sort_by_id sort_by_name e path_max dirs =
    sort_by_name (keep none (sort_by_id (all_apps e path_max dirs)))
