-- ===== src/Apps/Dirs.antt =====
-- src/desktop/runner/apps.c: the directories that are searched, the commands in them, and whether they
-- have changed.
use g0wm.Common.{
  ℕ, Bool, true, false, not, ◌&&◌, ◌||◌, Option, none, some, List, [], ◌∷◌, ◌++◌, ◌==◌, ltb,
  if◌then◌else◌, Bytes, bytes_eq, is_empty,
}
use g0wm.Settings.Types.{lit}
use g0wm.Apps.Desktop.{set_or, starts_with}
use g0wm.Apps.Scan.{is_last}

abbrev extend : ℕ → List Bytes → List Bytes
extend c [] = (c ∷ []) ∷ []
extend c (word ∷ words) = (c ∷ word) ∷ words

-- The words between the colons, empty ones too.
abbrev split_colons : Bytes → List Bytes
split_colons [] = [] ∷ []
split_colons (c ∷ cs) =
    let later = split_colons cs in if c == 58 then [] ∷ later else extend c later

abbrev not_empty : List Bytes → List Bytes
not_empty [] = []
not_empty (word ∷ words) = let rest = not_empty words in if is_empty word then rest else word ∷ rest

-- What `strtok_r` with ":" gives, and the loop over `runner_paths`.
unfoldable pub tokens : Bytes → List Bytes
tokens text = not_empty (split_colons text)

-- Another part behind a colon, if there is one already.
abbrev pub append_part : Bytes → Bytes → Bytes
append_part [] part = part
append_part (c ∷ out) part = (c ∷ out) ++ 58 ∷ part

-- The home directory for ~ in an entry that is ~ or begins with ~/.
abbrev expand : Option Bytes → Bytes → Bytes
expand none entry = entry
expand (some home) [] = []
expand (some home) (c ∷ rest) =
    if (c == 126) && (is_empty rest || starts_with 47 rest) then home ++ rest else c ∷ rest

abbrev append_paths : Option Bytes → List Bytes → Bytes → Bytes
append_paths home [] out = out
append_paths home (entry ∷ entries) out =
    append_paths home entries (append_part out (expand home entry))

abbrev text_of : Option Bytes → Bytes
text_of none = []
text_of (some text) = text

-- `runner_search_path`, of `PATH`, `HOME` and `runner_paths`.
unfoldable pub search_path : Option Bytes → Option Bytes → Option Bytes → Bytes
search_path path home runner_paths =
    append_paths home (tokens (text_of runner_paths)) (text_of path)

abbrev append_dirs : List Bytes → Bytes → Bytes
append_dirs [] out = out
append_dirs (dir ∷ dirs) out = append_dirs dirs (append_part out (dir ++ lit "/applications"))

abbrev user_dir : Option Bytes → Option Bytes → Bytes
user_dir home datahome = elim (set_or datahome none) [
  | some dir ↦ dir ++ lit "/applications"
  | none ↦ elim (set_or home none) [
    | some dir ↦ dir ++ (lit "/.local/share" ++ lit "/applications")
    | none ↦ []
  ]
]

-- `runner_app_dirs`, of `HOME`, `XDG_DATA_HOME` and `XDG_DATA_DIRS`.
unfoldable pub app_dirs : Option Bytes → Option Bytes → Option Bytes → Bytes
app_dirs home datahome datadirs =
    let dirs = text_of (set_or datadirs (some (lit "/usr/local/share:/usr/share"))) in
    append_dirs (tokens dirs) (user_dir home datahome)

-- The loop of `runner_build_cache` that drops a command that is the one kept before it.
unfoldable pub unique : Option Bytes → List Bytes → List Bytes
unique last [] = []
unique last (command ∷ commands) =
    let rest = unique (some command) commands in
    if is_last last command then rest else command ∷ rest

-- `runner_commands` after `runner_build_cache`, of the executables in the directories of the path; the
-- sort is that of `qsort`.
unfoldable pub build_cache : (List Bytes → List Bytes) → List Bytes → List Bytes
build_cache sort executables = unique none (sort executables)

-- `struct timespec`
pub record Stamp : Type 0 where
  pub sec : ℕ
  pub nsec : ℕ

abbrev is_newer : Stamp → Stamp → Bool
is_newer a b = ltb b.sec a.sec || ((a.sec == b.sec) && ltb b.nsec a.nsec)

-- `newest` after the loop, over what `stat` gives of each directory.
abbrev newest_of : List (Option Stamp) → Stamp → Stamp
newest_of [] newest = newest
newest_of (none ∷ stats) newest = newest_of stats newest
newest_of (some stamp ∷ stats) newest =
    newest_of stats (if is_newer stamp newest then stamp else newest)

-- The paths that were seen last, and the stamp.
pub record Seen : Type 0 where
  pub cache : Option Bytes
  pub stamp : Stamp

abbrev is_moved : Bytes → Option Bytes → Bool
is_moved paths none = true
is_moved paths (some cache) = not (bytes_eq paths cache)

-- `runner_stale`: what it returns, and what it has seen.
unfoldable pub stale : (Bytes → Option Stamp) → Bytes → Seen → Bool × Seen
stale stat paths seen =
    let newest = newest_of (stats (tokens paths)) (record { sec = 0; nsec = 0 }) in
    let moved = is_moved paths seen.cache in
    let same = (newest.sec == seen.stamp.sec) && (newest.nsec == seen.stamp.nsec) in
    if not moved && same
    then (false, seen)
    else (true, record { cache = some paths; stamp = newest })
  where
    stats : List Bytes → List (Option Stamp)
    stats [] = []
    stats (dir ∷ dirs) = stat dir ∷ stats dirs
