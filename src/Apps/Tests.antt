-- ===== src/Apps/Tests.antt =====
-- src/desktop/runner/apps.c: runs at concrete inputs.
use mathlib.Core.List.Memᴰ.{head, tail, cases_cons}
use g0wm.Common.{
  ◌≤◌, ◌≡◌, refl, inl, inr, Bool, none, some, List, [], ◌∷◌, if◌then◌else◌, length, Bytes,
  Bool-cases,
}
use g0wm.Settings.Types.{lit}
use g0wm.Apps.Desktop.{
  App, Locale, trim, name_rank, read_field, read_gname, read_line, read_lines, read_app,
}
use g0wm.Apps.Scan.{
  file, directory, Entries, end, more, all_apps, by_id, by_name, build_apps, scan_apps, scan_dirs,
  bytes_less, keep,
}
use g0wm.Apps.Choice.{SameMembers, FirstShown, build_apps-FirstShown}
use g0wm.Apps.Names.{read_app-name}
use g0wm.Apps.Exec.{app_exec, plain, blank, newline, escaped, percent, field, app_exec-write}
use g0wm.Apps.Dirs.{tokens, search_path, app_dirs, unique, build_cache}

abbrev italian : Locale
italian = record { lc_all = some []; lc_messages = none; lang = some (lit "it_IT.UTF-8") }

abbrev editor : List Bytes
editor =
    lit "[Desktop Entry]"
    ∷ lit "Type=Application"
    ∷ lit "Name = Editor"
    ∷ lit "Name[it]=Redattore"
    ∷ lit "# Name[it_IT]=none"
    ∷ lit "Exec=edit %f"
    ∷ lit "[Other]"
    ∷ lit "Name[it_IT]=Altro"
    ∷ []

abbrev hidden_editor : List Bytes
hidden_editor = lit "[Desktop Entry]" ∷ lit "Hidden=true" ∷ []

abbrev dirs : List (Bytes × Entries)
dirs =
    (
      lit "/home/u",
      more (file (lit "b.desktop") (some editor))
          (more (file (lit "a.desktop") (some hidden_editor)) end),
    )
    ∷ (
      lit "/usr",
      more (directory (lit "k") none (more (file (lit "c.desktop") none) end))
          (more (file (lit "a.desktop") (some editor)) (more (file (lit ".d") none) end)),
    )
    ∷ []

-- A sort by insertion, for `qsort`.
insert_by : (App → App → Bool) → App → List App → List App
insert_by after x [] = x ∷ []
insert_by after x (y ∷ ys) =
    let rest = insert_by after x ys in if after x y then y ∷ rest else x ∷ y ∷ ys

sort_by : (App → App → Bool) → List App → List App
sort_by after [] = []
sort_by after (x ∷ xs) = insert_by after x (sort_by after xs)

insert_by-SameMembers :
    (after : App → App → Bool) (x : App) (ys : List App)
    → SameMembers (x ∷ ys) (insert_by after x ys)
unfolding insert_by
insert_by-SameMembers after x [] a = (λ m. m, λ m. m)
insert_by-SameMembers after x (y ∷ ys) a = elim (Bool-cases (after x y)) [
  | inr e ↦ rw e (λ m. m, λ m. m)
  | inl e ↦
      let same = insert_by-SameMembers after x ys a in
      rw e (
        λ m. elim (cases_cons m) [
          | inl i ↦ tail (same.0 (head i))
          | inr n ↦ elim (cases_cons n) [ inl i ↦ head i | inr l ↦ tail (same.0 (tail l)) ]
        ],
        λ m. elim (cases_cons m) [
          | inl i ↦ tail (head i)
          | inr n ↦ elim (cases_cons (same.1 n)) [ inl i ↦ head i | inr l ↦ tail (tail l) ]
        ],
      )
]

sort_by-SameMembers : (after : App → App → Bool) (xs : List App) → SameMembers xs (sort_by after xs)
unfolding sort_by
sort_by-SameMembers after [] a = (λ m. m, λ m. m)
sort_by-SameMembers after (x ∷ xs) a =
    let same = sort_by-SameMembers after xs a in
    let put = insert_by-SameMembers after x (sort_by after xs) a in
    (
      λ m. put.0 (elim (cases_cons m) [ inl i ↦ head i | inr n ↦ tail (same.0 n) ]),
      λ m. elim (cases_cons (put.1 m)) [ inl i ↦ head i | inr n ↦ tail (same.1 n) ],
    )

build_apps-FirstShown_example :
    FirstShown
      (all_apps italian 4096 dirs)
      (build_apps (sort_by by_id) (sort_by by_name) italian 4096 dirs)
unfolding sort_by insert_by by_id scan_dirs scan_apps read_app bytes_less
build_apps-FirstShown_example =
    build_apps-FirstShown (sort_by by_id) (sort_by by_name) italian 4096 dirs
      (sort_by-SameMembers by_id) (sort_by-SameMembers by_name)
      ((refl, (refl, tt)), ((refl, tt), (tt, tt)))

abbrev ids : List App → List Bytes
ids [] = []
ids (app ∷ apps) = app.id ∷ ids apps

-- The hidden application of the user does not hide that of the system.
build_apps_test :
    ids (build_apps (sort_by by_id) (sort_by by_name) italian 4096 dirs)
    ≡ lit "a.desktop" ∷ lit "b.desktop" ∷ []
unfolding sort_by insert_by by_id scan_dirs scan_apps read_app bytes_less build_apps keep read_line
    read_lines read_field read_gname name_rank trim
build_apps_test = refl

read_app-name_example :
    ((read_app italian (lit "a") 0 editor).name ≡ some (lit "Redattore"))
    × ((read_app italian (lit "a") 0 editor).gname ≡ some (lit "Editor"))
unfolding name_rank trim
read_app-name_example = read_app-name italian (lit "a") 0 editor

app_exec-write_example :
    (app_exec (lit "a\\s\\\\\\n%%%f") ≡ 97 ∷ 32 ∷ 92 ∷ 10 ∷ 37 ∷ [])
    × (length (app_exec (lit "%u b")) ≤ 4)
app_exec-write_example =
    app_exec-write (plain 97 ∷ blank ∷ escaped 92 ∷ newline ∷ percent ∷ field 102 ∷ []) (lit "%u b")
      (refl, refl, (refl, refl, refl, (refl, tt)))

app_dirs_test :
    tokens (app_dirs (some (lit "/h")) none (some []))
    ≡ lit "/h/.local/share/applications"
      ∷ lit "/usr/local/share/applications"
      ∷ lit "/usr/share/applications"
      ∷ []
unfolding tokens app_dirs
app_dirs_test = refl

search_path_test :
    search_path (some (lit "/bin")) (some (lit "/h")) (some (lit "~/bin::/opt"))
    ≡ lit "/bin:/h/bin:/opt"
unfolding tokens search_path
search_path_test = refl

build_cache_test :
    build_cache (λ l. l) (lit "a" ∷ lit "b" ∷ lit "b" ∷ lit "c" ∷ [])
    ≡ lit "a" ∷ lit "b" ∷ lit "c" ∷ []
unfolding build_cache unique
build_cache_test = refl
