-- ===== src/Match/Filter/Tests.antt =====
-- src/desktop/runner/match.c: runs on concrete candidates.
use mathlib.Core.List.{Memᴰ}
use mathlib.Core.Logic.{◌↔◌}
use g0wm.Common.{ℕ, suc, zero, ◌+◌, ◌≡◌, refl, true, false, none, some, [], ◌∷◌, Bytes, arith}
use g0wm.Settings.Types.{lit}
use g0wm.Match.{choose, fold_case, walk, score}
use g0wm.Match.Mode.{line_mode}
use g0wm.Match.Filter.{
  run_mode, tag_mode, windows, read_entries, expand_home, Offered, set_source, best_score,
  use_points, matches_from, by_score, filter,
}
use g0wm.Match.Filter.Lists.{IsCandidate, filter-lists}
use g0wm.Match.Filter.Exact.{by_score-exact}

abbrev offered : Offered
offered = record {
  apps = [];
  app_use = λ i. 0;
  commands = lit "cat" ∷ lit "cut" ∷ lit "touch" ∷ [];
  command_use = λ i. i;
  focus_stack = [];
  tags = lit "1" ∷ lit "2" ∷ [];
  entries = [];
}

filter-lists_example :
    Memᴰ 2 (filter (λ ms. ms) true offered false run_mode (lit "uc"))
    ↔ IsCandidate true true (set_source offered run_mode) (lit "uc") 2
filter-lists_example =
    filter-lists (λ ms. ms) true offered run_mode (lit "uc") 2 (λ ms m. (λ k. k, λ k. k)) refl

filter_test : filter (λ ms. ms) true offered false run_mode (lit "uc") ≡ 2 ∷ []
unfolding filter set_source matches_from best_score score walk fold_case
filter_test = refl

filter_empty : filter (λ ms. ms) true offered false tag_mode [] ≡ 0 ∷ 1 ∷ []
unfolding filter set_source
filter_empty = refl

by_score-exact_example :
    by_score
      (record {
        index = 1;
        points =
            best_score true true none (lit "scat") (lit "cat") + use_points (some (λ i. 99999)) 1;
      })
      (record {
        index = 0;
        points =
            best_score true true none (lit "cat") (lit "cat") + use_points (some (λ i. 99999)) 0;
      })
    ≡ true
by_score-exact_example =
    by_score-exact true true (some (λ i. 99999)) (lit "cat") 0 1 none none (lit "cat") (lit "scat")
      (omega arith) refl refl

windows_test :
    windows (
      record { unmanaged = false; has_monitor = true; app_id = lit "foot"; title = lit "vi" }
      ∷ record { unmanaged = true; has_monitor = true; app_id = lit "menu"; title = [] }
      ∷ record { unmanaged = false; has_monitor = true; app_id = lit "mpv"; title = lit "mpv" }
      ∷ [])
    ≡ lit "foot: vi" ∷ lit "mpv" ∷ []
unfolding windows
windows_test = refl

read_entries_test :
    read_entries false (
      record { d_name = lit ".."; is_directory = true }
      ∷ record { d_name = lit ".git"; is_directory = true }
      ∷ record { d_name = lit "src"; is_directory = true }
      ∷ record { d_name = lit "LICENSE"; is_directory = false }
      ∷ [])
    ≡ lit "src/" ∷ lit "LICENSE" ∷ []
unfolding read_entries
read_entries_test = refl

expand_home_test : expand_home (some (lit "/home/u")) (lit "~/doc") ≡ lit "/home/u/doc"
unfolding expand_home
expand_home_test = refl

abbrev prefixes : ℕ → Bytes
prefixes (suc zero) = lit "!"
prefixes _ = []

line_mode_run : line_mode prefixes (λ m. true) true (lit "!  ls") ≡ (1, 3)
unfolding line_mode choose
line_mode_run = refl

line_mode_file : line_mode prefixes (λ m. true) true (lit "~/a/b") ≡ (7, 4)
unfolding line_mode choose
line_mode_file = refl
