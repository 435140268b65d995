-- ===== src/Apps/Choice.antt =====
-- src/desktop/runner/apps.c: proofs on which applications the runner offers.
use mathlib.Core.List.{Memᴰ}
use g0wm.Common.{ℕ, ◌≤◌, ◌≡◌, false, inl, inr, none, List, Bytes}
use g0wm.Apps.Desktop.{App, Locale}
use g0wm.Apps.Scan.{Entries, all_apps, keep, build_apps}
use g0wm.Apps.Keep.{InOrder, keep-Memᴰ, keep-order, keep-one, keep_alone}

-- The same applications, in any order.
abbrev pub SameMembers : List App → List App → Type 0
SameMembers xs ys = (a : App) → (Memᴰ a xs → Memᴰ a ys) × (Memᴰ a ys → Memᴰ a xs)

-- Of each id the application that was found first of those that are not hidden, and no other.
pub record FirstShown (found offered : List App) : Type 0 where
  pub shown : (c : App) → Memᴰ c offered → Memᴰ c found × (c.hide ≡ false)
  pub earliest :
      (b c : App) → Memᴰ c offered → Memᴰ b found → b.hide ≡ false → c.id ≡ b.id → c.order ≤ b.order
  pub one : (b : App) → Memᴰ b found → b.hide ≡ false → (c : App) × Memᴰ c offered × (c.id ≡ b.id)
  pub alone : (c d : App) → Memᴰ c offered → Memᴰ d offered → c.id ≡ d.id → c ≡ d

keep-FirstShown :
    (found sorted : List App)
    → SameMembers found sorted
    → InOrder sorted
    → FirstShown found (keep none sorted)
keep-FirstShown found sorted same o = record {
  shown = λ c m. let k = keep-Memᴰ none sorted c m in ((same c).1 k.0, k.1);
  earliest = λ b c m n shown i. keep-order none sorted b c o tt m ((same b).0 n) shown i;
  one = λ b n shown. elim (keep-one none sorted b ((same b).0 n) shown) [
    | inl l ↦ absurd (cc l)
    | inr c ↦ c
  ];
  alone = λ c d m n i. keep_alone none sorted c d o m n i;
}

FirstShown-members :
    (found chosen offered : List App)
    → SameMembers chosen offered
    → FirstShown found chosen
    → FirstShown found offered
FirstShown-members found chosen offered same f = record {
  shown = λ c m. f.shown c ((same c).1 m);
  earliest = λ b c m n shown i. f.earliest b c ((same c).1 m) n shown i;
  one = λ b n shown. let c = f.one b n shown in (c.0, (same c.0).0 c.1, c.2);
  alone = λ c d m n i. f.alone c d ((same c).1 m) ((same d).1 n) i;
}

-- The runner offers of each id the application that was found first of those that are not hidden, so
-- that a hidden one before it does not hide it; if the sorts keep the members and the first one puts
-- the applications in order.
pub build_apps-FirstShown :
    (sort_by_id sort_by_name : List App → List App) (e : Locale) (path_max : ℕ)
    (dirs : List (Bytes × Entries))
    → ((l : List App) → SameMembers l (sort_by_id l))
    → ((l : List App) → SameMembers l (sort_by_name l))
    → InOrder (sort_by_id (all_apps e path_max dirs))
    → FirstShown (all_apps e path_max dirs) (build_apps sort_by_id sort_by_name e path_max dirs)
unfolding build_apps
build_apps-FirstShown sort_by_id sort_by_name e path_max dirs same_id same_name o =
    let found = all_apps e path_max dirs in
    let sorted = sort_by_id found in
    FirstShown-members found (keep none sorted) (sort_by_name (keep none sorted))
      (same_name (keep none sorted)) (keep-FirstShown found sorted (same_id found) o)
