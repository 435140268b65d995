-- ===== src/Bar/Row.antt =====
-- src/desktop/bar/title.c: proofs on the tabs in their row.
use mathlib.Core.Path.{subst}
use native.Mathlib.Nat.{mul-div_left, div-mul-le_self, le-div_iff_mul-le}
use g0wm.Common.{
  ℕ, suc, ◌+◌, ◌-◌, ◌*◌, ◌/◌, ◌≤◌, ◌≡◌, refl, sym, ap, ◌∙◌, Bool, true, false, not, ◌&&◌, List, [],
  ◌∷◌, ◌==◌, length, arith, if◌then◌else◌,
}
use g0wm.Bar.{count_tabs, slice, place_title_bar}

-- No client stands twice.
abbrev lacks : ℕ → List ℕ → Bool
lacks client [] = true
lacks client (other ∷ clients) = not (client == other) && lacks client clients

abbrev pub Distinct : List ℕ → Type 0
Distinct [] = Unit {0}
Distinct (client ∷ clients) = (lacks client clients ≡ true) × Distinct clients

-- From `x` on each title bar starts where the one before it ends, and the last one ends at the end.
abbrev pub FillsRow : ℕ → ℕ → List (ℕ × ℕ) → Type 0
FillsRow width x [] = x ≡ width
FillsRow width x ((titlex, titlew) ∷ bars) = (titlex ≡ x) × FillsRow width (x + titlew) bars

abbrev pub bars_of : (ℕ → ℕ × ℕ) → List ℕ → List (ℕ × ℕ)
bars_of place [] = []
bars_of place (client ∷ clients) = place client ∷ bars_of place clients

-- The clients have the indices from `k` on.
abbrev Positions : (ℕ → ℕ) → List ℕ → ℕ → Type 0
Positions at [] k = Unit {0}
Positions at (client ∷ clients) k = (at client ≡ k) × Positions at clients (suc k)

count_tabs-count :
    (clients : List ℕ) (client i k : ℕ) → (count_tabs clients client i k).1 ≡ k + length clients
unfolding count_tabs
count_tabs-count [] client i k = ground arith
count_tabs-count (other ∷ clients) client i k =
    count_tabs-count clients client (if other == client then k else i) (suc k) ∙ ground arith

count_tabs-lacks :
    (clients : List ℕ) (client i k : ℕ)
    → lacks client clients ≡ true
    → (count_tabs clients client i k).0 ≡ i
unfolding count_tabs
count_tabs-lacks [] client i k h = refl
count_tabs-lacks (other ∷ clients) client i k h =
    let apart : (other == client) ≡ false = ground (arith, h) in
    rw (count_tabs, apart) (count_tabs-lacks clients client i (suc k) (ground (arith, h)))

-- A client in front that is another one changes no index.
Positions-behind :
    (all clients : List ℕ) (other i k j : ℕ)
    → lacks other clients ≡ true
    → Positions (λ c. (count_tabs all c i (suc k)).0) clients j
    → Positions (λ c. (count_tabs (other ∷ all) c i k).0) clients j
unfolding count_tabs
Positions-behind all [] other i k j h p = tt
Positions-behind all (client ∷ clients) other i k j h p =
    let apart : (other == client) ≡ false = ground (arith, h) in
    (
      rw (count_tabs, apart) p.0,
      Positions-behind all clients other i k (suc j) (ground (arith, h)) p.1,
    )

count_tabs-Positions :
    (clients : List ℕ) (i k : ℕ)
    → Distinct clients
    → Positions (λ c. (count_tabs clients c i k).0) clients k
unfolding count_tabs
count_tabs-Positions [] i k d = tt
count_tabs-Positions (client ∷ clients) i k d =
    let self : (client == client) ≡ true = ground arith in
    (
      rw (count_tabs, self) (count_tabs-lacks clients client k (suc k) d.0),
      Positions-behind clients clients client i k (suc k) d.0
          (count_tabs-Positions clients i (suc k) d.1),
    )

div_grows : (width i n : ℕ) → width * i / suc n ≤ width * (i + 1) / suc n
div_grows width i n =
    (le-div_iff_mul-le (ground arith)).1 (grind (arith, div-mul-le_self (width * i) (suc n)))

slice-tab :
    (width n k : ℕ)
    → slice width (k, suc n) ≡ (width * k / suc n, width * (k + 1) / suc n - width * k / suc n)
unfolding slice
slice-tab width n k = let some_tabs : (suc n == 0) ≡ false = ground arith in rw some_tabs refl

-- Where a tab ends the next one starts.
tab_end :
    (width n k : ℕ)
    → width * k / suc n + (width * (k + 1) / suc n - width * k / suc n) ≡ width * suc k / suc n
tab_end width n k =
    let more = div_grows width k n in
    let next : k + 1 ≡ suc k = omega arith in
    let same : width * k / suc n + (width * (k + 1) / suc n - width * k / suc n)
        ≡ width * (k + 1) / suc n =
      ground (arith, more) in
    same ∙ ap (λ m. width * m / suc n) next

row_filled :
    (width n : ℕ) (place : ℕ → ℕ × ℕ) (clients : List ℕ) (k : ℕ)
    → suc n ≡ k + length clients
    → Positions (λ c. (place c).0) clients k
    → ((client : ℕ) → (place client).1 ≡ suc n)
    → FillsRow width (width * k / suc n) (bars_of (λ c. slice width (place c)) clients)
unfolding slice
row_filled width n place [] k e p c =
    let all : suc n ≡ k = ground (arith, e) in
    subst (λ m. width * m / suc n ≡ width) all (mul-div_left width (ground arith))
row_filled width n place (client ∷ clients) k e p c =
    let rest = row_filled width n place clients (suc k) (ground (arith, e)) p.1 c in
    let here : slice width (place client)
        ≡ (width * k / suc n, width * (k + 1) / suc n - width * k / suc n) =
      ap (slice width) (λ i. (p.0 i, c client i)) ∙ slice-tab width n k in
    (
      ap (λ s. s.0) here,
      subst (λ x. FillsRow width x (bars_of (λ c. slice width (place c)) clients))
          (sym (ap (λ s. width * k / suc n + s.1) here ∙ tab_end width n k)) rest,
    )

-- In the tabbed layout the title bars of the clients, of which none stands twice, fill the row: the
-- first one starts at its left end, each starts where the one before it ends, and the last one ends at
-- the right end.
pub place_title_bar-FillsRow :
    (width client : ℕ) (clients : List ℕ)
    → Distinct (client ∷ clients)
    → FillsRow width 0 (bars_of (place_title_bar true width (client ∷ clients)) (client ∷ clients))
unfolding place_title_bar
place_title_bar-FillsRow width client clients d =
    let all = client ∷ clients in
    let n = length clients in
    let filled =
      row_filled width n (λ c. count_tabs all c 0 0) all 0 (ground arith)
        (count_tabs-Positions all 0 0 d) (λ c. count_tabs-count all c 0 0 ∙ ground arith) in
    let left : width * 0 / suc n ≡ 0 = grind arith in
    subst (λ x. FillsRow width x (bars_of (λ c. slice width (count_tabs all c 0 0)) all)) left
      filled
