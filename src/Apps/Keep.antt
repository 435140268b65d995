-- ===== src/Apps/Keep.antt =====
-- src/desktop/runner/apps.c: proofs on the loop that keeps one application for each id.
use mathlib.Core.Path.{subst}
use mathlib.Core.Option.{some-injective}
use mathlib.Core.List.{Memᴰ}
use mathlib.Core.List.Memᴰ.{head, tail, cases_cons, not-nil}
use g0wm.Common.{
  ◌≤◌, ◌≡◌, ◌≢◌, refl, sym, ap, ◌∙◌, ◌⊎◌, inl, inr, true, false, Option, none, some, List, [], ◌∷◌,
  Bytes, bytes_eq, bytes_eq_refl, bytes_eq_sound, arith, Bool-cases,
}
use g0wm.Apps.Desktop.{App}
use g0wm.Apps.Scan.{bytes_less, by_id, is_last, keep}

-- What holds of each entry.
abbrev All : (App → Type 0) → List App → Type 0
All P [] = Unit {0}
All P (x ∷ xs) = P x × All P xs

all : (P : App → Type 0) (x : App) (xs : List App) → All P xs → Memᴰ x xs → P x
all P x [] h m = absurd (not-nil m)
all P x (y ∷ ys) h m = elim (cases_cons m) [
  | inl e ↦ subst P (sym e) h.0
  | inr n ↦ all P x ys h.1 n
]

-- In the order of `runner_by_id`.
abbrev pub InOrder : List App → Type 0
InOrder [] = Unit {0}
InOrder (x ∷ xs) = All (λ y. by_id x y ≡ false) xs × InOrder xs

bytes_less-antisym : (a b : Bytes) → bytes_less a b ≡ false → bytes_less b a ≡ false → a ≡ b
unfolding bytes_less
bytes_less-antisym [] [] h k = refl
bytes_less-antisym [] (y ∷ ys) h k = cc
bytes_less-antisym (x ∷ xs) [] h k = cc
bytes_less-antisym (x ∷ xs) (y ∷ ys) h k = ground (arith, bytes_less-antisym xs ys)

bytes_less_irrefl : (a : Bytes) → bytes_less a a ≡ false
unfolding bytes_less
bytes_less_irrefl [] = refl
bytes_less_irrefl (x ∷ xs) = ground (arith, bytes_less_irrefl xs)

-- What the order says of two ids, and of two places in the order of the scan.
by_id-ids : (x y : App) → by_id x y ≡ false → bytes_less y.id x.id ≡ false
unfolding by_id
by_id-ids x y h = elim (Bool-cases (bytes_eq x.id y.id)) [
  | inl e ↦ rw (bytes_eq_sound x.id y.id e) (bytes_less_irrefl y.id)
  | inr e ↦ ground (arith, h, e)
]

by_id-order : (x y : App) → by_id x y ≡ false → x.id ≡ y.id → x.order ≤ y.order
unfolding by_id
by_id-order x y h e =
    let same : bytes_eq x.id y.id ≡ true = rw e (bytes_eq_refl y.id) in ground (arith, h, same)

-- Another id than the last one.
abbrev Differs : Option Bytes → Bytes → Type 0
Differs none id = Unit {0}
Differs (some last) id = id ≢ last

-- No id of the list stands before the last one.
abbrev Behind : Option Bytes → List App → Type 0
Behind none apps = Unit {0}
Behind (some last) apps = All (λ y. bytes_less y.id last ≡ false) apps

is_last-Differs : (last : Option Bytes) (id : Bytes) → is_last last id ≡ false → Differs last id
is_last-Differs none id h = tt
is_last-Differs (some last) id h =
    λ e. absurd (ground (arith, h, ap (bytes_eq last) e ∙ bytes_eq_refl last))

last_of : (last : Option Bytes) (id : Bytes) → is_last last id ≡ true → last ≡ some id
last_of none id h = cc h
last_of (some last) id h = ap some (bytes_eq_sound last id h)

Behind-tail :
    (last : Option Bytes) (x : App) (xs : List App) → Behind last (x ∷ xs) → Behind last xs
Behind-tail none x xs h = tt
Behind-tail (some last) x xs h = h.1

All-Behind : (x : App) (xs : List App) → All (λ y. by_id x y ≡ false) xs → Behind (some x.id) xs
All-Behind x [] h = tt
All-Behind x (y ∷ ys) h = (by_id-ids x y h.0, All-Behind x ys h.1)

-- Whatever the list begins with: it is dropped, or it is kept and the last one then.
data Choice (last : Option Bytes) (x : App) (xs : List App) : Type 0 where
  dropped :
      (is_last last x.id ≡ true) ⊎ (x.hide ≡ true)
      → keep last (x ∷ xs) ≡ keep last xs
      → Choice last x xs
  kept :
      is_last last x.id ≡ false
      → x.hide ≡ false
      → keep last (x ∷ xs) ≡ x ∷ keep (some x.id) xs
      → Choice last x xs

choice : (last : Option Bytes) (x : App) (xs : List App) → Choice last x xs
unfolding keep
choice last x xs = elim (Bool-cases (is_last last x.id)) [
  | inl e ↦ dropped (inl e) (rw e refl)
  | inr e ↦ elim (Bool-cases x.hide) [
    | inl h ↦ dropped (inr h) (rw (e, h) refl)
    | inr h ↦ kept e h (rw (e, h) refl)
  ]
]

pub keep-Memᴰ :
    (last : Option Bytes) (xs : List App) (c : App)
    → Memᴰ c (keep last xs)
    → Memᴰ c xs × (c.hide ≡ false)
unfolding keep
keep-Memᴰ last [] c m = absurd (not-nil m)
keep-Memᴰ last (x ∷ xs) c m = elim (choice last x xs) [
  | dropped why e ↦
      let further = keep-Memᴰ last xs c (subst (Memᴰ c) e m) in (tail further.0, further.1)
  | kept new shown e ↦ elim (cases_cons (subst (Memᴰ c) e m)) [
    | inl same ↦ (head same, ap App.hide same ∙ shown)
    | inr n ↦ let further = keep-Memᴰ (some x.id) xs c n in (tail further.0, further.1)
  ]
]

keep-Differs :
    (last : Option Bytes) (xs : List App) (c : App)
    → InOrder xs
    → Behind last xs
    → Memᴰ c (keep last xs)
    → Differs last c.id
unfolding keep
keep-Differs last [] c o b m = absurd (not-nil m)
keep-Differs none (x ∷ xs) c o b m = tt
keep-Differs (some last) (x ∷ xs) c o b m = elim (choice (some last) x xs) [
  | dropped why e ↦ keep-Differs (some last) xs c o.1 b.1 (subst (Memᴰ c) e m)
  | kept new shown e ↦ elim (cases_cons (subst (Memᴰ c) e m)) [
    | inl same ↦ λ i. is_last-Differs (some last) x.id new (sym (ap App.id same) ∙ i)
    | inr n ↦ λ i.
        let there = (keep-Memᴰ (some x.id) xs c n).0 in
        let behind = by_id-ids x c (all (λ y. by_id x y ≡ false) c xs o.0 there) in
        is_last-Differs (some last) x.id new
          (bytes_less-antisym x.id last b.0 (subst (λ id. bytes_less id x.id ≡ false) i behind))
  ]
]

pub keep-order :
    (last : Option Bytes) (xs : List App) (b c : App)
    → InOrder xs
    → Behind last xs
    → Memᴰ c (keep last xs)
    → Memᴰ b xs
    → b.hide ≡ false
    → c.id ≡ b.id
    → c.order ≤ b.order
unfolding keep
keep-order last [] b c o h m n shown i = absurd (not-nil m)
keep-order last (x ∷ xs) b c o h m n shown i = elim (choice last x xs) [
  | dropped why e ↦
      let there = subst (Memᴰ c) e m in
      elim (cases_cons n) [
        | inl same ↦ absurd (gone why there same)
        | inr later ↦ keep-order last xs b c o.1 (Behind-tail last x xs h) there later shown i
      ]
  | kept new x_shown e ↦ elim (cases_cons (subst (Memᴰ c) e m)) [
    | inl first ↦ elim (cases_cons n) [
      | inl same ↦ rw (first, same) (omega arith)
      | inr later ↦
          let place = by_id-order x b (all (λ y. by_id x y ≡ false) b xs o.0 later) in
          rw first (place (sym (ap App.id first) ∙ i))
    ]
    | inr there ↦
        let behind = All-Behind x xs o.0 in
        elim (cases_cons n) [
          | inl same ↦ absurd (keep-Differs (some x.id) xs c o.1 behind there (i ∙ ap App.id same))
          | inr later ↦ keep-order (some x.id) xs b c o.1 behind there later shown i
        ]
  ]
]
  where
    gone : (is_last last x.id ≡ true) ⊎ (x.hide ≡ true) → Memᴰ c (keep last xs) → b ≡ x → ⊥
    gone (inl e) there same =
        subst (λ l. Differs l c.id) (last_of last x.id e)
          (keep-Differs last xs c o.1 (Behind-tail last x xs h) there) (i ∙ ap App.id same)
    gone (inr e) there same = cc (e, shown, same)

pub keep-one :
    (last : Option Bytes) (xs : List App) (b : App)
    → Memᴰ b xs
    → b.hide ≡ false
    → (last ≡ some b.id) ⊎ ((c : App) × Memᴰ c (keep last xs) × (c.id ≡ b.id))
unfolding keep
keep-one last [] b n shown = absurd (not-nil n)
keep-one last (x ∷ xs) b n shown = elim (choice last x xs) [
  | dropped why e ↦ elim (cases_cons n) [
    | inl same ↦ elim why [
      | inl l ↦ inl (last_of last x.id l ∙ ap some (sym (ap App.id same)))
      | inr hidden ↦ absurd (cc (hidden, shown, same))
    ]
    | inr later ↦ rw e (keep-one last xs b later shown)
  ]
  | kept new x_shown e ↦ rw e (elim (cases_cons n) [
    | inl same ↦ inr (x, head refl, sym (ap App.id same))
    | inr later ↦ elim (keep-one (some x.id) xs b later shown) [
      | inl l ↦ inr (x, head refl, some-injective x.id b.id l)
      | inr (c, there, i) ↦ inr (c, tail there, i)
    ]
  ])
]

pub keep_alone :
    (last : Option Bytes) (xs : List App) (c d : App)
    → InOrder xs
    → Memᴰ c (keep last xs)
    → Memᴰ d (keep last xs)
    → c.id ≡ d.id
    → c ≡ d
unfolding keep
keep_alone last [] c d o m n i = absurd (not-nil m)
keep_alone last (x ∷ xs) c d o m n i = elim (choice last x xs) [
  | dropped why e ↦ keep_alone last xs c d o.1 (subst (Memᴰ c) e m) (subst (Memᴰ d) e n) i
  | kept new shown e ↦
      let new_ids : (a : App) → Memᴰ a (keep (some x.id) xs) → a.id ≢ x.id =
        λ a there. keep-Differs (some x.id) xs a o.1 (All-Behind x xs o.0) there in
      elim (cases_cons (subst (Memᴰ c) e m)) [
        | inl p ↦ elim (cases_cons (subst (Memᴰ d) e n)) [
          | inl q ↦ p ∙ sym q
          | inr there ↦ absurd (new_ids d there (sym i ∙ ap App.id p))
        ]
        | inr here ↦ elim (cases_cons (subst (Memᴰ d) e n)) [
          | inl q ↦ absurd (new_ids c here (i ∙ ap App.id q))
          | inr there ↦ keep_alone (some x.id) xs c d o.1 here there i
        ]
      ]
]
