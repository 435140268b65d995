-- ===== src/Window/Order/Cycle.antt =====
-- `layout_focus_stack`: a step forward and a step backward round the visible clients undo each other.
use mathlib.Core.List.{append_assoc, append-nil}
use g0wm.Common.{
  ℕ, ◌≡◌, refl, sym, ap, ◌∙◌, Bool, true, false, ◌⊎◌, inl, inr, List, [], ◌∷◌, ◌++◌, arith, mem,
  Distinct, none, some, find, ◌==◌, Option-cases, Bool-cases, Distinct-append,
}
use g0wm.Window.Order.{next_visible, prev_visible, before, behind, backwards, or_self}

-- No entry passes the test.
abbrev NoneOf : (ℕ → Bool) → List ℕ → Type 0
NoneOf p [] = Unit {0}
NoneOf p (x ∷ xs) = (p x ≡ false) × NoneOf p xs

-- What is found, with the entries passed on the way.
find-split :
    (p : ℕ → Bool) (xs : List ℕ)
    → (c : ℕ) → find p xs ≡ some c
    → (ys : List ℕ) × (zs : List ℕ) × (xs ≡ ys ++ c ∷ zs) × NoneOf p ys × (p c ≡ true)
find-split p [] c e = cc
find-split p (x ∷ xs) c e = elim (Bool-cases (p x)) [
  | inl k ↦ ([], xs, ground arith, tt, ground arith)
  | inr k ↦
      let (ys, zs, eq, before_c, at_c) = find-split p xs c (ground arith) in
      (x ∷ ys, zs, ap (◌∷◌ x) eq, (k, before_c), at_c)
]

find-none : (p : ℕ → Bool) (xs : List ℕ) → find p xs ≡ none → NoneOf p xs
find-none p [] e = tt
find-none p (x ∷ xs) e = (ground arith, find-none p xs (ground arith))

find-append : (p : ℕ → Bool) (xs ys : List ℕ) → NoneOf p xs → find p (xs ++ ys) ≡ find p ys
find-append p [] ys h = refl
find-append p (x ∷ xs) ys h = rw h.0 (find-append p xs ys h.1)

find-first :
    (p : ℕ → Bool) (c : ℕ) (xs ys : List ℕ) → find p xs ≡ some c → find p (xs ++ ys) ≡ some c
find-first p c [] ys e = cc
find-first p c (x ∷ xs) ys e = ground (arith, find-first p c xs ys)

append-NoneOf : (p : ℕ → Bool) (xs ys : List ℕ) → NoneOf p xs → NoneOf p ys → NoneOf p (xs ++ ys)
append-NoneOf p [] ys h k = k
append-NoneOf p (x ∷ xs) ys h k = (h.0, append-NoneOf p xs ys h.1 k)

backwards-NoneOf : (p : ℕ → Bool) (xs : List ℕ) → NoneOf p xs → NoneOf p (backwards xs)
backwards-NoneOf p [] h = tt
backwards-NoneOf p (x ∷ xs) h =
    append-NoneOf p (backwards xs) (x ∷ []) (backwards-NoneOf p xs h.1) (h.0, tt)

backwards-append : (xs ys : List ℕ) → backwards (xs ++ ys) ≡ backwards ys ++ backwards xs
backwards-append [] ys = sym (append-nil (backwards ys))
backwards-append (x ∷ xs) ys =
    rw (backwards-append xs ys) (append_assoc (backwards ys) (backwards xs) (x ∷ []))

before-append : (c : ℕ) (xs zs : List ℕ) → mem c xs ≡ false → before c (xs ++ c ∷ zs) ≡ xs
before-append c [] zs h = ground arith
before-append c (x ∷ xs) zs h = ground (arith, before-append c xs zs)

behind-append : (c : ℕ) (xs zs : List ℕ) → mem c xs ≡ false → behind c (xs ++ c ∷ zs) ≡ zs
behind-append c [] zs h = ground arith
behind-append c (x ∷ xs) zs h = ground (arith, behind-append c xs zs)

mem-split :
    (c : ℕ) (xs : List ℕ) → mem c xs ≡ true → (l : List ℕ) × (r : List ℕ) × (xs ≡ l ++ c ∷ r)
mem-split c [] h = cc
mem-split c (x ∷ xs) h = elim (Bool-cases (x == c)) [
  | inl e ↦ ([], xs, ground arith)
  | inr e ↦ let (l, r, eq) = mem-split c xs (ground arith) in (x ∷ l, r, ap (◌∷◌ x) eq)
]

Distinct-mid : (c : ℕ) (l r : List ℕ) → Distinct (l ++ c ∷ r) → mem c l ≡ false
Distinct-mid c l r d = let (_, _, apart) = Distinct-append l (c ∷ r) d in ground (arith, apart c)

-- Seen from behind, the last visible entry comes first.
find-backwards :
    (p : ℕ → Bool) (c : ℕ) (l r rest : List ℕ)
    → NoneOf p r
    → p c ≡ true
    → find p (backwards (l ++ c ∷ r) ++ rest) ≡ some c
find-backwards p c l r rest h k =
    rw
      (
        backwards-append l (c ∷ r),
        append_assoc (backwards r) (c ∷ []) (backwards l),
        append_assoc (backwards r) (c ∷ backwards l) rest,
        find-append p (backwards r) (c ∷ (backwards l ++ rest)) (backwards-NoneOf p r h),
        k,
      )
      refl

find-NoneOf : (p : ℕ → Bool) (xs : List ℕ) → NoneOf p xs → find p xs ≡ none
find-NoneOf p [] h = refl
find-NoneOf p (x ∷ xs) h = rw h.0 (find-NoneOf p xs h.1)

-- The three places where the walk can end.
module _ (p : ℕ → Bool) (sel : ℕ) (k : p sel ≡ true) where
  ends_behind :
      (c : ℕ) (l ys zs : List ℕ)
      → Distinct ((l ++ sel ∷ ys) ++ c ∷ zs)
      → NoneOf p ys
      → prev_visible p c ((l ++ sel ∷ ys) ++ c ∷ zs) ≡ sel
  unfolding prev_visible
  ends_behind c l ys zs d h =
      let m = Distinct-mid c (l ++ sel ∷ ys) zs d in
      rw
        (
          before-append c (l ++ sel ∷ ys) zs m,
          find-backwards p sel l ys (backwards (behind c ((l ++ sel ∷ ys) ++ c ∷ zs))) h k,
        )
        refl

  ends_before :
      (c : ℕ) (ys zs r : List ℕ)
      → Distinct (ys ++ c ∷ (zs ++ sel ∷ r))
      → NoneOf p ys
      → NoneOf p r
      → prev_visible p c (ys ++ c ∷ (zs ++ sel ∷ r)) ≡ sel
  unfolding prev_visible
  ends_before c ys zs r d h h' =
      let m = Distinct-mid c ys (zs ++ sel ∷ r) d in
      let last = find-backwards p sel zs r [] h' k in
      rw
        (
          before-append c ys (zs ++ sel ∷ r) m,
          behind-append c ys (zs ++ sel ∷ r) m,
          find-append p (backwards ys) (backwards (zs ++ sel ∷ r)) (backwards-NoneOf p ys h),
          ← append-nil (backwards (zs ++ sel ∷ r)),
          last,
        )
        refl

  stays :
      (l r : List ℕ)
      → Distinct (l ++ sel ∷ r)
      → NoneOf p l
      → NoneOf p r
      → prev_visible p sel (l ++ sel ∷ r) ≡ sel
  unfolding prev_visible
  stays l r d h h' =
      let m = Distinct-mid sel l r d in
      rw
        (
          before-append sel l r m,
          behind-append sel l r m,
          find-NoneOf p (backwards l ++ backwards r) (
              append-NoneOf p (backwards l) (backwards r) (backwards-NoneOf p l h)
                (backwards-NoneOf p r h')),
        )
        refl

  next-split :
      (l r : List ℕ)
      → Distinct (l ++ sel ∷ r)
      → next_visible p sel (l ++ sel ∷ r) ≡ or_self (find p (r ++ l)) sel
  unfolding next_visible
  next-split l r d =
      let m = Distinct-mid sel l r d in rw (before-append sel l r m, behind-append sel l r m) refl

  past_end :
      (l r : List ℕ)
      → Distinct (l ++ sel ∷ r)
      → NoneOf p r
      → (find p l ≡ none) ⊎ ((c : ℕ) × (find p l ≡ some c))
      → prev_visible p (next_visible p sel (l ++ sel ∷ r)) (l ++ sel ∷ r) ≡ sel
  past_end l r d h (inl e) =
      let next = next-split l r d ∙ ap (λ o. or_self o sel) (find-append p r l h ∙ e) in
      rw next (stays l r d (find-none p l e) h)
  past_end l r d h (inr (c, e)) =
      let (ys, zs, eq, h', _) = find-split p l c e in
      let order : l ++ sel ∷ r ≡ ys ++ c ∷ (zs ++ sel ∷ r) =
        rw eq (append_assoc ys (c ∷ zs) (sel ∷ r)) in
      let next = next-split l r d ∙ ap (λ o. or_self o sel) (find-append p r l h ∙ e) in
      rw (next, order) (ends_before c ys zs r (rw (← order) d) h' h)

  from_split :
      (l r : List ℕ)
      → Distinct (l ++ sel ∷ r)
      → prev_visible p (next_visible p sel (l ++ sel ∷ r)) (l ++ sel ∷ r) ≡ sel
  from_split l r d = elim (Option-cases (find p r)) [
    | inr (c, e) ↦
        let (ys, zs, eq, h, _) = find-split p r c e in
        let order : l ++ sel ∷ r ≡ (l ++ sel ∷ ys) ++ c ∷ zs =
          rw eq (sym (append_assoc l (sel ∷ ys) (c ∷ zs))) in
        let next = next-split l r d ∙ ap (λ o. or_self o sel) (find-first p c r l e) in
        rw (next, order) (ends_behind c l ys zs (rw (← order) d) h)
    | inl e ↦ past_end l r d (find-none p r e) (Option-cases (find p l))
  ]

-- Where no client stands twice, a step forward from a visible client and then a step backward lead
-- back to it, also past the ends of the list.
pub prev_visible-next_visible :
    (p : ℕ → Bool) (sel : ℕ) (xs : List ℕ)
    → Distinct xs
    → mem sel xs ≡ true
    → p sel ≡ true
    → prev_visible p (next_visible p sel xs) xs ≡ sel
prev_visible-next_visible p sel xs d m k =
    let (l, r, eq) = mem-split sel xs m in rw eq (from_split p sel k l r (rw (sym eq) d))
