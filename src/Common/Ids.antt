-- ===== src/Common/Ids.antt =====
-- Linked lists of the code as lists of names: `wl_list` of wayland-server, with `none` for the head
-- (the sentinel). The operations are what its documentation says.
use Prim.Native.Nat.{ℕ, ◌+◌}
use mathlib.Core.Path.{◌≡◌, refl}
use mathlib.Core.Bool.{Bool, true, false, ◌||◌}
use mathlib.Core.List.{List, [], ◌∷◌, ◌++◌}
use mathlib.Core.Option.{Option, none, some}
use native.Mathlib.Omega.{arith}
use g0wm.Common.Tests.{◌==◌, if◌then◌else◌}

abbrev pub mem : ℕ → List ℕ → Bool
mem a [] = false
mem a (x ∷ xs) = (x == a) || mem a xs

-- No name stands twice.
abbrev pub Distinct : List ℕ → Type 0
Distinct [] = Unit {0}
Distinct (x ∷ xs) = (mem x xs ≡ false) × Distinct xs

-- `wl_list_remove`
abbrev pub remove : ℕ → List ℕ → List ℕ
remove a [] = []
remove a (x ∷ xs) = if x == a then xs else x ∷ remove a xs

-- An entry put behind one that is not in the list is not in the list either.
abbrev pub insert_behind : ℕ → ℕ → List ℕ → List ℕ
insert_behind p a [] = []
insert_behind p a (x ∷ xs) = if x == p then x ∷ a ∷ xs else x ∷ insert_behind p a xs

-- `wl_list_insert(p, a)`
abbrev pub insert_after : Option ℕ → ℕ → List ℕ → List ℕ
insert_after none a xs = a ∷ xs
insert_after (some p) a xs = insert_behind p a xs

-- `link.prev` of `a`, where `p` stands before the list.
abbrev pub prev_from : Option ℕ → ℕ → List ℕ → Option ℕ
prev_from p a [] = none
prev_from p a (x ∷ xs) = if x == a then p else prev_from (some x) a xs

abbrev pub prev_of : ℕ → List ℕ → Option ℕ
prev_of a xs = prev_from none a xs

-- The last entry, which is `link.prev` of the head.
abbrev pub last_or : Option ℕ → List ℕ → Option ℕ
last_or p [] = p
last_or p (x ∷ xs) = last_or (some x) xs

abbrev pub occurrences : ℕ → List ℕ → ℕ
occurrences a [] = 0
occurrences a (x ∷ xs) = (if x == a then 1 else 0) + occurrences a xs

-- The first entry that passes the test.
abbrev pub find : (ℕ → Bool) → List ℕ → Option ℕ
find p [] = none
find p (x ∷ xs) = if p x then some x else find p xs

pub prev_from-append :
    (p : Option ℕ) (a : ℕ) (xs zs : List ℕ)
    → mem a xs ≡ false
    → prev_from p a (xs ++ a ∷ zs) ≡ last_or p xs
prev_from-append p a [] zs h = ground arith
prev_from-append p a (x ∷ xs) zs h = ground (arith, prev_from-append (some x) a xs zs)

pub remove-append : (a : ℕ) (xs zs : List ℕ) → mem a xs ≡ false → remove a (xs ++ a ∷ zs) ≡ xs ++ zs
remove-append a [] zs h = ground arith
remove-append a (x ∷ xs) zs h = ground (arith, remove-append a xs zs)

pub mem_ne : (a b : ℕ) (xs : List ℕ) → mem a xs ≡ false → mem b xs ≡ true → (a == b) ≡ false
mem_ne a b [] h k = cc
mem_ne a b (x ∷ xs) h k = ground (arith, mem_ne a b xs)

pub last_or-mem :
    (x : ℕ) (xs : List ℕ) → (l : ℕ) × (last_or (some x) xs ≡ some l) × (mem l (x ∷ xs) ≡ true)
last_or-mem x [] = (x, refl, ground arith)
last_or-mem x (y ∷ xs) = let (l, e, m) = last_or-mem y xs in (l, e, ground arith)

-- Behind the last entry of a part without repetitions.
pub insert_after-last :
    (a x : ℕ) (xs zs : List ℕ)
    → Distinct (x ∷ xs)
    → insert_after (last_or (some x) xs) a (x ∷ (xs ++ zs)) ≡ x ∷ (xs ++ a ∷ zs)
insert_after-last a x [] zs d = ground arith
insert_after-last a x (y ∷ xs) zs d =
    let (l, e, m) = last_or-mem y xs in
    ground (arith, e, m, mem_ne x l (y ∷ xs), insert_after-last a y xs zs d.1)

pub mem-append : (a : ℕ) (xs ys : List ℕ) → mem a (xs ++ ys) ≡ (mem a xs || mem a ys)
mem-append a [] ys = refl
mem-append a (x ∷ xs) ys = ground (arith, mem-append a xs ys)

-- The parts of a list without repetitions.
pub Distinct-append :
    (xs ys : List ℕ)
    → Distinct (xs ++ ys)
    → Distinct xs × Distinct ys × ((a : ℕ) → mem a xs ≡ true → mem a ys ≡ false)
Distinct-append [] ys d = (tt, d, λ a h. cc)
Distinct-append (x ∷ xs) ys d =
    let (dx, dy, apart) = Distinct-append xs ys d.1 in
    (
      (ground (arith, mem-append x xs ys), dx),
      dy,
      λ a h. ground (arith, apart a, mem-append x xs ys, d.0),
    )

pub insert_after-append :
    (a : ℕ) (xs zs : List ℕ)
    → Distinct xs
    → insert_after (last_or none xs) a (xs ++ zs) ≡ xs ++ a ∷ zs
insert_after-append a [] zs d = refl
insert_after-append a (x ∷ xs) zs d = insert_after-last a x xs zs d

pub occurrences-remove :
    (a b : ℕ) (xs : List ℕ)
    → mem a xs ≡ true
    → occurrences b xs ≡ (if a == b then 1 else 0) + occurrences b (remove a xs)
occurrences-remove a b [] h = cc
occurrences-remove a b (x ∷ xs) h = ground (arith, occurrences-remove a b xs)

pub occurrences-insert_behind :
    (p a b : ℕ) (xs : List ℕ)
    → mem p xs ≡ true
    → occurrences b (insert_behind p a xs) ≡ (if a == b then 1 else 0) + occurrences b xs
occurrences-insert_behind p a b [] h = cc
occurrences-insert_behind p a b (x ∷ xs) h = ground (arith, occurrences-insert_behind p a b xs)

pub last_or-append :
    (p : Option ℕ) (a : ℕ) (xs ys : List ℕ) → last_or p (xs ++ a ∷ ys) ≡ last_or (some a) ys
last_or-append p a [] ys = refl
last_or-append p a (x ∷ xs) ys = last_or-append (some x) a xs ys

pub insert_behind-append :
    (p a : ℕ) (xs zs : List ℕ)
    → mem p xs ≡ false
    → insert_behind p a (xs ++ zs) ≡ xs ++ insert_behind p a zs
insert_behind-append p a [] zs h = refl
insert_behind-append p a (x ∷ xs) zs h = ground (arith, insert_behind-append p a xs zs)
