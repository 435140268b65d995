-- ===== src/Window/Order/Moves.antt =====
-- `layout_move_stack` and `layout_zoom`: which clients the tiling order holds afterwards.
use g0wm.Common.{
  ℕ, ◌+◌, ◌<◌, ◌≡◌, leb, length, refl, sym, ◌∙◌, Bool, true, false, not, ◌&&◌, ◌||◌, ◌⊎◌, inl, inr,
  List, [], ◌∷◌, arith, mem, Distinct, none, some, remove, insert_after, insert_behind, last_or,
  prev_of, prev_from, occurrences, occurrences-remove, occurrences-insert_behind, find, ◌==◌,
  if◌then◌else◌, last_or-mem, Option, Option-cases, Bool-cases, mem-append,
}
use g0wm.Window.Order.{move, target, before, behind, backwards, zoom_scan, zoom_target, is_link}

find-mem : (p : ℕ → Bool) (c : ℕ) (xs : List ℕ) → find p xs ≡ some c → mem c xs ≡ true
find-mem p c [] e = cc
find-mem p c (x ∷ xs) e = ground (arith, find-mem p c xs)

find_sound : (p : ℕ → Bool) (c : ℕ) (xs : List ℕ) → find p xs ≡ some c → p c ≡ true
find_sound p c [] e = cc
find_sound p c (x ∷ xs) e = ground (arith, find_sound p c xs)

mem-behind : (sel c : ℕ) (xs : List ℕ) → mem c (behind sel xs) ≡ true → mem c (remove sel xs) ≡ true
mem-behind sel c [] h = h
mem-behind sel c (x ∷ xs) h = ground (arith, mem-behind sel c xs)

mem-backwards : (c : ℕ) (xs : List ℕ) → mem c (backwards xs) ≡ mem c xs
mem-backwards c [] = refl
mem-backwards c (x ∷ xs) = ground (arith, mem-append c (backwards xs) (x ∷ []), mem-backwards c xs)

mem-remove :
    (a c : ℕ) (xs : List ℕ) → mem c xs ≡ true → (a == c) ≡ false → mem c (remove a xs) ≡ true
mem-remove a c [] h n = h
mem-remove a c (x ∷ xs) h n = ground (arith, mem-remove a c xs)

-- The entry before one that stands before `sel` stays when `sel` goes.
prev_from-mem :
    (sel c x : ℕ) (xs : List ℕ)
    → (x == sel) ≡ false
    → mem c (before sel xs) ≡ true
    → (p : ℕ) × (prev_from (some x) c xs ≡ some p) × (mem p (x ∷ remove sel xs) ≡ true)
prev_from-mem sel c x [] n h = cc
prev_from-mem sel c x (y ∷ xs) n h = elim (Bool-cases (y == sel)) [
  | inl e ↦ ground arith
  | inr e ↦ elim (Bool-cases (y == c)) [
    | inl e' ↦ (x, ground arith, ground arith)
    | inr e' ↦
        let (p, q, m) = prev_from-mem sel c y xs e (ground arith) in (p, ground arith, ground arith)
  ]
]

-- An option that is none or names an entry of the list.
abbrev Within : Option ℕ → List ℕ → Type 0
Within o xs = (o ≡ none) ⊎ ((p : ℕ) × (o ≡ some p) × (mem p xs ≡ true))

prev_of-Within :
    (sel c : ℕ) (xs : List ℕ) → mem c (before sel xs) ≡ true → Within (prev_of c xs) (remove sel xs)
prev_of-Within sel c [] h = cc
prev_of-Within sel c (x ∷ xs) h = elim (Bool-cases (x == sel)) [
  | inl e ↦ ground arith
  | inr e ↦ elim (Bool-cases (x == c)) [
    | inl e' ↦ inl (ground arith)
    | inr e' ↦
        let (p, q, m) = prev_from-mem sel c x xs e (ground arith) in
        inr (p, ground arith, ground arith)
  ]
]

abbrev is_none : Option ℕ → Bool
is_none none = true
is_none (some c) = false

-- Going backwards with nothing visible before `sel`, which is the last client.
abbrev pub is_last_alone : (ℕ → Bool) → ℕ → List ℕ → Bool
is_last_alone vis sel xs =
    is_none (find vis (backwards (before sel xs))) && is_link (last_or none xs) sel

last_or-Within : (xs : List ℕ) → Within (last_or none xs) xs
last_or-Within [] = inl refl
last_or-Within (x ∷ xs) = inr (last_or-mem x xs)

last-Within :
    (sel : ℕ) (xs : List ℕ)
    → is_link (last_or none xs) sel ≡ false
    → Within (last_or none xs) (remove sel xs)
last-Within sel xs h = elim (last_or-Within xs) [
  | inl e ↦ inl e
  | inr (p, e, m) ↦ inr (p, e, mem-remove sel p xs m (ground arith))
]

target-Within :
    (forward : Bool) (vis : ℕ → Bool) (sel : ℕ) (xs : List ℕ)
    → (not forward && is_last_alone vis sel xs) ≡ false
    → Within (target forward vis sel xs) (remove sel xs)
unfolding target
target-Within true vis sel xs h = elim (Option-cases (find vis (behind sel xs))) [
  | inl e ↦ inl e
  | inr (c, e) ↦ inr (c, e, mem-behind sel c xs (find-mem vis c (behind sel xs) e))
]
target-Within false vis sel xs h = elim (Option-cases (find vis (backwards (before sel xs)))) [
  | inl e ↦ rw (target, e) (last-Within sel xs (ground arith))
  | inr (c, e) ↦
      rw (target, e)
        (prev_of-Within sel c xs
          (sym (mem-backwards c (before sel xs)) ∙ find-mem vis c (backwards (before sel xs)) e))
]

occurrences-insert_after :
    (o : Option ℕ) (a b : ℕ) (xs : List ℕ)
    → Within o xs
    → occurrences b (insert_after o a xs) ≡ (if a == b then 1 else 0) + occurrences b xs
occurrences-insert_after o a b xs (inl e) = rw e refl
occurrences-insert_after o a b xs (inr (p, e, m)) = rw e (occurrences-insert_behind p a b xs m)

-- Unless the selected client is the last one, goes backwards and has no visible client before it,
-- `layout_move_stack` keeps every client in the tiling order, each as often as before.
pub move_keeps :
    (forward : Bool) (vis : ℕ → Bool) (sel b : ℕ) (xs : List ℕ)
    → mem sel xs ≡ true
    → (not forward && is_last_alone vis sel xs) ≡ false
    → occurrences b (move forward vis sel xs) ≡ occurrences b xs
unfolding move
move_keeps forward vis sel b xs m h = elim (Bool-cases (leb (length xs) 1)) [
  | inl e ↦ rw e refl
  | inr e ↦ rw e (
      occurrences-insert_after (target forward vis sel xs) sel b (remove sel xs)
        (target-Within forward vis sel xs h)
      ∙ sym (occurrences-remove sel b xs m))
]

remove-Distinct : (a : ℕ) (xs : List ℕ) → Distinct xs → mem a (remove a xs) ≡ false
remove-Distinct a [] d = refl
remove-Distinct a (x ∷ xs) d = ground (arith, remove-Distinct a xs)

insert_behind-absent : (p a : ℕ) (xs : List ℕ) → mem p xs ≡ false → insert_behind p a xs ≡ xs
insert_behind-absent p a [] h = refl
insert_behind-absent p a (x ∷ xs) h = ground (arith, insert_behind-absent p a xs)

-- With more than one client, when the selected client is the last one and no visible client stands
-- before it, moving it backwards takes it out of the tiling order and leaves the others as they were.
pub move_loses :
    (vis : ℕ → Bool) (sel : ℕ) (xs : List ℕ)
    → 1 < length xs
    → Distinct xs
    → is_last_alone vis sel xs ≡ true
    → move false vis sel xs ≡ remove sel xs
unfolding move target
move_loses vis sel xs many d h = ground (
  arith,
  many,
  remove-Distinct sel xs d,
  insert_behind-absent sel sel (remove sel xs),
  last_or-Within xs,
)

abbrev pub other : (ℕ → Bool) → ℕ → ℕ → Bool
other tiled sel c = tiled c && not (c == sel)

zoom_scan-find :
    (tiled : ℕ → Bool) (sel : ℕ) (passed : Bool) (xs : List ℕ)
    → zoom_scan tiled sel passed xs ≡ elim (find (other tiled sel) xs) [
      | none ↦ none
      | some c ↦ some (c, passed || is_link (find tiled xs) sel)
    ]
unfolding zoom_scan
zoom_scan-find tiled sel passed [] = refl
zoom_scan-find tiled sel passed (x ∷ xs) =
    ground (arith, zoom_scan-find tiled sel (passed || (tiled x && (x == sel))) xs)

-- The client that `layout_zoom` puts in front: none if no client but the selected one is tiled; the
-- first tiled client other than the selected one if that is the first tiled client itself; the
-- selected one otherwise.
pub zoom_target_picks :
    (tiled : ℕ → Bool) (sel : ℕ) (xs : List ℕ)
    → zoom_target tiled sel xs ≡ elim (find (other tiled sel) xs) [
      | none ↦ none
      | some c ↦ some (if is_link (find tiled xs) sel then c else sel)
    ]
unfolding zoom_target
zoom_target_picks tiled sel xs =
    ground (arith, zoom_scan-find tiled sel false xs, Option-cases (find (other tiled sel) xs))
