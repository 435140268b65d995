-- ===== src/Window/Order/Swap.antt =====
-- `layout_swap_clients` exchanges two clients, wherever they stand.
use mathlib.Core.List.{append_assoc}
use g0wm.Common.{
  ℕ, ◌≡◌, refl, true, false, List, [], ◌∷◌, ◌++◌, arith, mem, Distinct, none, some, remove,
  insert_after, last_or, prev_of, prev_from-append, remove-append, insert_after-append,
  Distinct-append, mem-append, mem_ne, ◌==◌, last_or-append, last_or-mem, insert_behind-append,
  insert_after-last, ap, ◌∙◌,
}
use g0wm.Window.Order.{swap, is_link}

not_link : (b : ℕ) (xs : List ℕ) → mem b xs ≡ false → is_link (last_or none xs) b ≡ false
not_link b [] h = refl
not_link b (x ∷ xs) h =
    let (l, e, m) = last_or-mem x xs in ground (arith, e, m, mem_ne b l (x ∷ xs))

not_link_some :
    (a y : ℕ) (ys : List ℕ) → mem a (y ∷ ys) ≡ false → is_link (last_or (some y) ys) a ≡ false
not_link_some a y ys h = not_link a (y ∷ ys) h

-- What a list without repetitions says of its parts.
record Parts (a b : ℕ) (xs ys : List ℕ) : Type 0 where
  left : Distinct xs
  mid : Distinct ys
  a_left : mem a xs ≡ false
  b_left : mem b xs ≡ false
  a_mid : mem a ys ≡ false
  b_mid : mem b ys ≡ false
  ne : (a == b) ≡ false
  apart : (c : ℕ) → mem c ys ≡ true → mem c xs ≡ false

module _ (a b : ℕ) (xs ys zs : List ℕ) where
  Distinct-Parts : Distinct (xs ++ a ∷ (ys ++ b ∷ zs)) → Parts a b xs ys
  Distinct-Parts d =
      let (dx, dr, apart) = Distinct-append xs (a ∷ (ys ++ b ∷ zs)) d in
      let (dy, db, apart') = Distinct-append ys (b ∷ zs) dr.1 in
      let ma = mem-append a ys (b ∷ zs) in
      let mb = mem-append b ys (b ∷ zs) in
      record {
        left = dx;
        mid = dy;
        a_left = ground (arith, apart a);
        b_left = ground (arith, apart b, mb);
        a_mid = ground (arith, dr.0, ma);
        b_mid = ground (arith, apart' b);
        ne = ground (arith, dr.0, ma);
        apart = λ c h. ground (arith, apart c, mem-append c ys (b ∷ zs));
      }

remove-inner :
    (b : ℕ) (xs ws zs : List ℕ)
    → mem b xs ≡ false
    → mem b ws ≡ false
    → remove b (xs ++ (ws ++ b ∷ zs)) ≡ xs ++ (ws ++ zs)
remove-inner b xs ws zs h k =
    rw (← append_assoc xs ws (b ∷ zs), ← append_assoc xs ws zs)
      (remove-append b (xs ++ ws) zs (rw (mem-append b xs ws) (ground arith)))

prev_of-inner :
    (a b : ℕ) (xs ys zs : List ℕ)
    → mem b xs ≡ false
    → mem b (a ∷ ys) ≡ false
    → prev_of b (xs ++ a ∷ (ys ++ b ∷ zs)) ≡ last_or (some a) ys
prev_of-inner a b xs ys zs h k = rw (← append_assoc xs (a ∷ ys) (b ∷ zs)) (
    prev_from-append none b (xs ++ a ∷ ys) zs (rw (mem-append b xs (a ∷ ys)) (ground arith))
    ∙ last_or-append none a xs ys)

-- Behind the last entry of a part in the middle.
insert_after-inner :
    (a y : ℕ) (xs ys zs : List ℕ)
    → Distinct (y ∷ ys)
    → ((c : ℕ) → mem c (y ∷ ys) ≡ true → mem c xs ≡ false)
    → insert_after (last_or (some y) ys) a (xs ++ y ∷ (ys ++ zs)) ≡ xs ++ y ∷ (ys ++ a ∷ zs)
insert_after-inner a y xs ys zs d apart =
    let (l, e, m) = last_or-mem y ys in
    rw e (
      insert_behind-append l a xs (y ∷ (ys ++ zs)) (apart l m)
      ∙ ap (◌++◌ xs) (rw (← insert_after-last a y ys zs d) (rw e)))

module _ (a b : ℕ) (xs zs : List ℕ) where
  -- Two neighbours, in either order of the arguments.
  swap_neighbours :
      Parts a b xs []
      → (swap a b (xs ++ a ∷ b ∷ zs) ≡ xs ++ b ∷ a ∷ zs)
        × (swap b a (xs ++ a ∷ b ∷ zs) ≡ xs ++ b ∷ a ∷ zs)
  unfolding swap
  swap_neighbours p = ground (
    arith,
    prev_from-append none a xs (b ∷ zs) p.a_left,
    prev_of-inner a b xs [] zs p.b_left,
    not_link b xs p.b_left,
    remove-inner b xs (a ∷ []) zs p.b_left,
    insert_after-append b xs (a ∷ zs) p.left,
  )

  -- Two clients with others in between.
  swap_apart :
      (y : ℕ) (ys : List ℕ)
      → Parts a b xs (y ∷ ys)
      → (swap a b (xs ++ a ∷ y ∷ (ys ++ b ∷ zs)) ≡ xs ++ b ∷ y ∷ (ys ++ a ∷ zs))
        × (swap b a (xs ++ a ∷ y ∷ (ys ++ b ∷ zs)) ≡ xs ++ b ∷ y ∷ (ys ++ a ∷ zs))
  unfolding swap
  swap_apart y ys p =
      let rest = ys ++ zs in
      ground (
        arith,
        prev_from-append none a xs (y ∷ (ys ++ b ∷ zs)) p.a_left,
        prev_of-inner a b xs (y ∷ ys) zs p.b_left,
        not_link b xs p.b_left,
        not_link_some a y ys p.a_mid,
        remove-append a xs (y ∷ (ys ++ b ∷ zs)) p.a_left,
        remove-inner b xs (y ∷ ys) zs p.b_left p.b_mid,
        remove-inner b xs (a ∷ y ∷ ys) zs p.b_left,
        remove-append a xs (y ∷ rest) p.a_left,
        insert_after-inner a y xs ys zs p.mid p.apart,
        insert_after-append b xs (y ∷ (ys ++ a ∷ zs)) p.left,
        insert_after-append b xs (y ∷ rest) p.left,
        insert_after-inner a y (xs ++ b ∷ []) ys zs p.mid apart',
        append_assoc xs (b ∷ []) (y ∷ rest),
        append_assoc xs (b ∷ []) (y ∷ (ys ++ a ∷ zs)),
      )
    where
      apart' : (c : ℕ) → mem c (y ∷ ys) ≡ true → mem c (xs ++ b ∷ []) ≡ false
      apart' c h =
          ground (arith, p.apart c h, mem-append c xs (b ∷ []), mem_ne b c (y ∷ ys) p.b_mid h)

-- Wherever two clients stand in the tiling order and however they are passed, `layout_swap_clients`
-- exchanges them and leaves every other client in its place.
pub swap_exchanges :
    (a b : ℕ) (xs ys zs : List ℕ)
    → Distinct (xs ++ a ∷ (ys ++ b ∷ zs))
    → (swap a b (xs ++ a ∷ (ys ++ b ∷ zs)) ≡ xs ++ b ∷ (ys ++ a ∷ zs))
      × (swap b a (xs ++ a ∷ (ys ++ b ∷ zs)) ≡ xs ++ b ∷ (ys ++ a ∷ zs))
swap_exchanges a b xs [] zs d = swap_neighbours a b xs zs (Distinct-Parts a b xs [] zs d)
swap_exchanges a b xs (y ∷ ys) zs d =
    swap_apart a b xs zs y ys (Distinct-Parts a b xs (y ∷ ys) zs d)
