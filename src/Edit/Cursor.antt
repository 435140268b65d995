-- ===== src/Edit/Cursor.antt =====
-- The prompt keeps a line of whole characters that fits, with the cursor between two of them.
use g0wm.Common.{
  ℕ, suc, zero, ◌+◌, ◌-◌, ◌≤◌, ◌<◌, ◌≡◌, refl, ap, ◌⊎◌, inl, inr, true, false, not, ◌&&◌, List, [],
  ◌∷◌, ◌++◌, ◌==◌, ltb, length, length-append, arith, Bool-cases,
}
use g0wm.Utf8.{is_continuation, sequence_length, first}
use g0wm.Utf8.Clean.{is_clean}
use g0wm.Edit.{Line, byte_at, rest_from, prev, next_within, next, cut_out, over_blanks, over_word}

-- No continuation byte at `i`.
abbrev pub Starts : List ℕ → ℕ → Type 0
Starts bs i = is_continuation (byte_at bs i) ≡ false

-- Whole characters without controls that fit in 256 bytes with the NUL, and the cursor in front of
-- one of them or at the end.
pub record CleanLine (l : Line) : Type 0 where
  pub fits : length l.buffer < 256
  pub inside : l.cursor ≤ length l.buffer
  pub clean : is_clean 0 l.buffer ≡ true
  pub starts : Starts l.buffer l.cursor

pub clean-Starts : (bs : List ℕ) → is_clean 0 bs ≡ true → Starts bs 0
unfolding is_clean sequence_length
clean-Starts [] h = refl
clean-Starts (b ∷ bs) h = ground arith

pub clean-first :
    (k i : ℕ) (bs : List ℕ) → is_clean k bs ≡ true → Starts bs i → is_clean k (first i bs) ≡ true
unfolding is_clean
clean-first k zero [] h s = h
clean-first k (suc i) [] h s = h
clean-first zero zero (b ∷ bs) h s = refl
clean-first (suc k) zero (b ∷ bs) h s = ground arith
clean-first zero (suc i) (b ∷ bs) h s = ground (arith, clean-first (sequence_length b - 1) i bs)
clean-first (suc k) (suc i) (b ∷ bs) h s = ground (arith, clean-first k i bs)

pub clean-rest :
    (k i : ℕ) (bs : List ℕ)
    → is_clean k bs ≡ true
    → Starts bs i
    → is_clean 0 (rest_from i bs) ≡ true
unfolding is_clean
clean-rest zero zero bs h s = h
clean-rest (suc k) zero [] h s = cc
clean-rest (suc k) zero (b ∷ bs) h s = ground arith
clean-rest k (suc i) [] h s = refl
clean-rest zero (suc i) (b ∷ bs) h s = ground (arith, clean-rest (sequence_length b - 1) i bs)
clean-rest (suc k) (suc i) (b ∷ bs) h s = ground (arith, clean-rest k i bs)

pub clean-append :
    (k : ℕ) (xs bs : List ℕ)
    → is_clean k xs ≡ true
    → is_clean 0 bs ≡ true
    → is_clean k (xs ++ bs) ≡ true
unfolding is_clean
clean-append zero [] bs h h' = h'
clean-append (suc k) [] bs h h' = cc
clean-append zero (x ∷ xs) bs h h' = ground (arith, clean-append (sequence_length x - 1) xs bs)
clean-append (suc k) (x ∷ xs) bs h h' = ground (arith, clean-append k xs bs)

pub length-first_le : (i : ℕ) (bs : List ℕ) → i ≤ length bs → length (first i bs) ≡ i
length-first_le zero bs h = refl
length-first_le (suc i) [] h = omega arith
length-first_le (suc i) (b ∷ bs) h = ap suc (length-first_le i bs (omega arith))

pub length-rest_from : (i : ℕ) (bs : List ℕ) → length (rest_from i bs) ≡ length bs - i
length-rest_from zero bs = omega arith
length-rest_from (suc i) [] = omega arith
length-rest_from (suc i) (b ∷ bs) = ground (arith, length-rest_from i bs)

pub byte_at-append : (xs bs : List ℕ) → byte_at (xs ++ bs) (length xs) ≡ byte_at bs 0
byte_at-append [] bs = refl
byte_at-append (x ∷ xs) bs = byte_at-append xs bs

byte_at-end : (bs : List ℕ) → byte_at bs (length bs) ≡ 0
byte_at-end [] = refl
byte_at-end (b ∷ bs) = byte_at-end bs

-- A character starts behind every blank.
blank-Starts :
    (k i : ℕ) (bs : List ℕ) → is_clean k bs ≡ true → byte_at bs i ≡ 32 → Starts bs (suc i)
unfolding is_clean sequence_length
blank-Starts k i [] h e = refl
blank-Starts zero zero (b ∷ bs) h e = ground (arith, clean-Starts bs, e)
blank-Starts (suc k) zero (b ∷ bs) h e = ground arith
blank-Starts zero (suc i) (b ∷ bs) h e = blank-Starts (sequence_length b - 1) i bs (ground arith) e
blank-Starts (suc k) (suc i) (b ∷ bs) h e = blank-Starts k i bs (ground arith) e

-- Where the cursor can go: a place in front of a character, or the end.
abbrev pub Place : List ℕ → ℕ → Type 0
Place bs i = (i ≤ length bs) × Starts bs i

pub prev-Place :
    (bs : List ℕ) (i : ℕ)
    → is_clean 0 bs ≡ true
    → i ≤ length bs
    → Place bs (prev bs i) × (prev bs i ≤ i)
unfolding prev
prev-Place bs zero c h = ((h, clean-Starts bs c), omega arith)
prev-Place bs (suc i) c h = elim (Bool-cases (not (i == 0) && is_continuation (byte_at bs i))) [
  | inl e ↦
      let ((inside, at), le) = prev-Place bs i c (omega arith) in rw e ((inside, at), omega arith)
  | inr e ↦ rw e ((omega arith, here e (Bool-cases (i == 0))), omega arith)
]
  where
    here :
        (not (i == 0) && is_continuation (byte_at bs i)) ≡ false
        → ((i == 0) ≡ true) ⊎ ((i == 0) ≡ false)
        → Starts bs i
    here e (inl z) = let zero_i : i ≡ 0 = ground arith in rw zero_i (clean-Starts bs c)
    here e (inr z) = ground arith

pub end-Starts : (bs : List ℕ) (i : ℕ) → i ≡ length bs → Starts bs i
end-Starts bs i e = rw (e, byte_at-end bs) refl

next_within-Place :
    (bs : List ℕ) (i k : ℕ)
    → i + k ≡ length bs
    → Place bs (next_within bs i k) × (i ≤ next_within bs i k)
unfolding next_within
next_within-Place bs i zero e = ((omega arith, end-Starts bs i (omega arith)), omega arith)
next_within-Place bs i (suc k) e =
    elim (Bool-cases (ltb (suc i) (length bs) && is_continuation (byte_at bs (suc i)))) [
      | inl g ↦
          let ((inside, at), le) = next_within-Place bs (suc i) k (omega arith) in
          rw g ((inside, at), omega arith)
      | inr g ↦ rw g ((omega arith, here g (Bool-cases (ltb (suc i) (length bs)))), omega arith)
    ]
  where
    here :
        (ltb (suc i) (length bs) && is_continuation (byte_at bs (suc i))) ≡ false
        → (ltb (suc i) (length bs) ≡ true) ⊎ (ltb (suc i) (length bs) ≡ false)
        → Starts bs (suc i)
    here g (inl z) = ground arith
    here g (inr z) = end-Starts bs (suc i) (ground arith)

pub next-Place : (bs : List ℕ) (i : ℕ) → i ≤ length bs → Place bs (next bs i) × (i ≤ next bs i)
unfolding next
next-Place bs i h = next_within-Place bs i (length bs - i) (omega arith)

pub over_blanks-le : (bs : List ℕ) (i : ℕ) → over_blanks bs i ≤ i
unfolding over_blanks
over_blanks-le bs zero = omega arith
over_blanks-le bs (suc i) = ground (arith, over_blanks-le bs i)

pub over_word-Place :
    (bs : List ℕ) (i : ℕ)
    → is_clean 0 bs ≡ true
    → i ≤ length bs
    → Place bs (over_word bs i) × (over_word bs i ≤ i)
unfolding over_word
over_word-Place bs zero c h = ((h, clean-Starts bs c), omega arith)
over_word-Place bs (suc i) c h = elim (Bool-cases (byte_at bs i == 32)) [
  | inl e ↦
      let blank : byte_at bs i ≡ 32 = ground arith in
      rw e ((h, blank-Starts 0 i bs c blank), omega arith)
  | inr e ↦
      let ((inside, at), le) = over_word-Place bs i c (omega arith) in
      rw e ((inside, at), omega arith)
]

-- Two clean parts make a line with the cursor between them.
pub join-CleanLine :
    (xs bs : List ℕ) (i : ℕ)
    → length xs ≡ i
    → length xs + length bs < 256
    → is_clean 0 xs ≡ true
    → is_clean 0 bs ≡ true
    → CleanLine (record { buffer = xs ++ bs; cursor = i })
join-CleanLine xs bs i e h c c' =
    let total = length-append xs bs in
    record {
      fits = omega arith;
      inside = omega arith;
      clean = clean-append 0 xs bs c c';
      starts = rw (← e, byte_at-append xs bs) (clean-Starts bs c');
    }

pub cut_out-CleanLine :
    (from to : ℕ) (l : Line)
    → CleanLine l
    → Place l.buffer from
    → Place l.buffer to
    → from ≤ to
    → CleanLine (cut_out from to l)
unfolding cut_out
cut_out-CleanLine from to l p (a, b) (a', b') le =
    let fits = p.fits in
    let before = length-first_le from l.buffer a in
    let behind = length-rest_from to l.buffer in
    join-CleanLine (first from l.buffer) (rest_from to l.buffer) from before (omega arith)
      (clean-first 0 from l.buffer p.clean b) (clean-rest 0 to l.buffer p.clean b')
