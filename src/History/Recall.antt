-- ===== src/History/Recall.antt =====
-- Up and Down in the history, and how long it gets.
use g0wm.Common.{
  ℕ, suc, zero, ◌-◌, ◌≤◌, ◌<◌, ◌≡◌, refl, ap, inl, inr, true, false, some, List, [], ◌∷◌, ◌++◌,
  ◌==◌, length, bytes_eq, bytes_eq_refl, bytes_eq_sound, Bytes, arith, Bool-cases, length-append,
}
use g0wm.History.{
  drop, trim, push, record_command, entry, cut, seek_up, seek_down, recall_up, recall_down,
}

pub length-drop : (k : ℕ) (h : List Bytes) → length (drop k h) ≡ length h - k
length-drop zero h = omega arith
length-drop (suc k) [] = omega arith
length-drop (suc k) (x ∷ h) = ground (arith, length-drop k h)

drop-append :
    (k : ℕ) (h : List Bytes) (x : Bytes) → k ≤ length h → drop k (h ++ x ∷ []) ≡ drop k h ++ x ∷ []
drop-append zero h x le = refl
drop-append (suc k) [] x le = ground arith
drop-append (suc k) (y ∷ h) x le = drop-append k h x (omega arith)

-- With room for any command at all, the one that ran is the newest entry afterwards, before it are
-- the newest ones of before in their order, and the history is no longer than its size.
pub record_command-keeps :
    (n : ℕ) (cmd : Bytes) (h : List Bytes)
    → (record_command (suc n) cmd h ≡ drop (length h - n) h ++ cmd ∷ [])
      × (length (record_command (suc n) cmd h) ≤ suc n)
unfolding record_command trim push
record_command-keeps n cmd h =
    let longer = length-append h (cmd ∷ []) in
    let count : length (h ++ cmd ∷ []) - suc n ≡ length h - n = omega arith in
    let room : (suc n == 0) ≡ false = ground arith in
    let kept = drop-append (length h - n) h cmd (omega arith) in
    let left = length-drop (length h - n) h in
    let newest = length-append (drop (length h - n) h) (cmd ∷ []) in
    (rw (room, count) kept, rw (room, count, kept) (omega arith))

bytes_eq_comm : (a b : Bytes) → bytes_eq a b ≡ false → bytes_eq b a ≡ false
bytes_eq_comm a b h = elim (Bool-cases (bytes_eq b a)) [
  | inl e ↦ ground (arith, bytes_eq_refl a, bytes_eq_sound b a e)
  | inr e ↦ e
]

-- What the way up stops at and passes by.
seek_up-stops :
    (h : List Bytes) (shown : Bytes) (n i : ℕ)
    → seek_up h shown n ≡ some i
    → (i < n)
      × (bytes_eq (entry h i) shown ≡ false)
      × ((j : ℕ) → i < j → j < n → bytes_eq (entry h j) shown ≡ true)
unfolding seek_up
seek_up-stops h shown zero i e = cc
seek_up-stops h shown (suc n) i e = elim (Bool-cases (bytes_eq (entry h n) shown)) [
  | inr k ↦ let same : n ≡ i = ground arith in (omega arith, rw (← same) k, λ j a b. ground arith)
  | inl k ↦
      let (below, differs, passed) = seek_up-stops h shown n i (ground arith) in
      (omega arith, differs, λ j a b. at_or_below j a b k passed)
]
  where
    at_or_below :
        (j : ℕ)
        → i < j
        → j < suc n
        → bytes_eq (entry h n) shown ≡ true
        → ((j : ℕ) → i < j → j < n → bytes_eq (entry h j) shown ≡ true)
        → bytes_eq (entry h j) shown ≡ true
    at_or_below j a b k passed = elim (Bool-cases (j == n)) [
      | inl e ↦ let same : j ≡ n = ground arith in rw same k
      | inr e ↦ passed j a (ground arith)
    ]

seek_down-next :
    (h : List Bytes) (shown : Bytes) (i k : ℕ)
    → bytes_eq (entry h i) shown ≡ false
    → 0 < k
    → seek_down h shown i k ≡ some i
unfolding seek_down
seek_down-next h shown i zero e l = ground arith
seek_down-next h shown i (suc k) e l = rw (seek_down, e) refl

-- From an entry on, Up to another one and then Down show the text of the former again.
pub recall_down-recall_up :
    (h : List Bytes) (i j : ℕ) (buffer : Bytes)
    → i < length h
    → seek_up h (entry h i) i ≡ some j
    → (recall_down h (recall_up h (record { pos = some i; buffer = buffer }))).buffer
      ≡ cut 255 (entry h i)
unfolding recall_down recall_up
recall_down-recall_up h i j buffer l e =
    let (below, differs, passed) = seek_up-stops h (entry h i) i j e in
    let text : entry h (suc j) ≡ entry h i = next_text below passed in
    let new : bytes_eq (entry h (suc j)) (entry h j) ≡ false =
      rw text (bytes_eq_comm (entry h j) (entry h i) differs) in
    let stop = seek_down-next h (entry h j) (suc j) (length h - suc j) new (omega arith) in
    rw (recall_up, e, recall_down, stop) (ap (cut 255) text)
  where
    next_text :
        j < i
        → ((k : ℕ) → j < k → k < i → bytes_eq (entry h k) (entry h i) ≡ true)
        → entry h (suc j) ≡ entry h i
    next_text below passed = elim (Bool-cases (suc j == i)) [
      | inl k ↦ let same : suc j ≡ i = ground arith in ap (entry h) same
      | inr k ↦
          bytes_eq_sound (entry h (suc j)) (entry h i) (passed (suc j) (omega arith) (ground arith))
    ]
