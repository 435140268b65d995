-- ===== src/History/File/RoundTrip.antt =====
-- src/desktop/runner/history.c: proofs on reading the history back.
use g0wm.Common.{
  ℕ, suc, zero, ◌-◌, ◌<◌, ◌≡◌, refl, Bool, true, false, not, ◌&&◌, List, [], ◌∷◌, ◌++◌, ◌==◌, ltb,
  length, Bytes, is_empty, arith,
}
use g0wm.History.{drop, trim, push, record_command}
use g0wm.History.Recall.{length-drop}
use g0wm.History.File.{gets, accepted, read_history, write_history}

-- A line without a newline.
abbrev is_one_line : Bytes → Bool
is_one_line [] = true
is_one_line (c ∷ line) = not (c == 10) && is_one_line line

-- A line that the prompt can hold: not empty, without a newline and of at most 255 bytes.
abbrev pub IsEntry : Bytes → Type 0
IsEntry line = (is_one_line line ≡ true) × (is_empty line ≡ false) × (ltb (length line) 256 ≡ true)

abbrev pub AreEntries : List Bytes → Type 0
AreEntries [] = Unit {0}
AreEntries (line ∷ lines) = IsEntry line × AreEntries lines

gets-line :
    (line rest : Bytes) (size left : ℕ)
    → is_one_line line ≡ true
    → length line < left
    → gets size left (line ++ 10 ∷ rest) ≡ line ∷ gets size size rest
unfolding gets
gets-line [] rest size left h l = refl
gets-line (c ∷ line) rest size left h l =
    let plain : (c == 10) ≡ false = ground (arith, h) in
    let room : (left == 1) ≡ false = ground (arith, l) in
    let ih = gets-line line rest size (left - 1) (ground (arith, h)) (omega arith) in
    rw (plain, room, ih) refl

accepted-write :
    (lines : List Bytes) → AreEntries lines → accepted (gets 256 256 (write_history lines)) ≡ lines
unfolding accepted write_history gets
accepted-write [] h = refl
accepted-write (line ∷ lines) h =
    let (one, given, short) = h.0 in
    let first = gets-line line (write_history lines) 256 256 one (ground (arith, short)) in
    rw (first, given, short, accepted-write lines h.1) refl

AreEntries-drop : (k : ℕ) (lines : List Bytes) → AreEntries lines → AreEntries (drop k lines)
AreEntries-drop zero lines h = h
AreEntries-drop (suc k) [] h = tt
AreEntries-drop (suc k) (line ∷ lines) h = AreEntries-drop k lines h.1

AreEntries-append :
    (lines : List Bytes) (cmd : Bytes)
    → AreEntries lines
    → IsEntry cmd
    → AreEntries (lines ++ cmd ∷ [])
AreEntries-append [] cmd h k = (k, tt)
AreEntries-append (line ∷ lines) cmd h k = (h.0, AreEntries-append lines cmd h.1 k)

trim-trim : (size : ℕ) (h : List Bytes) → trim size (trim size h) ≡ trim size h
unfolding trim
trim-trim size h =
    let left = length-drop (length h - size) h in
    let none_left : length (drop (length h - size) h) - size ≡ 0 = omega arith in rw none_left refl

-- The next session reads the history that is written after a command ran, all of it in order; if
-- there is room for a command at all, and each entry and the command is a line that the prompt can
-- hold.
pub read_history-record_command :
    (n : ℕ) (cmd : Bytes) (h : List Bytes)
    → AreEntries h
    → IsEntry cmd
    → read_history (suc n) (write_history (record_command (suc n) cmd h))
      ≡ record_command (suc n) cmd h
unfolding read_history record_command trim push
read_history-record_command n cmd h entries one =
    let all = h ++ cmd ∷ [] in
    let kept = AreEntries-drop (length all - suc n) all (AreEntries-append h cmd entries one) in
    let room : (suc n == 0) ≡ false = ground arith in
    rw room (rw (accepted-write (drop (length all - suc n) all) kept) (trim-trim (suc n) all))
