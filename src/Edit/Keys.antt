-- ===== src/Edit/Keys.antt =====
-- Every key that edits the prompt keeps the line well formed.
use mathlib.Core.Path.{subst}
use mathlib.Core.List.{append_assoc}
use g0wm.Common.{
  ℕ, zero, suc, ◌+◌, ◌≤◌, ◌<◌, ◌≡◌, refl, sym, ap, ◌∙◌, inl, inr, true, false, not, ◌&&◌, ◌||◌,
  List, [], ◌∷◌, ◌++◌, ltb, leb, length, length-append, arith, Bool-cases, is_empty,
}
use g0wm.Utf8.{sequence_length, first, put_codepoint}
use g0wm.Utf8.Clean.{is_clean}
use g0wm.Utf8.Text.{is_text, is_text_clean}
use g0wm.Edit.{
  Line, rest_from, prev, next, over_blanks, over_word, insert_codepoint, EditKey, edit, edit_all,
  erase_all, to_start, to_end, forwards, backward, erase_word, backspace, delete, typed, recalled,
  completed, replace_query, show_text,
}
use g0wm.Edit.Cursor.{
  Starts, CleanLine, prev-Place, next-Place, over_blanks-le, over_word-Place, join-CleanLine,
  cut_out-CleanLine, clean-first, clean-rest, clean-Starts, clean-append, length-first_le,
  length-rest_from, end-Starts,
}

-- What is typed is a whole character.
put_codepoint-is_clean :
    (codepoint : ℕ)
    → (ltb codepoint 0x20 || (leb 0x7f codepoint && ltb codepoint 0xa0)) ≡ false
    → is_clean 0 (put_codepoint 5 codepoint) ≡ true
unfolding put_codepoint is_clean sequence_length
put_codepoint-is_clean codepoint h = ground arith

insert_codepoint-CleanLine :
    (codepoint : ℕ) (l : Line) → CleanLine l → CleanLine (insert_codepoint codepoint l)
unfolding insert_codepoint
insert_codepoint-CleanLine codepoint l p =
    elim (Bool-cases (ltb codepoint 0x20 || (leb 0x7f codepoint && ltb codepoint 0xa0))) [
      | inl e ↦ rw e p
      | inr e ↦ elim (Bool-cases (not (is_empty enc) && ltb (length l.buffer + length enc) 256)) [
        | inr e' ↦ rw (e, e') p
        | inl e' ↦ rw (e, e') (inserted (put_codepoint-is_clean codepoint e) (ground arith))
      ]
    ]
  where
    enc : List ℕ
    enc = put_codepoint 5 codepoint

    inserted :
        is_clean 0 enc ≡ true
        → length l.buffer + length enc < 256
        → CleanLine (record {
          buffer = first l.cursor l.buffer ++ (enc ++ rest_from l.cursor l.buffer);
          cursor = l.cursor + length enc;
        })
    inserted c room =
        let before : List ℕ = first l.cursor l.buffer in
        let rest : List ℕ = rest_from l.cursor l.buffer in
        let size = length-first_le l.cursor l.buffer p.inside in
        let left = length-rest_from l.cursor l.buffer in
        let total = length-append before enc in
        let inside = p.inside in
        let clean = clean-first 0 l.cursor l.buffer p.clean p.starts in
        subst (λ b. CleanLine (record { buffer = b; cursor = l.cursor + length enc }))
          (append_assoc before enc rest)
          (join-CleanLine (before ++ enc) rest (l.cursor + length enc) (omega arith) (omega arith)
            (clean-append 0 before enc clean c) (clean-rest 0 l.cursor l.buffer p.clean p.starts))

clean_nil : is_clean 0 [] ≡ true
unfolding is_clean
clean_nil = refl

-- What is recalled or put in place of the query is printable text of whole sequences, a recalled text of
-- at most 255 bytes, and so is what stands in front of the query, which starts in the line.
abbrev pub Taken : EditKey → Line → Type 0
Taken (recalled text) l = (is_text 0 text ≡ true) × (length text < 256)
Taken (completed offset text) l =
    (is_text 0 text ≡ true)
    × (offset ≤ length l.buffer)
    × (is_text 0 (first offset l.buffer) ≡ true)
Taken _ l = Unit {0}

lt_of_ltb : (a b : ℕ) → ltb a b ≡ true → a < b
lt_of_ltb a b h = ground (arith, h)

first_all : (n : ℕ) (text : List ℕ) → length text ≤ n → first n text ≡ text
first_all zero [] h = refl
first_all zero (b ∷ text) h = absurd (omega arith)
first_all (suc n) [] h = refl
first_all (suc n) (b ∷ text) h = ap (◌∷◌ b) (first_all n text (omega arith))

edit-CleanLine : (k : EditKey) (l : Line) → Taken k l → CleanLine l → CleanLine (edit k l)
unfolding edit replace_query show_text
edit-CleanLine erase_all l t p = record {
  fits = omega arith;
  inside = omega arith;
  clean = clean_nil;
  starts = refl;
}
edit-CleanLine to_start l t p = record {
  fits = p.fits;
  inside = omega arith;
  clean = p.clean;
  starts = clean-Starts l.buffer p.clean;
}
edit-CleanLine to_end l t p = record {
  fits = p.fits;
  inside = omega arith;
  clean = p.clean;
  starts = end-Starts l.buffer (length l.buffer) refl;
}
edit-CleanLine forwards l t p =
    let ((inside, at), _) = next-Place l.buffer l.cursor p.inside in
    record { fits = p.fits; inside = inside; clean = p.clean; starts = at }
edit-CleanLine backward l t p =
    let ((inside, at), _) = prev-Place l.buffer l.cursor p.clean p.inside in
    record { fits = p.fits; inside = inside; clean = p.clean; starts = at }
edit-CleanLine erase_word l t p =
    let le = over_blanks-le l.buffer l.cursor in
    let inside = p.inside in
    let (place, le') =
      over_word-Place l.buffer (over_blanks l.buffer l.cursor) p.clean (omega arith) in
    cut_out-CleanLine (over_word l.buffer (over_blanks l.buffer l.cursor)) l.cursor l p place
      (p.inside, p.starts) (omega arith)
edit-CleanLine backspace l t p =
    let (place, le) = prev-Place l.buffer l.cursor p.clean p.inside in
    cut_out-CleanLine (prev l.buffer l.cursor) l.cursor l p place (p.inside, p.starts) le
edit-CleanLine delete l t p =
    let (place, le) = next-Place l.buffer l.cursor p.inside in
    cut_out-CleanLine l.cursor (next l.buffer l.cursor) l p (p.inside, p.starts) place le
edit-CleanLine (typed codepoint) l t p = insert_codepoint-CleanLine codepoint l p
edit-CleanLine (recalled text) l (t, room) p = rw (first_all 255 text (omega arith)) (record {
  fits = room;
  inside = omega arith;
  clean = sym (is_text_clean 0 text) ∙ t;
  starts = end-Starts text (length text) refl;
})
edit-CleanLine (completed offset text) l (t, inside, before) p =
    elim (Bool-cases (ltb (offset + length text) 256)) [
      | inr e ↦ rw e p
      | inl e ↦
          let size = length-first_le offset l.buffer inside in
          let total = length-append (first offset l.buffer) text in
          let room = lt_of_ltb (offset + length text) 256 e in
          rw e (record {
            fits = omega arith;
            inside = omega arith;
            clean =
                clean-append 0 (first offset l.buffer) text
                  (sym (is_text_clean 0 (first offset l.buffer)) ∙ before)
                  (sym (is_text_clean 0 text) ∙ t);
            starts =
                end-Starts (first offset l.buffer ++ text) (offset + length text) (omega arith);
          })
    ]

-- The line is within its 256 bytes and made of whole UTF-8 sequences, of which those of one byte are
-- printable, and the cursor is in it, in front of a sequence or at the end.
pub record IsLine (l : Line) : Type 0 where
  pub fits : length l.buffer < 256
  pub inside : l.cursor ≤ length l.buffer
  pub text : is_text 0 l.buffer ≡ true
  pub starts : Starts l.buffer l.cursor

abbrev pub AllTaken : List EditKey → Line → Type 0
AllTaken [] l = Unit {0}
AllTaken (k ∷ keys) l = Taken k l × AllTaken keys (edit k l)

edit-IsLine : (k : EditKey) (l : Line) → Taken k l → IsLine l → IsLine (edit k l)
edit-IsLine k l t p =
    let after = edit-CleanLine k l t (record {
      fits = p.fits;
      inside = p.inside;
      clean = sym (is_text_clean 0 l.buffer) ∙ p.text;
      starts = p.starts;
    }) in
    record {
      fits = after.fits;
      inside = after.inside;
      text = is_text_clean 0 (edit k l).buffer ∙ after.clean;
      starts = after.starts;
    }

-- Whatever keys edit the prompt, also Up, Down and Tab, the line stays within its 256 bytes and made of
-- whole UTF-8 sequences without control bytes of ASCII, and the cursor stays in it, in front of a
-- sequence or at the end; if it is so at the start, and what Up, Down and Tab take is such text, as
-- long as the prompt can hold, and Tab puts it behind such text of the line.
pub edit_all-IsLine :
    (keys : List EditKey) (l : Line) → AllTaken keys l → IsLine l → IsLine (edit_all keys l)
edit_all-IsLine [] l t p = p
edit_all-IsLine (k ∷ keys) l t p = edit_all-IsLine keys (edit k l) t.1 (edit-IsLine k l t.0 p)
