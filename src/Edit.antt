-- ===== src/Edit.antt =====
-- src/desktop/runner/runner.c: the editing of the line in the runner's prompt. The line is the bytes
-- of `runner_buffer` before the NUL, its length is `runner_length`.
pub mod Cursor
pub mod Keys
mod Tests
use g0wm.Common.{
  ℕ, suc, zero, ◌+◌, ◌-◌, Bool, true, false, not, ◌&&◌, ◌||◌, List, [], ◌∷◌, ◌++◌, ◌==◌, ltb, leb,
  length, if◌then◌else◌, is_empty,
}
use g0wm.Utf8.{is_continuation, first, put_codepoint}

pub record Line : Type 0 where
  pub buffer : List ℕ
  pub cursor : ℕ

-- `runner_buffer[i]`, the NUL past the end.
abbrev pub byte_at : List ℕ → ℕ → ℕ
byte_at [] i = 0
byte_at (b ∷ bs) zero = b
byte_at (b ∷ bs) (suc i) = byte_at bs i

abbrev pub rest_from : ℕ → List ℕ → List ℕ
rest_from zero bs = bs
rest_from (suc i) [] = []
rest_from (suc i) (b ∷ bs) = rest_from i bs

-- `runner_prev`
pub prev : List ℕ → ℕ → ℕ
prev bs zero = zero
prev bs (suc i) =
    let further = prev bs i in if not (i == 0) && is_continuation (byte_at bs i) then further else i

-- `runner_next` with `k` bytes from `i` on.
pub next_within : List ℕ → ℕ → ℕ → ℕ
next_within bs i zero = i
next_within bs i (suc k) =
    let further = next_within bs (suc i) k in
    if ltb (suc i) (length bs) && is_continuation (byte_at bs (suc i)) then further else suc i

pub next : List ℕ → ℕ → ℕ
next bs i = next_within bs i (length bs - i)

-- `runner_cut`
pub cut_out : ℕ → ℕ → Line → Line
cut_out from to l = record { buffer = first from l.buffer ++ rest_from to l.buffer; cursor = from }

-- The two loops of Ctrl-W: over the blanks before `i`, and over what is no blank.
pub over_blanks : List ℕ → ℕ → ℕ
over_blanks bs zero = zero
over_blanks bs (suc i) =
    let further = over_blanks bs i in if byte_at bs i == 32 then further else suc i

pub over_word : List ℕ → ℕ → ℕ
over_word bs zero = zero
over_word bs (suc i) = let further = over_word bs i in if byte_at bs i == 32 then suc i else further

-- A codepoint that is typed.
pub insert_codepoint : ℕ → Line → Line
insert_codepoint codepoint l =
    if ltb codepoint 0x20 || (leb 0x7f codepoint && ltb codepoint 0xa0)
    then l
    else let encoded = put_codepoint 5 codepoint in
      if not (is_empty encoded) && ltb (length l.buffer + length encoded) 256
      then record {
        buffer = first l.cursor l.buffer ++ (encoded ++ rest_from l.cursor l.buffer);
        cursor = l.cursor + length encoded;
      }
      else l

-- The keys of `runner_key` that edit the line. Up and Down come with the text that they recall, which is
-- empty past the newest entry, and Tab with the offset of the query and what is put there.
pub data EditKey : Type 0 where
  erase_all : EditKey
  to_start : EditKey
  to_end : EditKey
  forwards : EditKey
  backward : EditKey
  erase_word : EditKey
  backspace : EditKey
  delete : EditKey
  typed : ℕ → EditKey
  recalled : List ℕ → EditKey
  completed : ℕ → List ℕ → EditKey

-- What is put in place of the query, from its offset on: the candidate that Tab takes or the value of a
-- sum, if there is room.
unfoldable pub replace_query : ℕ → List ℕ → Line → Line
replace_query offset text l =
    if ltb (offset + length text) 256
    then record { buffer = first offset l.buffer ++ text; cursor = offset + length text }
    else l

-- The text that Up and Down show, cut to the buffer.
unfoldable pub show_text : List ℕ → Line
show_text text = let cut = first 255 text in record { buffer = cut; cursor = length cut }

unfoldable pub edit : EditKey → Line → Line
edit erase_all l = record { buffer = []; cursor = 0 }
edit to_start l = record l { cursor = 0 }
edit to_end l = record l { cursor = length l.buffer }
edit forwards l = record l { cursor = next l.buffer l.cursor }
edit backward l = record l { cursor = prev l.buffer l.cursor }
edit erase_word l = cut_out (over_word l.buffer (over_blanks l.buffer l.cursor)) l.cursor l
edit backspace l = cut_out (prev l.buffer l.cursor) l.cursor l
edit delete l = cut_out l.cursor (next l.buffer l.cursor) l
edit (typed codepoint) l = insert_codepoint codepoint l
edit (recalled text) l = show_text text
edit (completed offset text) l = replace_query offset text l

abbrev pub edit_all : List EditKey → Line → Line
edit_all [] l = l
edit_all (k ∷ ks) l = edit_all ks (edit k l)
