-- ===== src/History/File.antt =====
-- src/desktop/runner/history.c: the file of the history, and what the history says of the candidates.
pub mod RoundTrip
use g0wm.Common.{
  ℕ, suc, zero, ◌+◌, ◌-◌, ◌*◌, ◌/◌, ◌≡◌, Bool, true, false, not, ◌&&◌, ◌||◌, Option, none, some,
  List, [], ◌∷◌, ◌++◌, ◌==◌, ltb, leb, if◌then◌else◌, length, Bytes, is_empty,
}
use g0wm.History.{trim}
use g0wm.Match.Mode.{line_mode}
use g0wm.Apps.Desktop.{before}

abbrev extend_line : ℕ → List Bytes → List Bytes
extend_line c [] = (c ∷ []) ∷ []
extend_line c (line ∷ lines) = (c ∷ line) ∷ lines

-- What `fgets` reads call by call, with room for `size` bytes, of which `left` are left in this call,
-- up to the end of each line. At the end of the file there is one more, which may be empty.
unfoldable pub gets : ℕ → ℕ → Bytes → List Bytes
gets size left [] = [] ∷ []
gets size left (c ∷ text) =
    let rest = gets size (if (c == 10) || (left == 1) then size else left - 1) text in
    if c == 10 then [] ∷ rest else if left == 1 then (c ∷ []) ∷ rest else extend_line c rest

-- The lines that are pushed: `length && length < sizeof runner_buffer`.
unfoldable pub accepted : List Bytes → List Bytes
accepted [] = []
accepted (line ∷ lines) =
    let rest = accepted lines in
    if not (is_empty line) && ltb (length line) 256 then line ∷ rest else rest

-- `runner_read_history` of a file that opens, with `size` for `runner_history_size`.
unfoldable pub read_history : ℕ → Bytes → List Bytes
read_history size text = trim size (accepted (gets 256 256 text))

-- What `runner_write_history` prints.
unfoldable pub write_history : List Bytes → Bytes
write_history [] = []
write_history (line ∷ lines) = line ++ 10 ∷ write_history lines

-- `runner_app_use` and `runner_use`.
pub record Uses : Type 0 where
  pub app_use : ℕ → ℕ
  pub command_use : ℕ → ℕ

abbrev add_use : ℕ → ℕ → (ℕ → ℕ) → ℕ → ℕ
add_use i weight use_of k = if k == i then use_of k + weight else use_of k

abbrev add_hit : Option ℕ → ℕ → (ℕ → ℕ) → ℕ → ℕ
add_hit none weight use_of = use_of
add_hit (some i) weight use_of = add_use i weight use_of

abbrev bytes_after : ℕ → Bytes → Bytes
bytes_after zero text = text
bytes_after (suc n) [] = []
bytes_after (suc n) (c ∷ text) = bytes_after n text

-- `bsearch` among the names of the applications and among the commands, and what `runner_mode` says.
module _ (bsearch : Bytes → List Bytes → Option ℕ) (mode_of : Bytes → ℕ × ℕ)
    (app_names commands : List Bytes) where
  abbrev weigh_app : ℕ → Bytes → Uses → Uses
  weigh_app weight line u =
      if is_empty app_names
      then u
      else record u { app_use = add_hit (bsearch line app_names) weight u.app_use }

  abbrev weigh_command : ℕ → Bytes → Uses → Uses
  weigh_command weight line u =
      let word = before (λ c. (c == 32) || (c == 9)) line in
      if is_empty commands || leb 256 (length word)
      then u
      else record u { command_use = add_hit (bsearch word commands) weight u.command_use }

  -- A turn of the loop of `runner_weigh`.
  abbrev weigh_one : ℕ → Bytes → Uses → Uses
  weigh_one weight entry u =
      let mode = mode_of entry in
      let line = bytes_after mode.1 entry in
      if mode.0 == 0
      then weigh_app weight line u
      else if (mode.0 == 1) || (mode.0 == 2)
      then weigh_command weight line u
      else u

  abbrev weigh_from : ℕ → ℕ → List Bytes → Uses → Uses
  weigh_from count i [] u = u
  weigh_from count i (entry ∷ entries) u =
      weigh_from count (suc i) entries (weigh_one (1 + (i + 1) * 4 / count) entry u)

  -- `runner_weigh` on the history.
  unfoldable pub weigh : List Bytes → Uses
  weigh history =
      weigh_from (length history) 0 history (record { app_use = λ i. 0; command_use = λ i. 0 })
