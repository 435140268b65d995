-- ===== src/History.antt =====
-- src/desktop/runner/history.c: the command history, oldest first. A line is a list of bytes.
pub mod Recall
pub mod File
mod Tests
use g0wm.Common.{
  ℕ, suc, zero, ◌+◌, ◌-◌, Bool, true, false, Option, none, some, List, [], ◌∷◌, ◌++◌, ◌==◌,
  if◌then◌else◌, length, bytes_eq, Bytes,
}

abbrev pub drop : ℕ → List Bytes → List Bytes
drop zero h = h
drop (suc k) [] = []
drop (suc k) (x ∷ h) = drop k h

-- `runner_trim_history` with `size` for `runner_history_size`.
pub trim : ℕ → List Bytes → List Bytes
trim size h = drop (length h - size) h

pub push : Bytes → List Bytes → List Bytes
push cmd h = h ++ cmd ∷ []

-- `runner_record` on the list; writing the file and `runner_weigh` come after it.
pub record_command : ℕ → Bytes → List Bytes → List Bytes
record_command size cmd h = if size == 0 then h else trim size (push cmd h)

-- The prompt: `runner_history_pos`, `none` for -1, and `runner_buffer`.
pub record Prompt : Type 0 where
  pub pos : Option ℕ
  pub buffer : Bytes

abbrev pub entry : List Bytes → ℕ → Bytes
entry [] i = []
entry (x ∷ h) zero = x
entry (x ∷ h) (suc i) = entry h i

-- `snprintf` into `runner_buffer` of 256 bytes.
abbrev pub cut : ℕ → Bytes → Bytes
cut zero s = []
cut (suc k) [] = []
cut (suc k) (c ∷ s) = c ∷ cut k s

-- The loop of `runner_recall` towards the oldest entry, and with `k` entries left towards the
-- newest: the first entry that is not the one shown.
unfoldable pub seek_up : List Bytes → Bytes → ℕ → Option ℕ
seek_up h shown zero = none
seek_up h shown (suc i) =
    let rest = seek_up h shown i in if bytes_eq (entry h i) shown then rest else some i

pub seek_down : List Bytes → Bytes → ℕ → ℕ → Option ℕ
seek_down h shown i zero = none
seek_down h shown i (suc k) =
    let rest = seek_down h shown (suc i) k in if bytes_eq (entry h i) shown then rest else some i

abbrev pub show : List Bytes → ℕ → Prompt
show h i = record { pos = some i; buffer = cut 255 (entry h i) }

-- `runner_recall(-1)`
pub recall_up : List Bytes → Prompt → Prompt
recall_up h p = elim p.pos [
  | none ↦ elim (seek_up h [] (length h)) [ none ↦ p | some j ↦ show h j ]
  | some i ↦ elim (seek_up h (entry h i) i) [ none ↦ p | some j ↦ show h j ]
]

-- `runner_recall(1)`
pub recall_down : List Bytes → Prompt → Prompt
recall_down h p = elim p.pos [
  | none ↦ p
  | some i ↦ elim (seek_down h (entry h i) (suc i) (length h - suc i)) [
    | none ↦ record { pos = none; buffer = [] }
    | some j ↦ show h j
  ]
]
