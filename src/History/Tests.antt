-- ===== src/History/Tests.antt =====
-- The theorems on the command history at a concrete one.
use g0wm.Common.{◌≤◌, ◌≡◌, refl, List, [], ◌∷◌, ◌++◌, some, length, Bytes, arith}
use g0wm.History.{drop, trim, record_command, entry, seek_up, recall_up, recall_down}
use g0wm.History.File.{gets, accepted, read_history, write_history, weigh}
use g0wm.History.File.RoundTrip.{read_history-record_command}
use g0wm.History.Recall.{record_command-keeps, recall_down-recall_up}

-- "ls", "vi", "vi".
abbrev three : List Bytes
three = (108 ∷ 115 ∷ []) ∷ (118 ∷ 105 ∷ []) ∷ (118 ∷ 105 ∷ []) ∷ []

record_command-keeps_example :
    (record_command 2 (108 ∷ []) three ≡ drop 2 three ++ (108 ∷ []) ∷ [])
    × (length (record_command 2 (108 ∷ []) three) ≤ 2)
record_command-keeps_example = record_command-keeps 1 (108 ∷ []) three

seek_up-two : seek_up three (entry three 2) 2 ≡ some 0
unfolding seek_up
seek_up-two = refl

recall_down-recall_up_example :
    (recall_down three (recall_up three (record { pos = some 2; buffer = [] }))).buffer
    ≡ 118 ∷ 105 ∷ []
recall_down-recall_up_example = recall_down-recall_up three 2 0 [] (omega arith) seek_up-two

read_history-record_command_example :
    read_history 2 (write_history (record_command 2 (108 ∷ []) three))
    ≡ record_command 2 (108 ∷ []) three
read_history-record_command_example =
    read_history-record_command 1 (108 ∷ []) three
      ((refl, refl, refl), ((refl, refl, refl), ((refl, refl, refl), tt))) (refl, refl, refl)

-- An empty line is passed by.
read_history_test :
    read_history 5 (118 ∷ 105 ∷ 10 ∷ 10 ∷ 108 ∷ []) ≡ (118 ∷ 105 ∷ []) ∷ (108 ∷ []) ∷ []
unfolding read_history gets accepted trim
read_history_test = refl

-- Of three runs the last one counts five times.
weigh_test :
    (weigh (λ word words. some 0) (λ line. (1, 0)) [] ((118 ∷ 105 ∷ []) ∷ []) three).command_use 0
    ≡ 10
unfolding weigh
weigh_test = refl
