-- ===== src/Notify/Message/Tests.antt =====
-- src/desktop/notify/message.c: runs on the hints and the actions of a call.
use g0wm.Common.{◌≡◌, refl, true, false, some, List, [], ◌∷◌, Bytes, arith}
use g0wm.Settings.Types.{lit}
use g0wm.Notify.Message.{
  HintEntry, hint, no_string, boolean, uint32, negative, find_hint, value_hint, bool_hint, Stored,
  read_actions,
}
use g0wm.Notify.Message.Actions.{keys_of, read_actions-keys}

abbrev nothing_stored : Stored
nothing_stored = record { act = []; hasdefault = false }

abbrev strings : List Bytes
strings =
    lit "default" ∷ lit "Open" ∷ lit "reply" ∷ [] ∷ lit "a-long-key" ∷ lit "Long" ∷ lit "odd" ∷ []

read_actions-keys_example :
    (keys_of (read_actions 8 16 strings nothing_stored).act ≡ lit "reply" ∷ [])
    × ((read_actions 8 16 strings nothing_stored).hasdefault ≡ true)
read_actions-keys_example = read_actions-keys 8 16 strings nothing_stored (omega arith)

abbrev hints : List HintEntry
hints =
    hint (lit "transient") (boolean true)
    ∷ hint (lit "value") (uint32 250)
    ∷ hint (lit "value") (negative 1)
    ∷ no_string
    ∷ hint (lit "resident") (boolean true)
    ∷ []

value_hint_test : value_hint hints ≡ some 100
unfolding value_hint find_hint
value_hint_test = refl

-- What stands behind a key that is no string is not found.
bool_hint_test :
    (bool_hint (lit "transient") hints ≡ true) × (bool_hint (lit "resident") hints ≡ false)
unfolding bool_hint find_hint
bool_hint_test = (refl, refl)
