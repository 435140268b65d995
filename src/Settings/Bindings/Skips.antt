-- ===== src/Settings/Bindings/Skips.antt =====
-- src/core/settings/read.c: proofs on lines that bind nothing.
use g0wm.Common.{◌≡◌, none, List, Bytes}
use g0wm.Settings.Types.{Block, nothing, directive, Numbers}
use g0wm.Settings.Getters.{nth}
use g0wm.Settings.Bindings.{Names, action_by_name}

-- The directives of a block in front of another one.
abbrev pub splice : Block → Block → Block
splice nothing after = after
splice (directive name params children rest) after =
    directive name params children (splice rest after)

module _ {D : Type 0} (d : Numbers D) (zero_value : D) (names : Names) where
  -- A line with parameters that name no action.
  abbrev pub NoAction : List Bytes → Type 0
  NoAction params =
      (action_by_name names.actions (nth params 1) ≡ none)
      × (action_by_name names.actions (nth params 2) ≡ none)
