-- ===== src/Notify/Message.antt =====
-- src/desktop/notify/message.c: the actions and the hints of a Notify call.
pub mod Actions
mod Tests
use g0wm.Common.{
  ℕ, suc, zero, ◌+◌, ◌≡◌, refl, inl, inr, Bool, true, false, not, ◌&&◌, ◌||◌, Option, none, some,
  List, [], ◌∷◌, ◌++◌, ◌==◌, ltb, if◌then◌else◌, length, length-append, Bytes, bytes_eq, is_empty,
  arith, Bool-cases, ◌∙◌, ap, ◌-◌,
}
use g0wm.Settings.Types.{lit}
use g0wm.Notify.Types.{Urgency, low, normal, critical, Action, act_max}
use g0wm.Utf8.{sanitize}

-- The value of a hint by its D-Bus type; a signed number by its sign.
pub data Variant : Type 0 where
  text : Bytes → Variant
  boolean : Bool → Variant
  int32 negative uint32 byte : ℕ → Variant
  other_type : Variant

-- An entry of the dictionary, and one without a string for its key.
pub data HintEntry : Type 0 where
  hint : Bytes → Variant → HintEntry
  no_string : HintEntry

-- `notify_hint`, before the type is looked at.
unfoldable pub find_hint : Bytes → List HintEntry → Option Variant
find_hint name [] = none
find_hint name (no_string ∷ hints) = none
find_hint name (hint key value ∷ hints) =
    let later = find_hint name hints in if bytes_eq key name then some value else later

abbrev text_hint : Bytes → List HintEntry → Option Bytes
text_hint name hints = elim (find_hint name hints) [ some (text value) ↦ some value | _ ↦ none ]

-- `notify_desktop_entry` into a buffer of `dstsz` bytes.
unfoldable pub desktop_entry : ℕ → List HintEntry → Bytes
desktop_entry dstsz hints = elim (text_hint (lit "desktop-entry") hints) [
  | none ↦ []
  | some value ↦ sanitize dstsz value
]

-- `notify_stack_tag` into a buffer of `dstsz` bytes.
unfoldable pub stack_tag : ℕ → List HintEntry → Bytes
stack_tag dstsz hints = elim (text_hint (lit "x-dunst-stack-tag") hints) [
  | some value ↦ sanitize dstsz value
  | none ↦ elim (text_hint (lit "x-canonical-private-synchronous") hints) [
    | some value ↦ sanitize dstsz value
    | none ↦ []
  ]
]

-- `notify_bool_hint`
unfoldable pub bool_hint : Bytes → List HintEntry → Bool
bool_hint name hints = elim (find_hint name hints) [ some (boolean value) ↦ value | _ ↦ false ]

abbrev at_most_100 : ℕ → ℕ
at_most_100 n = if ltb 100 n then 100 else n

-- `notify_value`, with `none` for -1.
unfoldable pub value_hint : List HintEntry → Option ℕ
value_hint hints = elim (find_hint (lit "value") hints) [
  | some (int32 n) ↦ some (at_most_100 n)
  | some (negative n) ↦ some 0
  | some (uint32 n) ↦ some (at_most_100 n)
  | _ ↦ none
]

-- What `notify_actions` has stored, `sizeof act[0].key` and `sizeof act[0].label`.
pub record Stored : Type 0 where
  pub act : List Action
  pub hasdefault : Bool

abbrev pub is_default : Bytes → Bool
is_default key = bytes_eq key (lit "default")

-- The strings of a pair.
unfoldable pub put_action : ℕ → ℕ → Bytes → Bytes → Stored → Stored
put_action key_size label_size key label a =
    if is_default key
    then record a { hasdefault = true }
    else if ltb (length a.act) act_max && ltb (length key) key_size
    then record a {
      act =
          a.act
          ++ record {
            key = key;
            label = sanitize label_size (if is_empty label then key else label);
          }
            ∷ [];
    }
    else a

-- The loop of `notify_actions` over the strings of the array.
unfoldable pub read_actions : ℕ → ℕ → List Bytes → Stored → Stored
read_actions key_size label_size [] a = a
read_actions key_size label_size (key ∷ []) a = a
read_actions key_size label_size (key ∷ label ∷ strings) a =
    read_actions key_size label_size strings (put_action key_size label_size key label a)
