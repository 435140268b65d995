-- ===== src/TextInput/Keys/Release.antt =====
-- src/input/textinput.c: proofs on where a release goes.
use g0wm.Common.{
  ℕ, ◌≡◌, refl, Bool, true, false, ◌||◌, List, [], ◌∷◌, ◌==◌, leb, arith, if◌then◌else◌,
}
use g0wm.TextInput.Keys.{Grabs, KeyEvent, ImKeys, textinput_key}

-- What was reported of the events so far, newest first.
abbrev pub Reports : Type 0
Reports = List (KeyEvent × Bool)

-- Whether a press of the key was taken since it was released last.
abbrev pub owed : ℕ → Reports → Bool
owed k [] = false
owed k ((event, taken) ∷ older) =
    if event.keycode == k
    then (if event.pressed then taken || owed k older else false)
    else owed k older

-- The keys and the reports after a sequence of events.
pub key_all : List (Grabs × KeyEvent) → ImKeys → Reports → ImKeys × Reports
key_all [] imkeys reports = (imkeys, reports)
key_all ((g, event) ∷ events) imkeys reports =
    let r = textinput_key g event imkeys in key_all events r.imkeys ((event, r.taken) ∷ reports)

-- The keys are those that are owed, and none that is out of range.
record Matches (imkeys : ImKeys) (reports : Reports) : Type 0 where
  same : (k : ℕ) → imkeys k ≡ owed k reports
  small : (k : ℕ) → leb 768 k ≡ true → imkeys k ≡ false

textinput_key-owed :
    (g : Grabs) (event : KeyEvent) (imkeys : ImKeys) (reports : Reports) (k : ℕ)
    → imkeys k ≡ owed k reports
    → imkeys event.keycode ≡ owed event.keycode reports
    → (leb 768 k ≡ true → imkeys k ≡ false)
    → (textinput_key g event imkeys).imkeys k
      ≡ owed k ((event, (textinput_key g event imkeys).taken) ∷ reports)
unfolding textinput_key
textinput_key-owed g event imkeys reports k m h b = ground arith

textinput_key-small :
    (g : Grabs) (event : KeyEvent) (imkeys : ImKeys) (k : ℕ)
    → leb 768 k ≡ true
    → imkeys k ≡ false
    → (textinput_key g event imkeys).imkeys k ≡ false
unfolding textinput_key
textinput_key-small g event imkeys k h b = ground arith

key_all-Matches :
    (events : List (Grabs × KeyEvent)) (imkeys : ImKeys) (reports : Reports)
    → Matches imkeys reports
    → Matches (key_all events imkeys reports).0 (key_all events imkeys reports).1
unfolding key_all
key_all-Matches [] imkeys reports m = m
key_all-Matches ((g, event) ∷ events) imkeys reports m =
    let r = textinput_key g event imkeys in
    key_all-Matches events r.imkeys ((event, r.taken) ∷ reports) (record {
      same = λ k.
          textinput_key-owed g event imkeys reports k (m.same k) (m.same event.keycode) (m.small k);
      small = λ k h. textinput_key-small g event imkeys k h (m.small k h);
    })

abbrev pub no_keys : ImKeys
no_keys k = false

-- A release goes where its press went: whatever keys came before and whoever had a grab then, a release
-- is taken exactly if a press of its key was taken since it was released last.
pub textinput_key-release :
    (events : List (Grabs × KeyEvent)) (g : Grabs) (event : KeyEvent)
    → event.pressed ≡ false
    → let before = key_all events no_keys [] in
      (textinput_key g event before.0).taken ≡ owed event.keycode before.1
unfolding textinput_key
textinput_key-release events g event up =
    let before = key_all events no_keys [] in
    let m = key_all-Matches events no_keys [] (record { same = λ k. refl; small = λ k h. refl }) in
    ground (arith, up, m.same event.keycode, m.small event.keycode)
