-- ===== src/Notify/Message/Actions.antt =====
-- src/desktop/notify/message.c: proofs on the actions that are stored of a Notify call.
use g0wm.Common.{
  ℕ, suc, zero, ◌-◌, ◌≤◌, ◌≡◌, refl, sym, ap, ◌∙◌, inl, inr, Bool, true, false, not, ◌&&◌, ◌||◌,
  List, [], ◌∷◌, ◌++◌, ltb, if◌then◌else◌, length, length-append, Bytes, is_empty, arith,
  Bool-cases,
}
use g0wm.Utf8.{sanitize}
use g0wm.Notify.Types.{Action, act_max}
use g0wm.Notify.Message.{Stored, is_default, put_action, read_actions}

-- The keys of the pairs.
abbrev pub pair_keys : List Bytes → List Bytes
pair_keys [] = []
pair_keys (key ∷ []) = []
pair_keys (key ∷ label ∷ strings) = key ∷ pair_keys strings

-- The keys that can be stored.
abbrev pub storable : ℕ → List Bytes → List Bytes
storable key_size [] = []
storable key_size (key ∷ keys) =
    let rest = storable key_size keys in
    if not (is_default key) && ltb (length key) key_size then key ∷ rest else rest

abbrev pub up_to : ℕ → List Bytes → List Bytes
up_to zero keys = []
up_to (suc n) [] = []
up_to (suc n) (key ∷ keys) = key ∷ up_to n keys

abbrev pub any_default : List Bytes → Bool
any_default [] = false
any_default (key ∷ keys) = is_default key || any_default keys

abbrev pub keys_of : List Action → List Bytes
keys_of [] = []
keys_of (action ∷ actions) = action.key ∷ keys_of actions

keys_of-append :
    (actions : List Action) (action : Action)
    → keys_of (actions ++ action ∷ []) ≡ keys_of actions ++ action.key ∷ []
keys_of-append [] action = refl
keys_of-append (one ∷ actions) action = ap (◌∷◌ one.key) (keys_of-append actions action)

append_step : (xs ys : List Bytes) (x : Bytes) → (xs ++ x ∷ []) ++ ys ≡ xs ++ x ∷ ys
append_step [] ys x = refl
append_step (one ∷ xs) ys x = ap (◌∷◌ one) (append_step xs ys x)

append_nil : (xs : List Bytes) → xs ++ [] ≡ xs
append_nil [] = refl
append_nil (one ∷ xs) = ap (◌∷◌ one) (append_nil xs)

up_to-nil : (n : ℕ) → up_to n [] ≡ []
up_to-nil zero = refl
up_to-nil (suc n) = refl

or_false : (b : Bool) → b ≡ (b || false)
or_false true = refl
or_false false = refl

or_true : (b : Bool) → true ≡ (b || true)
or_true true = refl
or_true false = refl

-- A key behind those that there are, with room for it.
keep_key :
    (keys rest all : List Bytes) (key : Bytes) (n m : ℕ)
    → all ≡ keys ++ key ∷ []
    → n ≡ suc m
    → all ++ up_to m rest ≡ keys ++ up_to n (key ∷ rest)
keep_key keys rest all key n m e r = rw (e, r) (append_step keys (up_to m rest) key)

module _ (key_size label_size : ℕ) (key label : Bytes) (a : Stored) where
  abbrev stored : Action
  stored = record { key = key; label = sanitize label_size (if is_empty label then key else label) }

  put_action-default :
      is_default key ≡ true
      → put_action key_size label_size key label a ≡ record a { hasdefault = true }
  unfolding put_action
  put_action-default d = rw d refl

  put_action-new :
      is_default key ≡ false
      → ltb (length key) key_size ≡ true
      → ltb (length a.act) act_max ≡ true
      → put_action key_size label_size key label a ≡ record a { act = a.act ++ stored ∷ [] }
  unfolding put_action
  put_action-new d f r = rw (d, f, r) refl

  put_action-left :
      is_default key ≡ false
      → (ltb (length a.act) act_max && ltb (length key) key_size) ≡ false
      → put_action key_size label_size key label a ≡ a
  unfolding put_action
  put_action-left d f = rw (d, f) refl

-- Of the pairs of a Notify call the first keys that fit and are not the default are stored, unchanged
-- and in order, as many as there is room for; and the default action is noted exactly if a key asks
-- for it.
pub read_actions-keys :
    (key_size label_size : ℕ) (strings : List Bytes) (a : Stored)
    → length a.act ≤ act_max
    → (keys_of (read_actions key_size label_size strings a).act
        ≡ keys_of a.act ++ up_to (act_max - length a.act) (storable key_size (pair_keys strings)))
      × ((read_actions key_size label_size strings a).hasdefault
          ≡ a.hasdefault || any_default (pair_keys strings))
unfolding read_actions
read_actions-keys key_size label_size [] a h = (
  sym (append_nil (keys_of a.act))
      ∙ ap (◌++◌ (keys_of a.act)) (sym (up_to-nil (act_max - length a.act))),
  or_false a.hasdefault,
)
read_actions-keys key_size label_size (key ∷ []) a h = (
  sym (append_nil (keys_of a.act))
      ∙ ap (◌++◌ (keys_of a.act)) (sym (up_to-nil (act_max - length a.act))),
  or_false a.hasdefault,
)
read_actions-keys key_size label_size (key ∷ label ∷ strings) a h =
    let put = put_action-default key_size label_size key label a in
    elim (Bool-cases (is_default key)) [
      | inl d ↦
          let ih =
            read_actions-keys key_size label_size strings (record a { hasdefault = true }) h in
          rw (put d, d) (ih.0, ih.1 ∙ or_true a.hasdefault)
      | inr d ↦
          let left = put_action-left key_size label_size key label a d in
          let same = read_actions-keys key_size label_size strings a h in
          elim (Bool-cases (ltb (length key) key_size)) [
            | inr f ↦ rw (left (ground (arith, f)), d, f) same
            | inl f ↦ elim (Bool-cases (ltb (length a.act) act_max)) [
              | inr r ↦
                  let full : act_max - length a.act ≡ 0 = ground (arith, r) in
                  rw (left (ground (arith, r)), d, f) (same.0 ∙ rw full refl, same.1)
              | inl r ↦
                  let new = stored key_size label_size key label a in
                  let longer = length-append a.act (new ∷ []) in
                  let room : length (a.act ++ new ∷ []) ≤ act_max = ground (arith, r, longer) in
                  let ih =
                    read_actions-keys key_size label_size strings
                      (record a { act = a.act ++ new ∷ [] }) room in
                  let next : act_max - length a.act ≡ suc (act_max - length (a.act ++ new ∷ [])) =
                    omega arith in
                  rw (put_action-new key_size label_size key label a d f r, d, f)
                    (
                      ih.0
                          ∙ keep_key (keys_of a.act) (storable key_size (pair_keys strings))
                              (keys_of (a.act ++ new ∷ [])) key (act_max - length a.act)
                              (act_max - length (a.act ++ new ∷ [])) (keys_of-append a.act new)
                              next,
                      ih.1,
                    )
            ]
          ]
    ]
