-- ===== src/Gesture/Client.antt =====
-- src/input/gesture.c: what the client sees of gestures.
use g0wm.Common.{
  ℕ, ◌≡◌, refl, Bool, true, false, ◌&&◌, Option, none, some, Bytes, List, [], ◌∷◌, ◌++◌, ◌==◌,
  Bool-cases, ◌⊎◌, inl, inr, if◌then◌else◌,
}
use g0wm.Gesture.{
  Event, swipe_begin, swipe_update, swipe_end, pinch_begin, pinch_update, pinch_end, hold_begin,
  hold_end, Binding, Env, Output, activity, sent, ran, zoomed, called, run_bindings,
}

pub data Kind : Type 0 where
  swipe pinch hold : Kind

-- Whole gestures: the one that is under way after an event, `none` if the event does not belong there.
abbrev pub follow : {D : Type 0} → Option Kind → Event D → Option (Option Kind)
follow none (swipe_begin time count) = some (some swipe)
follow (some swipe) (swipe_update time x y) = some (some swipe)
follow (some swipe) (swipe_end time cancelled) = some none
follow none (pinch_begin time count) = some (some pinch)
follow (some pinch) (pinch_update time x y by rotation) = some (some pinch)
follow (some pinch) (pinch_end time cancelled) = some none
follow none (hold_begin time count) = some (some hold)
follow (some hold) (hold_end time cancelled) = some none
follow _ _ = none

abbrev pub follow_all : {D : Type 0} → Option Kind → List (Env D × Event D) → Option (Option Kind)
follow_all k [] = some k
follow_all k ((env, event) ∷ events) = elim (follow k event) [
  | none ↦ none
  | some after ↦ follow_all after events
]

-- What the client sees of a run of outputs: whole gestures, and no binding or zoom in the midst of one.
abbrev pub client_sees : {D : Type 0} → Option Kind → List (Output D) → Option (Option Kind)
client_sees k [] = some k
client_sees k (activity ∷ outputs) = client_sees k outputs
client_sees k (sent event ∷ outputs) = elim (follow k event) [
  | none ↦ none
  | some after ↦ client_sees after outputs
]
client_sees none (ran func ∷ outputs) = client_sees none outputs
client_sees none (zoomed monitor level ∷ outputs) = client_sees none outputs
client_sees (some k) (_ ∷ outputs) = none

pub client_sees-append :
    (D : Type 0) (k after : Option Kind) (xs ys : List (Output D))
    → client_sees k xs ≡ some after
    → client_sees k (xs ++ ys) ≡ client_sees after ys
client_sees-append D k after [] ys h = cc h
client_sees-append D k after (activity ∷ xs) ys h = client_sees-append D k after xs ys h
client_sees-append D none after (ran func ∷ xs) ys h = client_sees-append D none after xs ys h
client_sees-append D none after (zoomed monitor level ∷ xs) ys h =
    client_sees-append D none after xs ys h
client_sees-append D (some k) after (ran func ∷ xs) ys h = cc h
client_sees-append D (some k) after (zoomed monitor level ∷ xs) ys h = cc h
client_sees-append D k after (sent event ∷ xs) ys h =
    go (follow k event) (λ j e. client_sees-append D j after xs ys e) h
  where
    go :
        (next : Option (Option Kind))
        → ((j : Option Kind)
            → client_sees j xs ≡ some after
            → client_sees j (xs ++ ys) ≡ client_sees after ys)
        → (elim next as (λ _. Option (Option Kind)) [ none ↦ none | some j ↦ client_sees j xs ])
          ≡ some after
        → (elim next as (λ _. Option (Option Kind)) [
          | none ↦ none
          | some j ↦ client_sees j (xs ++ ys)
        ])
          ≡ client_sees after ys
    go none ih e = cc e
    go (some j) ih e = ih j e

pub client_sees-run_bindings :
    (D : Type 0) (motion fingers : ℕ) (gestures : List Binding)
    → client_sees {D = D} none (run_bindings motion fingers gestures) ≡ some none
unfolding run_bindings
client_sees-run_bindings D motion fingers [] = refl
client_sees-run_bindings D motion fingers (gesture ∷ gestures) =
    elim (Bool-cases ((gesture.motion == motion) && (gesture.fingers == fingers))) [
      | inl e ↦ rw e (once gesture.func (client_sees-run_bindings D motion fingers gestures))
      | inr e ↦ rw e (client_sees-run_bindings D motion fingers gestures)
    ]
  where
    once :
        (func : Option Bytes)
        → client_sees {D = D} none (run_bindings motion fingers gestures) ≡ some none
        → client_sees {D = D} none (called func ++ run_bindings motion fingers gestures) ≡ some none
    once none h = h
    once (some func) h = h

pub unless_run :
    (D : Type 0) (stopped : Bool) (outputs : List (Output D))
    → client_sees none outputs ≡ some none
    → client_sees none (if stopped then [] else outputs) ≡ some none
unless_run D true outputs h = refl
unless_run D false outputs h = h

pub option_cases {ℓ} : {A : Type ℓ} (o : Option A) → (o ≡ none) ⊎ ((a : A) × (o ≡ some a))
option_cases none = inl refl
option_cases (some a) = inr (a, refl)
