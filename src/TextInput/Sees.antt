-- ===== src/TextInput/Sees.antt =====
-- src/input/textinput.c: what the input method is told.
use g0wm.Common.{
  ℕ, ◌≡◌, refl, sym, ap, ◌∙◌, true, false, not, ◌||◌, Option, none, some, List, [], ◌∷◌, arith,
  Bool-cases, ◌⊎◌, inl, inr, if◌then◌else◌,
}
use g0wm.TextInput.{
  Request, im_unavailable, im_connected, im_activate, im_deactivate, im_text, im_cause, im_type,
  im_done, popups_placed, leave, enter, Input, Composed, State, Wlroots, ask, same_option, is_some,
  send_state, deactivate, activate, update, handle_disable, handle_destroy, handle_im_commit,
  leave_one, enter_one, sync_one, sync_all, is_stale, sync, handle_im_destroy,
  handle_new_input_method, handle_new_text_input, handle_focus_change,
}

-- Whether the input method is active, and whether it has been told so with a done.
pub data Phase : Type 0 where
  off on off_pending on_pending : Phase

-- What a call makes of it; `none` for a call that does not belong there.
abbrev pub tell : Phase → Request → Option Phase
tell p im_connected = some off
tell off im_activate = some on_pending
tell on im_deactivate = some off_pending
tell on im_text = some on_pending
tell on im_cause = some on_pending
tell on im_type = some on_pending
tell on_pending im_text = some on_pending
tell on_pending im_cause = some on_pending
tell on_pending im_type = some on_pending
tell on_pending im_done = some on
tell off_pending im_done = some off
tell p im_activate = none
tell p im_deactivate = none
tell p im_text = none
tell p im_cause = none
tell p im_type = none
tell p im_done = none
tell p other = some p

-- The calls, newest first.
abbrev pub sees : List Request → Option Phase
sees [] = some off
sees (r ∷ requests) = elim (sees requests) [ none ↦ none | some p ↦ tell p r ]

abbrev pub phase_of : Option ℕ → Phase
phase_of none = off
phase_of (some t) = on

-- With an input method, it has been told whether there is a text input for it to serve.
pub record Told (s : State) : Type 0 where
  pub served_im : s.im ≡ none → s.served ≡ none
  pub connected : is_some s.im ≡ true → sees s.requests ≡ some (phase_of s.served)
  pub alone : is_some s.im ≡ false → (p : Phase) × (sees s.requests ≡ some p)

deactivate-Told : (s : State) → Told s → Told (deactivate s)
unfolding deactivate
deactivate-Told s v = ground arith

send_state-Told :
    (input : Input) (s : State)
    → is_some s.im ≡ true
    → (sees s.requests ≡ some on) ⊎ (sees s.requests ≡ some on_pending)
    → sees (send_state input s).requests ≡ some on
unfolding send_state
send_state-Told input s i (inl e) = ground arith
send_state-Told input s i (inr e) = ground arith

pub deactivate-im : (s : State) → (deactivate s).im ≡ s.im
unfolding deactivate
deactivate-im s = ground arith

pub deactivate-served : (s : State) → (deactivate s).served ≡ none
unfolding deactivate
deactivate-served s = ground arith

active-Told :
    (s : State) (t : ℕ)
    → is_some s.im ≡ true
    → s.served ≡ some t
    → sees s.requests ≡ some on
    → Told s
active-Told s t i e h = ground arith

send_state-active :
    (input : Input) (s : State) (t : ℕ)
    → is_some s.im ≡ true
    → s.served ≡ some t
    → (sees s.requests ≡ some on) ⊎ (sees s.requests ≡ some on_pending)
    → Told (send_state input s)
unfolding send_state
send_state-active input s t i e h =
    let told = send_state-Told input s i h in active-Told (send_state input s) t i e told

activate-Told :
    (t : ℕ) (input : Input) (s : State) → is_some s.im ≡ true → Told s → Told (activate t input s)
unfolding activate
activate-Told t input s i v =
    let after = deactivate-Told s v in
    let im = deactivate-im s in
    let gone = deactivate-served s in
    send_state-active input (ask im_activate (record (deactivate s) { served = some t })) t
      (rw im i) refl (inr (ground (arith, after, im, gone, i)))

same_some : (t : ℕ) (o : Option ℕ) → same_option (some t) o ≡ true → o ≡ some t
same_some t none h = cc h
same_some t (some u) h = ground arith

pub update-Told : (t : ℕ) (input : Input) (s : State) → Told s → Told (update t input s)
unfolding update
update-Told t input s v =
    elim (Bool-cases (not (is_some s.im) || not (is_some (s.focused t)) || not input.enabled)) [
      | inl e ↦ rw e v
      | inr e ↦
          let i : is_some s.im ≡ true = ground (arith, e) in
          elim (Bool-cases (same_option (some t) s.served)) [
            | inl f ↦
                let here = same_some t s.served f in
                rw (e, f)
                  (send_state-active input s t i here
                    (inl (v.connected i ∙ ap (λ o. some (phase_of o)) here)))
            | inr f ↦ rw (e, f) (activate-Told t input s i v)
          ]
    ]

pub handle_disable-Told : (t : ℕ) (s : State) → Told s → Told (handle_disable t s)
unfolding handle_disable
handle_disable-Told t s v = ground (arith, deactivate-Told s v)

pub handle_im_commit-Told :
    (composed : Composed) (s : State) → Told s → Told (handle_im_commit composed s)
unfolding handle_im_commit
handle_im_commit-Told composed s v = ground arith

tell-leave : (p : Phase) (t : ℕ) → tell p (leave t) ≡ some p
tell-leave off t = refl
tell-leave on t = refl
tell-leave off_pending t = refl
tell-leave on_pending t = refl

tell-enter : (p : Phase) (t : ℕ) → tell p (enter t) ≡ some p
tell-enter off t = refl
tell-enter on t = refl
tell-enter off_pending t = refl
tell-enter on_pending t = refl

tell-popups_placed : (p : Phase) → tell p popups_placed ≡ some p
tell-popups_placed off = refl
tell-popups_placed on = refl
tell-popups_placed off_pending = refl
tell-popups_placed on_pending = refl

-- The same text input is served, and the input method has been told the same.
pub record SameTold (s u : State) : Type 0 where
  pub same_im : u.im ≡ s.im
  pub same_served : u.served ≡ s.served
  pub same_sees : sees u.requests ≡ sees s.requests

SameTold-Told : (s u : State) → SameTold s u → Told s → Told u
SameTold-Told s u e v = record {
  served_im = λ i. e.same_served ∙ v.served_im (sym e.same_im ∙ i);
  connected = λ i.
      e.same_sees
      ∙ v.connected (ap is_some (sym e.same_im) ∙ i)
      ∙ ap (λ o. some (phase_of o)) (sym e.same_served);
  alone = λ i. let (p, h) = v.alone (ap is_some (sym e.same_im) ∙ i) in (p, e.same_sees ∙ h);
}

told_append :
    (r : Request)
    → ((p : Phase) → tell p r ≡ some p)
    → (requests : List Request) → sees (r ∷ requests) ≡ sees requests
told_append r h requests = go (sees requests)
  where
    go :
        (o : Option Phase) → (elim o as (λ _. Option Phase) [ none ↦ none | some p ↦ tell p r ]) ≡ o
    go none = refl
    go (some p) = h p

told_unavailable : (p : Phase) → tell p im_unavailable ≡ some p
told_unavailable off = refl
told_unavailable on = refl
told_unavailable off_pending = refl
told_unavailable on_pending = refl

module _ (w : Wlroots) where
  leave_one-SameTold : (t : ℕ) (s : State) → SameTold s (leave_one w t s)
  unfolding leave_one
  leave_one-SameTold t s = ground (arith, told_append (leave t) (λ p. tell-leave p t) s.requests)

  enter_one-SameTold :
      (surface : Option ℕ) (t : ℕ) (s : State) → SameTold s (enter_one w surface t s)
  unfolding enter_one
  enter_one-SameTold none t s = ground arith
  enter_one-SameTold (some f) t s =
      ground (arith, told_append (enter t) (λ p. tell-enter p t) s.requests)

  sync_one-SameTold : (surface : Option ℕ) (t : ℕ) (s : State) → SameTold s (sync_one w surface t s)
  unfolding sync_one
  sync_one-SameTold surface t s =
      ground (arith, leave_one-SameTold t s, enter_one-SameTold surface t (leave_one w t s))

  pub sync_all-SameTold :
      (surface : Option ℕ) (inputs : List ℕ) (s : State) → SameTold s (sync_all w surface inputs s)
  unfolding sync_all
  sync_all-SameTold surface [] s = ground arith
  sync_all-SameTold surface (t ∷ inputs) s = ground (
    arith,
    sync_one-SameTold surface t s,
    sync_all-SameTold surface inputs (sync_one w surface t s),
  )

  sync-Told : (focus : Option ℕ) (s : State) → Told s → Told (sync w focus s)
  unfolding sync
  sync-Told focus s v =
      let surface = if is_some s.im then focus else none in
      let fresh = if is_stale w surface s then deactivate s else s in
      let told : Told fresh = ground (arith, deactivate-Told s v) in
      let all = sync_all-SameTold surface fresh.inputs fresh in
      let synced = SameTold-Told fresh (sync_all w surface fresh.inputs fresh) all told in
      SameTold-Told (sync_all w surface fresh.inputs fresh)
        (ask popups_placed (sync_all w surface fresh.inputs fresh))
        (record {
          same_im = refl;
          same_served = refl;
          same_sees =
              told_append popups_placed tell-popups_placed
                (sync_all w surface fresh.inputs fresh).requests;
        })
        synced

  sees-some : (s : State) → Told s → (p : Phase) × (sees s.requests ≡ some p)
  sees-some s v = elim (Bool-cases (is_some s.im)) [
    | inl e ↦ (phase_of s.served, v.connected e)
    | inr e ↦ v.alone e
  ]

  pub handle_im_destroy-Told : (s : State) → Told s → Told (handle_im_destroy w s)
  unfolding handle_im_destroy
  handle_im_destroy-Told s v =
      sync-Told none (record s { im = none; served = none })
        (record { served_im = λ i. refl; connected = λ i. cc i; alone = λ i. sees-some s v })

  Told-connected : (s : State) (im : ℕ) → Told s → sees (im_connected ∷ s.requests) ≡ some off
  Told-connected s im v = let (p, h) = sees-some s v in rw h (reset p)
    where
      reset : (p : Phase) → tell p im_connected ≡ some off
      reset off = refl
      reset on = refl
      reset off_pending = refl
      reset on_pending = refl

  new_Told :
      (im : ℕ) (s : State)
      → is_some s.im ≡ false
      → Told s
      → Told (ask im_connected (record s { im = some im }))
  new_Told im s e v =
      let unserved : s.served ≡ none = ground (arith, v, e) in
      record {
        served_im = λ i. unserved;
        connected = λ i. Told-connected s im v ∙ ap (λ o. some (phase_of o)) (sym unserved);
        alone = λ i. cc i;
      }

  pub handle_new_input_method-Told :
      (im : ℕ) (s : State) → Told s → Told (handle_new_input_method w im s)
  unfolding handle_new_input_method
  handle_new_input_method-Told im s v = elim (Bool-cases (is_some s.im)) [
    | inl e ↦ rw e (
        SameTold-Told s (ask im_unavailable s)
          (record {
            same_im = refl;
            same_served = refl;
            same_sees = told_append im_unavailable told_unavailable s.requests;
          })
          v)
    | inr e ↦ rw e (
        sync-Told s.keyboard_focus (ask im_connected (record s { im = some im }))
          (new_Told im s e v))
  ]

  pub handle_new_text_input-Told : (t : ℕ) (s : State) → Told s → Told (handle_new_text_input w t s)
  unfolding handle_new_text_input
  handle_new_text_input-Told t s v =
      sync-Told s.keyboard_focus (record s { inputs = t ∷ s.inputs })
        (SameTold-Told s (record s { inputs = t ∷ s.inputs })
          (record { same_im = refl; same_served = refl; same_sees = refl }) v)

  pub handle_focus_change-Told :
      (surface : Option ℕ) (s : State) → Told s → Told (handle_focus_change w surface s)
  unfolding handle_focus_change
  handle_focus_change-Told surface s v =
      sync-Told surface (record s { keyboard_focus = surface })
        (SameTold-Told s (record s { keyboard_focus = surface })
          (record { same_im = refl; same_served = refl; same_sees = refl }) v)

pub handle_destroy-Told : (t : ℕ) (s : State) → Told s → Told (handle_destroy t s)
unfolding handle_destroy
handle_destroy-Told t s v =
    SameTold-Told (handle_disable t s) (handle_destroy t s)
      (record { same_im = refl; same_served = refl; same_sees = refl }) (handle_disable-Told t s v)
