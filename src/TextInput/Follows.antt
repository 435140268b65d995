-- ===== src/TextInput/Follows.antt =====
-- src/input/textinput.c: proofs on which text inputs have a surface and which one is served.
use mathlib.Core.Option.{some-injective}
use g0wm.Common.{
  ℕ, ◌≡◌, refl, sym, ap, ◌∙◌, Bool, true, false, not, ◌||◌, Option, none, some, List, [], ◌∷◌, ◌==◌,
  mem, arith, Bool-cases, ◌⊎◌, inl, inr, if◌then◌else◌,
}
use g0wm.TextInput.{
  im_connected, Input, Composed, State, Wlroots, ask, same_option, is_some, send_state, deactivate,
  activate, update, handle_disable, handle_destroy, without, handle_im_commit, sync, is_stale,
  handle_new_input_method, handle_new_text_input,
}
use g0wm.TextInput.Sees.{sync_all-SameTold, deactivate-served}
use g0wm.TextInput.Focus.{Documented, Own, Kept, wanted, sync-wanted, sync-Kept}

-- A text input that is listed has a surface only while an input method is connected, and it is the one
-- of the keyboard and of its own client; the one that is served is listed.
pub record Follows (s : State) : Type 0 where
  pub follows :
      (t f : ℕ)
      → mem t s.inputs ≡ true
      → s.focused t ≡ some f
      → (is_some s.im ≡ true)
        × (s.keyboard_focus ≡ some f)
        × ((s.owner t == s.surface_owner f) ≡ true)
  pub listed : (t : ℕ) → s.served ≡ some t → mem t s.inputs ≡ true

-- What a handler that moves no focus leaves.
pub record Quiet (s u : State) : Type 0 where
  kept : Kept s u
  same_focus : u.focused ≡ s.focused

deactivate-Quiet : (s : State) → Quiet s (deactivate s)
unfolding deactivate
deactivate-Quiet s = ground arith

pub update-Quiet : (t : ℕ) (input : Input) (s : State) → Quiet s (update t input s)
unfolding update activate send_state
update-Quiet t input s = ground (arith, deactivate-Quiet s)

pub update-served :
    (t : ℕ) (input : Input) (s : State)
    → ((update t input s).served ≡ s.served) ⊎ ((update t input s).served ≡ some t)
unfolding update activate send_state
update-served t input s =
    elim (Bool-cases (not (is_some s.im) || not (is_some (s.focused t)) || not input.enabled)) [
      | inl e ↦ inl (rw e refl)
      | inr e ↦ elim (Bool-cases (same_option (some t) s.served)) [
        | inl f ↦ inl (rw (e, f) refl)
        | inr f ↦ inr (rw (e, f) refl)
      ]
    ]

pub handle_disable-Quiet : (t : ℕ) (s : State) → Quiet s (handle_disable t s)
unfolding handle_disable
handle_disable-Quiet t s = ground (arith, deactivate-Quiet s)

pub handle_im_commit-Quiet :
    (c : Composed) (s : State)
    → Quiet s (handle_im_commit c s) × ((handle_im_commit c s).served ≡ s.served)
unfolding handle_im_commit
handle_im_commit-Quiet c s = ground arith

pub Quiet-Follows :
    (s u : State)
    → Quiet s u
    → ((t : ℕ) → u.served ≡ some t → mem t s.inputs ≡ true)
    → Follows s
    → Follows u
Quiet-Follows s u q l v = record {
  follows = λ t f m e.
      let (im, kf, own) =
        v.follows t f (sym (ap (mem t) q.kept.same_inputs) ∙ m)
          (sym (ap (λ (g : ℕ → Option ℕ). g t) q.same_focus) ∙ e) in
      (
        ap is_some q.kept.same_im ∙ im,
        q.kept.same_keyboard_focus ∙ kf,
        ap (λ (o : ℕ → ℕ). o t == u.surface_owner f) q.kept.same_owner
            ∙ ap (λ (o : ℕ → ℕ). s.owner t == o f) q.kept.same_surface_owner
            ∙ own,
      );
  listed = λ t e. ap (mem t) q.kept.same_inputs ∙ l t e;
}

mem-without : (t u : ℕ) (inputs : List ℕ) → mem u (without t inputs) ≡ true → mem u inputs ≡ true
mem-without t u [] m = cc m
mem-without t u (x ∷ inputs) m = ground (arith, m, mem-without t u inputs)

without-mem :
    (t u : ℕ) (inputs : List ℕ)
    → (t == u) ≡ false
    → mem u inputs ≡ true
    → mem u (without t inputs) ≡ true
without-mem t u [] e m = cc m
without-mem t u (x ∷ inputs) e m = ground (arith, m, e, without-mem t u inputs)

pub handle_disable-served :
    (t u : ℕ) (s : State)
    → (handle_disable t s).served ≡ some u
    → (s.served ≡ some u) × ((t == u) ≡ false)
unfolding handle_disable deactivate
handle_disable-served t u s e = ground (arith, e)

pub handle_destroy-Follows : (t : ℕ) (s : State) → Follows s → Follows (handle_destroy t s)
unfolding handle_destroy
handle_destroy-Follows t s v =
    let after = handle_disable t s in
    let quiet =
      Quiet-Follows s after (handle_disable-Quiet t s)
        (λ u e. v.listed u (handle_disable-served t u s e).0) v in
    record {
      follows = λ u f m e. quiet.follows u f (mem-without t u after.inputs m) e;
      listed =
          λ u e. without-mem t u after.inputs (handle_disable-served t u s e).1 (quiet.listed u e);
    }

wanted-some :
    (o : Option ℕ) (t f : ℕ) (s : State)
    → wanted o t s ≡ some f
    → (o ≡ some f) × ((s.owner t == s.surface_owner f) ≡ true)
wanted-some none t f s e = cc e
wanted-some (some g) t f s e = elim (Bool-cases (s.owner t == s.surface_owner g)) [
  | inl k ↦
      let here : wanted (some g) t s ≡ some g = rw k refl in
      let has : some g ≡ some f = sym here ∙ e in
      (has, ap (λ x. s.owner t == s.surface_owner x) (sym (some-injective g f has)) ∙ k)
  | inr k ↦ let gone : wanted (some g) t s ≡ none = rw k refl in cc (sym gone ∙ e)
]

connected_some :
    (b : Bool) (focus : Option ℕ) (f : ℕ)
    → (if b then focus else none) ≡ some f
    → (b ≡ true) × (focus ≡ some f)
connected_some true focus f e = (refl, e)
connected_some false focus f e = cc e

module _ (w : Wlroots) (doc : Documented w) where
  sync-served :
      (focus : Option ℕ) (s : State)
      → ((sync w focus s).served ≡ none) ⊎ ((sync w focus s).served ≡ s.served)
  unfolding sync
  sync-served focus s =
      let surface = if is_some s.im then focus else none in
      elim (Bool-cases (is_stale w surface s)) [
        | inl e ↦ inl (
            rw e (
              (sync_all-SameTold w surface (deactivate s).inputs (deactivate s)).same_served
              ∙ deactivate-served s))
        | inr e ↦ inr (rw e (sync_all-SameTold w surface s.inputs s).same_served)
      ]

  pub sync-Follows :
      (focus : Option ℕ) (s : State)
      → ((u : ℕ) → mem u s.inputs ≡ true → Own s u)
      → ((u : ℕ) → s.served ≡ some u → mem u s.inputs ≡ true)
      → (is_some s.im ≡ true → s.keyboard_focus ≡ focus)
      → Follows (sync w focus s)
  sync-Follows focus s own listed kf =
      let kept = sync-Kept w doc focus s in
      record {
        follows = λ t f m e.
            let here : mem t s.inputs ≡ true = sym (ap (mem t) kept.same_inputs) ∙ m in
            let asked =
              wanted-some (if is_some s.im then focus else none) t f s
                (sym (sync-wanted w doc focus s t own here) ∙ e) in
            let both = connected_some (is_some s.im) focus f asked.0 in
            (
              ap is_some kept.same_im ∙ both.0,
              kept.same_keyboard_focus ∙ kf both.0 ∙ both.1,
              ap (λ (o : ℕ → ℕ). o t == (sync w focus s).surface_owner f) kept.same_owner
                  ∙ ap (λ (o : ℕ → ℕ). s.owner t == o f) kept.same_surface_owner
                  ∙ asked.1,
            );
        listed = λ t e. ap (mem t) kept.same_inputs ∙ still_listed t e (sync-served focus s);
      }
    where
      still_listed :
          (t : ℕ)
          → (sync w focus s).served ≡ some t
          → ((sync w focus s).served ≡ none) ⊎ ((sync w focus s).served ≡ s.served)
          → mem t s.inputs ≡ true
      still_listed t e (inl n) = cc (sym n ∙ e)
      still_listed t e (inr n) = listed t (sym n ∙ e)

  pub Follows-Own : (s : State) → Follows s → (u : ℕ) → mem u s.inputs ≡ true → Own s u
  Follows-Own s v u m f e = (v.follows u f m e).2

  pub changed-Follows :
      (t : ℕ) (input : Input) (s : State)
      → mem t s.inputs ≡ true
      → Follows s
      → Follows (update t input s)
  changed-Follows t input s m v =
      Quiet-Follows s (update t input s) (update-Quiet t input s)
        (λ u e. go u e (update-served t input s)) v
    where
      go :
          (u : ℕ)
          → (update t input s).served ≡ some u
          → ((update t input s).served ≡ s.served) ⊎ ((update t input s).served ≡ some t)
          → mem u s.inputs ≡ true
      go u e (inl n) = v.listed u (sym n ∙ e)
      go u e (inr n) =
          let same : t ≡ u = some-injective t u (sym n ∙ e) in
          ap (λ x. mem x s.inputs) (sym same) ∙ m

  pub new_text_input-Follows :
      (t : ℕ) (s : State) → s.focused t ≡ none → Follows s → Follows (handle_new_text_input w t s)
  unfolding handle_new_text_input
  new_text_input-Follows t s n v =
      sync-Follows s.keyboard_focus (record s { inputs = t ∷ s.inputs })
        (λ u m f e. elim (Bool-cases (t == u)) [
          | inl k ↦ let same : t ≡ u = ground (arith, k) in cc (sym n ∙ ap s.focused same ∙ e)
          | inr k ↦ Follows-Own s v u (ground (arith, m, k)) f e
        ])
        (λ u e. ground (arith, v.listed u e)) (λ i. refl)

  pub new_input_method-Follows :
      (im : ℕ) (s : State) → Follows s → Follows (handle_new_input_method w im s)
  unfolding handle_new_input_method
  new_input_method-Follows im s v = elim (Bool-cases (is_some s.im)) [
    | inl e ↦ rw e (record { follows = v.follows; listed = v.listed })
    | inr e ↦ rw e (
        sync-Follows s.keyboard_focus (ask im_connected (record s { im = some im }))
          (Follows-Own s v) v.listed (λ i. refl))
  ]
