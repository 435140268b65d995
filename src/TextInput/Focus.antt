-- ===== src/TextInput/Focus.antt =====
-- src/input/textinput.c: proofs on the text inputs that have the focus.
use mathlib.Core.Path.{subst}
use mathlib.Core.Option.{some-injective}
use g0wm.Common.{
  ℕ, ◌≡◌, refl, sym, ap, ◌∙◌, true, false, Option, none, some, List, [], ◌∷◌, ◌==◌, mem, arith,
  Bool-cases, ◌⊎◌, inl, inr, if◌then◌else◌,
}
use g0wm.TextInput.{
  State, Wlroots, same_option, is_some, deactivate, leave_one, enter_one, sync_one, sync_all,
  is_stale, sync,
}

-- What wlroots documents: a text input that is told of a leave has no surface, one that is told of an
-- enter has that surface, and no other text input is touched.
pub record Documented (w : Wlroots) : Type 0 where
  pub left :
      (t u : ℕ) (focused : ℕ → Option ℕ)
      → w.send_leave t focused u ≡ (if u == t then none else focused u)
  pub entered :
      (t f u : ℕ) (focused : ℕ → Option ℕ)
      → w.send_enter t f focused u ≡ (if u == t then some f else focused u)

-- The surface that a text input is to have, for the one that has the keyboard.
abbrev pub wanted : Option ℕ → ℕ → State → Option ℕ
wanted none t s = none
wanted (some f) t s = if s.owner t == s.surface_owner f then some f else none

-- A text input has only surfaces of its own client.
abbrev pub Own : State → ℕ → Type 0
Own s t = (f : ℕ) → s.focused t ≡ some f → (s.owner t == s.surface_owner f) ≡ true

-- What a synchronization does not touch.
pub record Kept (s u : State) : Type 0 where
  pub same_im : u.im ≡ s.im
  pub same_inputs : u.inputs ≡ s.inputs
  pub same_owner : u.owner ≡ s.owner
  pub same_surface_owner : u.surface_owner ≡ s.surface_owner
  pub same_keyboard_focus : u.keyboard_focus ≡ s.keyboard_focus

same_both : (a b : Option ℕ) → same_option a b ≡ true → a ≡ b
same_both none none h = refl
same_both (some a) (some b) h = ground arith
same_both none (some b) h = cc h
same_both (some a) none h = cc h

module _ (w : Wlroots) (doc : Documented w) where
  leave_one-Kept : (t : ℕ) (s : State) → Kept s (leave_one w t s)
  unfolding leave_one
  leave_one-Kept t s = ground arith

  enter_one-Kept : (surface : Option ℕ) (t : ℕ) (s : State) → Kept s (enter_one w surface t s)
  unfolding enter_one
  enter_one-Kept none t s = ground arith
  enter_one-Kept (some f) t s = ground arith

  sync_one-Kept : (surface : Option ℕ) (t : ℕ) (s : State) → Kept s (sync_one w surface t s)
  unfolding sync_one
  sync_one-Kept surface t s =
      ground (arith, leave_one-Kept t s, enter_one-Kept surface t (leave_one w t s))

  pub sync_all-Kept :
      (surface : Option ℕ) (inputs : List ℕ) (s : State) → Kept s (sync_all w surface inputs s)
  unfolding sync_all
  sync_all-Kept surface [] s = ground arith
  sync_all-Kept surface (t ∷ inputs) s =
      ground
        (arith, sync_one-Kept surface t s, sync_all-Kept surface inputs (sync_one w surface t s))

  leave_one-focused :
      (t u : ℕ) (s : State) → (leave_one w t s).focused u ≡ (if u == t then none else s.focused u)
  unfolding leave_one
  leave_one-focused t u s = elim (Bool-cases (is_some (s.focused t))) [
    | inl e ↦ rw e (doc.left t u s.focused)
    | inr e ↦
        let without : s.focused t ≡ none = ground (arith, e) in
        elim (Bool-cases (u == t)) [
          | inl k ↦ let same : u ≡ t = ground (arith, k) in rw (e, k) (ap s.focused same ∙ without)
          | inr k ↦ rw (e, k) refl
        ]
  ]

  enter_one-focused :
      (surface : Option ℕ) (t u : ℕ) (s : State)
      → (t == u) ≡ false
      → (enter_one w surface t s).focused u ≡ s.focused u
  unfolding enter_one
  enter_one-focused none t u s e = refl
  enter_one-focused (some f) t u s e = ground (arith, doc.entered t f u s.focused)

  entered_own :
      (surface : Option ℕ) (t : ℕ) (s : State)
      → s.focused t ≡ none
      → (enter_one w surface t s).focused t ≡ wanted surface t s
  unfolding enter_one
  entered_own none t s e = e
  entered_own (some f) t s e = ground (arith, doc.entered t f t s.focused)

  wanted_same :
      (surface : Option ℕ) (t : ℕ) (s u : State)
      → Kept s u
      → wanted surface t u ≡ wanted surface t s
  wanted_same none t s u k = refl
  wanted_same (some f) t s u k =
      ap (λ (o : ℕ → ℕ). if o t == u.surface_owner f then some f else none) k.same_owner
      ∙ ap (λ (o : ℕ → ℕ). if s.owner t == o f then some f else none) k.same_surface_owner

  -- The text input of a turn has the surface that it is to have afterwards, the others have theirs.
  sync_one-wanted :
      (surface : Option ℕ) (t : ℕ) (s : State)
      → Own s t
      → (sync_one w surface t s).focused t ≡ wanted surface t s
  unfolding sync_one
  sync_one-wanted surface t s own = elim (Bool-cases (same_option (s.focused t) surface)) [
    | inl e ↦ rw e (already surface (same_both (s.focused t) surface e))
    | inr e ↦
        let gone : (leave_one w t s).focused t ≡ none = leave_one-focused t t s ∙ ground arith in
        rw e (
          entered_own surface t (leave_one w t s) gone
          ∙ wanted_same surface t s (leave_one w t s) (leave_one-Kept t s))
  ]
    where
      already : (o : Option ℕ) → s.focused t ≡ o → s.focused t ≡ wanted o t s
      already none e = e
      already (some f) e = e ∙ sym (rw (own f e) refl)

  sync_one-others :
      (surface : Option ℕ) (t u : ℕ) (s : State)
      → (u == t) ≡ false
      → (sync_one w surface t s).focused u ≡ s.focused u
  unfolding sync_one
  sync_one-others surface t u s e =
      let apart : (t == u) ≡ false = ground (arith, e) in
      let first : (leave_one w t s).focused u ≡ s.focused u = leave_one-focused t u s ∙ rw e refl in
      let both = enter_one-focused surface t u (leave_one w t s) apart ∙ first in
      elim (Bool-cases (same_option (s.focused t) surface)) [
        | inl k ↦ rw k refl
        | inr k ↦ rw k both
      ]

  wanted-Own : (surface : Option ℕ) (t : ℕ) (s : State) → s.focused t ≡ wanted surface t s → Own s t
  wanted-Own none t s e f h = cc (e, h)
  wanted-Own (some g) t s e f h = elim (Bool-cases (s.owner t == s.surface_owner g)) [
    | inl k ↦
        let has : wanted (some g) t s ≡ some g = rw k refl in
        let same : g ≡ f = some-injective g f (sym has ∙ sym e ∙ h) in
        ap (λ x. s.owner t == s.surface_owner x) (sym same) ∙ k
    | inr k ↦ let has : wanted (some g) t s ≡ none = rw k refl in cc (sym has ∙ sym e ∙ h)
  ]

  Own-Kept : (s u : State) (t : ℕ) → Kept s u → u.focused t ≡ s.focused t → Own s t → Own u t
  Own-Kept s u t k e own f h =
      ap (λ (o : ℕ → ℕ). o t == u.surface_owner f) k.same_owner
      ∙ ap (λ (o : ℕ → ℕ). s.owner t == o f) k.same_surface_owner
      ∙ own f (sym e ∙ h)

  -- After a turn every text input has surfaces of its own client only.
  sync_one-Own :
      (surface : Option ℕ) (t u : ℕ) (s : State)
      → Own s t
      → Own s u
      → Own (sync_one w surface t s) u
  sync_one-Own surface t u s own other = elim (Bool-cases (u == t)) [
    | inl e ↦
        let same : t ≡ u = ground (arith, e) in
        subst (λ x. Own (sync_one w surface t s) x) same
          (wanted-Own surface t (sync_one w surface t s) (
            sync_one-wanted surface t s own
            ∙ sym (wanted_same surface t s (sync_one w surface t s) (sync_one-Kept surface t s))))
    | inr e ↦
        Own-Kept s (sync_one w surface t s) u (sync_one-Kept surface t s)
          (sync_one-others surface t u s e) other
  ]

  still :
      (inputs : List ℕ) (surface : Option ℕ) (u t : ℕ) (s after : State)
      → (t == u) ≡ false
      → after.focused t ≡ s.focused t
      → wanted surface t after ≡ wanted surface t s
      → ((mem t (u ∷ inputs) ≡ true) ⊎ (s.focused t ≡ wanted surface t s))
      → ((mem t inputs ≡ true) ⊎ (after.focused t ≡ wanted surface t after))
  still inputs surface u t s after e f g (inl m) = inl (ground (arith, m, e))
  still inputs surface u t s after e f g (inr h) = inr (f ∙ h ∙ sym g)

  sync_all-wanted :
      (surface : Option ℕ) (inputs : List ℕ) (s : State) (t : ℕ)
      → ((u : ℕ) → mem u inputs ≡ true → Own s u)
      → ((mem t inputs ≡ true) ⊎ (s.focused t ≡ wanted surface t s))
      → (sync_all w surface inputs s).focused t ≡ wanted surface t s
  unfolding sync_all
  sync_all-wanted surface [] s t own (inl m) = cc m
  sync_all-wanted surface [] s t own (inr e) = e
  sync_all-wanted surface (u ∷ inputs) s t own h =
      let after = sync_one w surface u s in
      let kept = sync_one-Kept surface u s in
      let here = own u (ground arith) in
      let others = λ (v : ℕ) (m : mem v inputs ≡ true).
        sync_one-Own surface u v s here (own v (ground (arith, m))) in
      let rest = sync_all-wanted surface inputs after t others in
      elim (Bool-cases (t == u)) [
        | inl e ↦
            let same : u ≡ t = ground (arith, e) in
            let set : after.focused t ≡ wanted surface t s =
              subst (λ x. after.focused x ≡ wanted surface x s) same
                (sync_one-wanted surface u s here) in
            rest (inr (set ∙ sym (wanted_same surface t s after kept)))
            ∙ wanted_same surface t s after kept
        | inr e ↦
            let left = sync_one-others surface u t s e in
            rest (still inputs surface u t s after e left (wanted_same surface t s after kept) h)
            ∙ wanted_same surface t s after kept
      ]

  fresh-Kept :
      (surface : Option ℕ) (s : State)
      → let fresh = if is_stale w surface s then deactivate s else s in
        Kept s fresh × (fresh.focused ≡ s.focused)
  unfolding deactivate
  fresh-Kept surface s = ground arith

  -- After a synchronization each text input has the surface with the focus, if an input method is
  -- connected and the surface is of its own client, and none otherwise; if before no text input has a
  -- surface of another client, and wlroots keeps to what it documents.
  pub sync-wanted :
      (focus : Option ℕ) (s : State) (t : ℕ)
      → ((u : ℕ) → mem u s.inputs ≡ true → Own s u)
      → mem t s.inputs ≡ true
      → (sync w focus s).focused t ≡ wanted (if is_some s.im then focus else none) t s
  unfolding sync
  sync-wanted focus s t own m =
      let surface = if is_some s.im then focus else none in
      let fresh = if is_stale w surface s then deactivate s else s in
      let kept = fresh-Kept surface s in
      let listed : mem t fresh.inputs ≡ true = ap (mem t) kept.0.same_inputs ∙ m in
      sync_all-wanted surface fresh.inputs fresh t
        (λ u h.
          Own-Kept s fresh u kept.0 (λ i. kept.1 i u)
            (own u (sym (ap (mem u) kept.0.same_inputs) ∙ h)))
        (inl listed)
      ∙ wanted_same surface t s fresh kept.0

  pub sync-Kept : (focus : Option ℕ) (s : State) → Kept s (sync w focus s)
  unfolding sync
  sync-Kept focus s =
      let surface = if is_some s.im then focus else none in
      let fresh = if is_stale w surface s then deactivate s else s in
      ground (arith, fresh-Kept surface s, sync_all-Kept surface fresh.inputs fresh)
