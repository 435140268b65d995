-- ===== src/Settings/RoundTrip/Between.antt =====
-- src/core/settings/read.c: proofs on what an assignment leaves of the variables.
use g0wm.Common.{
  ℕ, ◌≡◌, refl, ◌∙◌, ◌⊎◌, inl, inr, Bool, Option, Bytes, bytes_eq, bytes_eq_refl, bytes_eq_sound,
  Bool-cases,
}
use g0wm.Settings.Types.{Store, assign}
use g0wm.Settings.Tables.{Kind, uint, flag, string, color, mods, number, enum}
use g0wm.Settings.RoundTrip.Covers.{Keeps}

assign-same {ℓ} : {A : Type ℓ} (var : Bytes) (a : A) (f : Bytes → A) → assign var a f var ≡ a
assign-same var a f = rw (bytes_eq_refl var) refl

assign-between {ℓ} :
    {A : Type ℓ} (var : Bytes) (a : A) (f g : Bytes → A) (x : Bytes)
    → a ≡ g var
    → (assign var a f x ≡ f x) ⊎ (assign var a f x ≡ g x)
assign-between var a f g x e = elim (Bool-cases (bytes_eq x var)) [
  | inl k ↦ inr (rw (k, bytes_eq_sound x var k) e)
  | inr k ↦ inl (rw k refl)
]

later {ℓ} : {A : Type ℓ} {a b c s : A} → (b ≡ a) ⊎ (b ≡ s) → (c ≡ b) ⊎ (c ≡ s) → (c ≡ a) ⊎ (c ≡ s)
later (inl e) (inl f) = inl (f ∙ e)
later (inr e) (inl f) = inr (f ∙ e)
later e (inr f) = inr f

module _ {D : Type 0} (s : Store D) where
  -- Every variable of `u` is as in `t` or as in `s`.
  pub record IsBetween (t u : Store D) : Type 0 where
    pub uints_between : (x : Bytes) → (u.uints x ≡ t.uints x) ⊎ (u.uints x ≡ s.uints x)
    numbers_between : (x : Bytes) → (u.numbers x ≡ t.numbers x) ⊎ (u.numbers x ≡ s.numbers x)
    flags_between : (x : Bytes) → (u.flags x ≡ t.flags x) ⊎ (u.flags x ≡ s.flags x)
    strings_between : (x : Bytes) → (u.strings x ≡ t.strings x) ⊎ (u.strings x ≡ s.strings x)
    colors_between : (x : Bytes) → (u.colors x ≡ t.colors x) ⊎ (u.colors x ≡ s.colors x)
    enums_between : (x : Bytes) → (u.enums x ≡ t.enums x) ⊎ (u.enums x ≡ s.enums x)

  either {ℓ} : {A : Type ℓ} {a b c : A} → (a ≡ b) ⊎ (a ≡ c) → b ≡ c → a ≡ c
  either (inl e) h = e ∙ h
  either (inr e) h = e

  pub IsBetween-Keeps :
      (var : Bytes) (kind : Kind) (t u : Store D)
      → IsBetween t u
      → Keeps s var kind t
      → Keeps s var kind u
  IsBetween-Keeps var uint t u b h = either (b.uints_between var) h
  IsBetween-Keeps var flag t u b h = either (b.flags_between var) h
  IsBetween-Keeps var string t u b h = either (b.strings_between var) h
  IsBetween-Keeps var color t u b h = either (b.colors_between var) h
  IsBetween-Keeps var mods t u b h = either (b.uints_between var) h
  IsBetween-Keeps var (number conversion) t u b h = either (b.numbers_between var) h
  IsBetween-Keeps var (enum table) t u b h = either (b.enums_between var) h

  pub uints_assigned :
      (var : Bytes) (a : ℕ) (t : Store D)
      → a ≡ s.uints var
      → (assign var a t.uints var ≡ s.uints var)
        × IsBetween t (record t { uints = assign var a t.uints })
  uints_assigned var a t e = (
    assign-same var a t.uints ∙ e,
    record {
      uints_between = λ x. assign-between var a t.uints s.uints x e;
      numbers_between = λ x. inl refl;
      flags_between = λ x. inl refl;
      strings_between = λ x. inl refl;
      colors_between = λ x. inl refl;
      enums_between = λ x. inl refl;
    },
  )

  pub numbers_assigned :
      (var : Bytes) (a : D) (t : Store D)
      → a ≡ s.numbers var
      → (assign var a t.numbers var ≡ s.numbers var)
        × IsBetween t (record t { numbers = assign var a t.numbers })
  numbers_assigned var a t e = (
    assign-same var a t.numbers ∙ e,
    record {
      uints_between = λ x. inl refl;
      numbers_between = λ x. assign-between var a t.numbers s.numbers x e;
      flags_between = λ x. inl refl;
      strings_between = λ x. inl refl;
      colors_between = λ x. inl refl;
      enums_between = λ x. inl refl;
    },
  )

  pub flags_assigned :
      (var : Bytes) (a : Bool) (t : Store D)
      → a ≡ s.flags var
      → (assign var a t.flags var ≡ s.flags var)
        × IsBetween t (record t { flags = assign var a t.flags })
  flags_assigned var a t e = (
    assign-same var a t.flags ∙ e,
    record {
      uints_between = λ x. inl refl;
      numbers_between = λ x. inl refl;
      flags_between = λ x. assign-between var a t.flags s.flags x e;
      strings_between = λ x. inl refl;
      colors_between = λ x. inl refl;
      enums_between = λ x. inl refl;
    },
  )

  pub strings_assigned :
      (var : Bytes) (a : Option Bytes) (t : Store D)
      → a ≡ s.strings var
      → (assign var a t.strings var ≡ s.strings var)
        × IsBetween t (record t { strings = assign var a t.strings })
  strings_assigned var a t e = (
    assign-same var a t.strings ∙ e,
    record {
      uints_between = λ x. inl refl;
      numbers_between = λ x. inl refl;
      flags_between = λ x. inl refl;
      strings_between = λ x. assign-between var a t.strings s.strings x e;
      colors_between = λ x. inl refl;
      enums_between = λ x. inl refl;
    },
  )

  pub colors_assigned :
      (var : Bytes) (a : ℕ) (t : Store D)
      → a ≡ s.colors var
      → (assign var a t.colors var ≡ s.colors var)
        × IsBetween t (record t { colors = assign var a t.colors })
  colors_assigned var a t e = (
    assign-same var a t.colors ∙ e,
    record {
      uints_between = λ x. inl refl;
      numbers_between = λ x. inl refl;
      flags_between = λ x. inl refl;
      strings_between = λ x. inl refl;
      colors_between = λ x. assign-between var a t.colors s.colors x e;
      enums_between = λ x. inl refl;
    },
  )

  pub enums_assigned :
      (var : Bytes) (a : ℕ) (t : Store D)
      → a ≡ s.enums var
      → (assign var a t.enums var ≡ s.enums var)
        × IsBetween t (record t { enums = assign var a t.enums })
  enums_assigned var a t e = (
    assign-same var a t.enums ∙ e,
    record {
      uints_between = λ x. inl refl;
      numbers_between = λ x. inl refl;
      flags_between = λ x. inl refl;
      strings_between = λ x. inl refl;
      colors_between = λ x. inl refl;
      enums_between = λ x. assign-between var a t.enums s.enums x e;
    },
  )

  pub unchanged : (t : Store D) → IsBetween t t
  unchanged t = record {
    uints_between = λ x. inl refl;
    numbers_between = λ x. inl refl;
    flags_between = λ x. inl refl;
    strings_between = λ x. inl refl;
    colors_between = λ x. inl refl;
    enums_between = λ x. inl refl;
  }

  pub composed : {t u v : Store D} → IsBetween t u → IsBetween u v → IsBetween t v
  composed b c = record {
    uints_between = λ x. later (b.uints_between x) (c.uints_between x);
    numbers_between = λ x. later (b.numbers_between x) (c.numbers_between x);
    flags_between = λ x. later (b.flags_between x) (c.flags_between x);
    strings_between = λ x. later (b.strings_between x) (c.strings_between x);
    colors_between = λ x. later (b.colors_between x) (c.colors_between x);
    enums_between = λ x. later (b.enums_between x) (c.enums_between x);
  }
