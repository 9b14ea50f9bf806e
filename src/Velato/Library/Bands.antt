-- ===== src/Velato/Library/Bands.antt =====
-- What severity_bands (services/velato-engine/standard_library.py) computes when its instructions
-- run on the stack machine of services/velato-engine/engine.py.
use signalchord.Prelude.{
  ◌≡◌, refl, Bool, true, false, not, ◌&&◌, Option, none, some, List, [], ◌∷◌, ◌++◌, ok, err, ◌>>=◌,
  Post, raise_if, bind-ok_inv, ok_injective, subst, Dict, if◌then◌else◌,
}
use signalchord.Prelude.Int.{ℤ, pos}
use signalchord.Velato.Errors.{Error, Result}
use signalchord.Velato.Ops.{Op}
use signalchord.Velato.Floats.{Floats}
use signalchord.Velato.Step.{Registers, step, push, push_int, push_bool}
use signalchord.Velato.Library.{
  Num, int, float, Numbers, Program, plain, constant, band, severity_bands, unordered_thresholds,
  or_overflow,
}

-- a value that no float holds
abbrev pub IsNumberError : Error → Type 0
IsNumberError Error.infinite_value = Unit {0}
IsNumberError Error.overflow_error = Unit {0}
IsNumberError _ = ⊥

pub overflow_inv : {A : Type 0} (o : Option A) (a : A) → or_overflow o ≡ ok a → o ≡ some a
overflow_inv none a h = cc
overflow_inv (some b) a h = cc

module _ (fl : Floats) where
  open fl use {F, of_int, is_finite, fl_le, fl_add, fl_mul}

  -- a part of a program, one instruction after the other, as the loop of execute runs it
  unfoldable pub run : Program F → Dict F → List F → Registers F → Result (List F × Registers F)
  unfolding step
  run [] env s r = ok (s, r)
  run (i ∷ program) env s r = step fl i.op i.arg env s r >>= λ z. run program env z.0 z.1

  -- `float(value)`
  abbrev pub num_float : Num F → Option F
  num_float (int z) = of_int z
  num_float (float x) = some x

  -- One band: the value below is raised by the gain if the score has reached the threshold.
  abbrev pub IsBand : Num F → Num F → F → F → F → Type 0
  IsBand score gain x v w =
      (y : F) × (reached : F) × (d : F) × (num_float score ≡ some y)
      × (of_int (if fl_le y x then pos 1 else pos 0) ≡ some reached)
      × (num_float gain ≡ some d)
      × (w ≡ fl_add v (fl_mul reached d))

  module _ (P : List F × Registers F → Type 0) (X : Error → Type 0) (bad : X Error.infinite_value)
      (huge : X Error.overflow_error) (g : List F × Registers F → Result (List F × Registers F))
      (r : Registers F) where
    push-case :
        (b : Bool) (x : F) (t : List F)
        → Post P X (g (x ∷ t, r))
        → Post P X (((if b then ok (x ∷ t) else err Error.infinite_value) >>= λ u. ok (u, r)) >>= g)
    push-case true x t h = h
    push-case false x t h = bad

    pub Post-push :
        (x : F) (t : List F)
        → Post P X (g (x ∷ t, r))
        → Post P X ((push fl x t >>= λ u. ok (u, r)) >>= g)
    unfolding push
    Post-push x t h = push-case (is_finite x) x t h

    push_int-case :
        (o : Option F) (t : List F)
        → ((y : F) → o ≡ some y → Post P X (g (y ∷ t, r)))
        → Post P X (
            (elim o as (λ _. Result (List F)) [
              | none ↦ err Error.overflow_error
              | some y ↦ push fl y t
            ]
              >>= λ u. ok (u, r))
            >>= g)
    push_int-case none t h = huge
    push_int-case (some y) t h = Post-push y t (h y refl)

    pub Post-push_int :
        (z : ℤ) (t : List F)
        → ((y : F) → of_int z ≡ some y → Post P X (g (y ∷ t, r)))
        → Post P X ((push_int fl z t >>= λ u. ok (u, r)) >>= g)
    unfolding push_int
    Post-push_int z t h = push_int-case (of_int z) t h

    over-case :
        (c d : Bool) (a b : F) (t : List F)
        → Post P X (g (a ∷ b ∷ a ∷ t, r))
        → Post P X (
            (((if c then ok (a ∷ t) else err Error.infinite_value) >>= λ t₁.
            (if d then ok (b ∷ t₁) else err Error.infinite_value) >>= λ t₂.
            (if c then ok (a ∷ t₂) else err Error.infinite_value))
              >>= λ u. ok (u, r))
            >>= g)
    over-case true true a b t h = h
    over-case true false a b t h = bad
    over-case false d a b t h = bad

    swap-case :
        (c d : Bool) (a b : F) (t : List F)
        → Post P X (g (a ∷ b ∷ t, r))
        → Post P X (
            (((if d then ok (b ∷ t) else err Error.infinite_value) >>= λ t₁.
            (if c then ok (a ∷ t₁) else err Error.infinite_value))
              >>= λ u. ok (u, r))
            >>= g)
    swap-case true true a b t h = h
    swap-case false true a b t h = bad
    swap-case c false a b t h = bad

  module _ (P : List F × Registers F → Type 0) (X : Error → Type 0) (bad : X Error.infinite_value)
      (huge : X Error.overflow_error) (env : Dict F) (r : Registers F) (program : Program F) where
    abbrev rest : List F × Registers F → Result (List F × Registers F)
    rest z = run program env z.0 z.1

    pub Post-constant :
        (n : Num F) (s : List F)
        → ((y : F) → num_float n ≡ some y → Post P X (run program env (y ∷ s) r))
        → Post P X (run (constant n ∷ program) env s r)
    unfolding run step
    Post-constant (int z) s h = Post-push_int P X bad huge rest r z s h
    Post-constant (float x) s h = Post-push P X bad huge rest r x s (h x refl)

    Post-over :
        (a b : F) (s : List F)
        → Post P X (run program env (a ∷ b ∷ a ∷ s) r)
        → Post P X (run (plain Op.over ∷ program) env (b ∷ a ∷ s) r)
    unfolding run step push
    Post-over a b s h = over-case P X bad huge rest r (is_finite a) (is_finite b) a b s h

    Post-swap :
        (a b : F) (s : List F)
        → Post P X (run program env (a ∷ b ∷ s) r)
        → Post P X (run (plain Op.swap ∷ program) env (b ∷ a ∷ s) r)
    unfolding run step push
    Post-swap a b s h = swap-case P X bad huge rest r (is_finite a) (is_finite b) a b s h

    Post-gte :
        (a b : F) (s : List F)
        → ((y : F)
            → of_int (if fl_le b a then pos 1 else pos 0) ≡ some y
            → Post P X (run program env (y ∷ s) r))
        → Post P X (run (plain Op.gte ∷ program) env (b ∷ a ∷ s) r)
    unfolding run step push_bool
    Post-gte a b s h = Post-push_int P X bad huge rest r (if fl_le b a then pos 1 else pos 0) s h

    Post-mul :
        (a b : F) (s : List F)
        → Post P X (run program env (fl_mul a b ∷ s) r)
        → Post P X (run (plain Op.mul ∷ program) env (b ∷ a ∷ s) r)
    unfolding run step
    Post-mul a b s h = Post-push P X bad huge rest r (fl_mul a b) s h

    Post-add :
        (a b : F) (s : List F)
        → Post P X (run program env (fl_add a b ∷ s) r)
        → Post P X (run (plain Op.add ∷ program) env (b ∷ a ∷ s) r)
    unfolding run step
    Post-add a b s h = Post-push P X bad huge rest r (fl_add a b) s h

  module _ (P : List F × Registers F → Type 0) (X : Error → Type 0) (bad : X Error.infinite_value)
      (huge : X Error.overflow_error) (env : Dict F) (r : Registers F) (program : Program F) where
    Post-band :
        (numbers : Numbers F) (score gain : Num F) (x v : F) (s : List F)
        → ((w : F) → IsBand score gain x v w → Post P X (run program env (w ∷ x ∷ s) r))
        → Post P X (run (band fl numbers score gain ++ program) env (v ∷ x ∷ s) r)
    Post-band numbers score gain x v s h = Post-over P X bad huge env r _ x v s (
        Post-constant P X bad huge env r _ score (x ∷ v ∷ x ∷ s) (λ y ey.
          Post-gte P X bad huge env r _ x y (v ∷ x ∷ s) (λ reached er.
            Post-constant P X bad huge env r _ gain (reached ∷ v ∷ x ∷ s) (λ d ed.
              Post-mul P X bad huge env r _ reached d (v ∷ x ∷ s) (
                Post-add P X bad huge env r program v (fl_mul reached d) (x ∷ s)
                  (h (fl_add v (fl_mul reached d)) (y, reached, d, ey, er, ed, refl)))))))

    Post-swap_drop :
        (a b : F) (s : List F)
        → Post P X (run program env (b ∷ s) r)
        → Post P X (run (plain Op.swap ∷ plain Op.drop ∷ program) env (b ∷ a ∷ s) r)
    unfolding run step
    Post-swap_drop a b s h = Post-swap P X bad huge env r (plain Op.drop ∷ program) a b s h

  -- the severity of a score: the lowest, and then a band for each of the other three
  abbrev pub IsSeverity : (m h c l d₁ d₂ d₃ : Num F) → F → F → Type 0
  IsSeverity m h c l d₁ d₂ d₃ x v =
      (low : F) × (a : F) × (b : F) × (num_float l ≡ some low)
      × IsBand m d₁ x low a
      × IsBand h d₂ x a b
      × IsBand c d₃ x b v

  module _ (numbers : Numbers F) where
    open numbers use {num_le, num_sub}

    -- The score is gone, its severity is in its place, and all else is as it was.
    abbrev pub IsReplaced :
        (m h c l₀ m₀ h₀ c₀ : Num F) → F → List F → Registers F → List F × Registers F → Type 0
    IsReplaced m h c l₀ m₀ h₀ c₀ x s r z =
        (d₁ : Num F) × (d₂ : Num F) × (d₃ : Num F) × (v : F) × (num_sub m₀ l₀ ≡ some d₁)
        × (num_sub h₀ m₀ ≡ some d₂)
        × (num_sub c₀ h₀ ≡ some d₃)
        × IsSeverity m h c l₀ d₁ d₂ d₃ x v
        × (z ≡ (v ∷ s, r))

    -- What severity_bands emits, run on a stack with a score on top, takes the score away and leaves
    -- its severity: the code of the lowest band, to which each of the other three adds the
    -- difference of its code and the one before where the score has reached its threshold. The
    -- stack below and the registers are as they were. Or it raises an error because a float
    -- overflows.
    pub severity_bands-IsReplaced :
        (m h c l₀ m₀ h₀ c₀ : Num F) (program : Program F)
        → severity_bands fl numbers m h c l₀ m₀ h₀ c₀ ≡ ok program
        → (env : Dict F) (x : F) (s : List F) (r : Registers F)
        → Post (IsReplaced m h c l₀ m₀ h₀ c₀ x s r) IsNumberError (run program env (x ∷ s) r)
    unfolding severity_bands run
    severity_bands-IsReplaced m h c l₀ m₀ h₀ c₀ program e env x s r =
        let (_, _, e₁) =
          bind-ok_inv (raise_if (not (num_le m h && num_le h c)) unordered_thresholds) _ program
            e in
        let (d₁, f₁, e₂) = bind-ok_inv (or_overflow (num_sub m₀ l₀)) _ program e₁ in
        let (d₂, f₂, e₃) = bind-ok_inv (or_overflow (num_sub h₀ m₀)) _ program e₂ in
        let (d₃, f₃, e₄) = bind-ok_inv (or_overflow (num_sub c₀ h₀)) _ program e₃ in
        let P = IsReplaced m h c l₀ m₀ h₀ c₀ x s r in
        let last : Program F = plain Op.swap ∷ plain Op.drop ∷ [] in
        let third = band fl numbers c d₃ ++ last in
        let second = band fl numbers h d₂ ++ third in
        subst (λ p. Post P IsNumberError (run p env (x ∷ s) r)) (ok_injective _ _ e₄)
          (Post-constant P IsNumberError tt tt env r (band fl numbers m d₁ ++ second) l₀ (x ∷ s)
            (λ low el. Post-band P IsNumberError tt tt env r second numbers m d₁ x low s (λ a b₁.
              Post-band P IsNumberError tt tt env r third numbers h d₂ x a s (λ b b₂.
                Post-band P IsNumberError tt tt env r last numbers c d₃ x b s (λ v b₃.
                  Post-swap_drop P IsNumberError tt tt env r [] x v s (
                    d₁,
                    d₂,
                    d₃,
                    v,
                    overflow_inv _ d₁ f₁,
                    overflow_inv _ d₂ f₂,
                    overflow_inv _ d₃ f₃,
                    (low, a, b, el, b₁, b₂, b₃),
                    refl,
                  ))))))
