-- ===== src/Velato/Library/Normalize.antt =====
-- What PolicyBuilder.normalize (services/velato-engine/standard_library.py) computes when its
-- instructions run on the stack machine of services/velato-engine/engine.py.
use signalchord.Prelude.{
  ◌≡◌, refl, sym, ◌∙◌, ap, Bool, true, false, some, List, [], ◌∷◌, ◌++◌, ok, ◌>>=◌, ◌>>◌, Post,
  raise_if, bind-ok_inv, ok_injective, subst, Dict, if◌then◌else◌,
}
use signalchord.Prelude.Int.{pos}
use signalchord.Velato.Errors.{Error, Result}
use signalchord.Velato.Ops.{Op}
use signalchord.Velato.Floats.{Floats}
use signalchord.Velato.Step.{Registers, step, push, fl_min, fl_max}
use signalchord.Velato.Library.{
  Num, int, Numbers, Program, plain, constant, or_overflow, normalize_bounds, lower_above_upper,
}
use signalchord.Velato.Library.Bands.{run, num_float, overflow_inv, Post-push, Post-constant}
use signalchord.Velato.Library.Builder.{normalize, bounded, scaled, clamp01}
use mathlib.Core.List.{append_assoc}

module _ (fl : Floats) where
  open fl use {F, of_int, is_finite, zero_float, fl_eq, fl_lt, fl_sub, fl_div}

  append_four :
      {A : Type 0} (xs : List A) (a b c d : A)
      → (((xs ++ a ∷ []) ++ b ∷ []) ++ c ∷ []) ++ d ∷ [] ≡ xs ++ a ∷ b ∷ c ∷ d ∷ []
  append_four xs a b c d = simp append_assoc

  append_three :
      {A : Type 0} (xs ys : List A) (a b c : A)
      → (((xs ++ ys) ++ a ∷ []) ++ b ∷ []) ++ c ∷ [] ≡ xs ++ (ys ++ a ∷ b ∷ c ∷ [])
  append_three xs ys a b c = simp append_assoc

  run-append :
      (xs ys : Program F) (env : Dict F) (s : List F) (r : Registers F) (t : List F)
      (q : Registers F)
      → run fl xs env s r ≡ ok (t, q)
      → run fl (xs ++ ys) env s r ≡ run fl ys env t q
  unfolding run
  run-append [] ys env s r t q h = ap (λ z. run fl ys env z.0 z.1) (ok_injective _ _ h)
  run-append (i ∷ xs) ys env s r t q h =
      let (z, e, h₁) = bind-ok_inv (step fl i.op i.arg env s r) _ (t, q) h in
      rw e (run-append xs ys env z.0 z.1 t q h₁)

  -- a value that no float holds, a width that is zero as a float, or 1.0 below 0.0
  abbrev pub IsArithmeticError : Error → Type 0
  IsArithmeticError Error.infinite_value = Unit {0}
  IsArithmeticError Error.overflow_error = Unit {0}
  IsArithmeticError Error.division_by_zero = Unit {0}
  IsArithmeticError Error.clamp_bounds = Unit {0}
  IsArithmeticError _ = ⊥

  -- `(x - lower) / width`
  abbrev pub IsScaled : Num F → Num F → F → F → Type 0
  IsScaled lower width x y =
      (l : F) × (d : F) × (num_float fl lower ≡ some l)
      × (num_float fl width ≡ some d)
      × (y ≡ fl_div (fl_sub x l) d)

  -- the value itself, or `max(0.0, min(1.0, y))`
  abbrev pub IsClamped : Bool → F → F → Type 0
  IsClamped false y v = v ≡ y
  IsClamped true y v =
      (zero : F) × (one : F) × (of_int (pos 0) ≡ some zero)
      × (of_int (pos 1) ≡ some one)
      × (v ≡ fl_max fl zero (fl_min fl one y))

  module _ (P : List F × Registers F → Type 0) (env : Dict F) (r : Registers F)
      (program : Program F) where
    abbrev rest : List F × Registers F → Result (List F × Registers F)
    rest z = run fl program env z.0 z.1

    Post-sub :
        (a b : F) (s : List F)
        → Post P IsArithmeticError (run fl program env (fl_sub a b ∷ s) r)
        → Post P IsArithmeticError (run fl (plain Op.sub ∷ program) env (b ∷ a ∷ s) r)
    unfolding run step
    Post-sub a b s h = Post-push fl P IsArithmeticError tt tt rest r (fl_sub a b) s h

    guarded-push :
        (b : Bool) (e : Error) (x : F) (s : List F)
        → IsArithmeticError e
        → Post P IsArithmeticError (run fl program env (x ∷ s) r)
        → Post P IsArithmeticError (((raise_if b e >> push fl x s) >>= λ u. ok (u, r)) >>= rest)
    guarded-push true e x s k h = k
    guarded-push false e x s k h = Post-push fl P IsArithmeticError tt tt rest r x s h

    Post-div :
        (a b : F) (s : List F)
        → Post P IsArithmeticError (run fl program env (fl_div a b ∷ s) r)
        → Post P IsArithmeticError (run fl (plain Op.div ∷ program) env (b ∷ a ∷ s) r)
    unfolding run step
    Post-div a b s h = guarded-push (fl_eq b zero_float) Error.division_by_zero (fl_div a b) s tt h

    Post-clamp :
        (x lower upper : F) (s : List F)
        → Post P IsArithmeticError (run fl program env (fl_max fl lower (fl_min fl upper x) ∷ s) r)
        → Post P IsArithmeticError (run fl (plain Op.clamp ∷ program) env (upper ∷ lower ∷ x ∷ s) r)
    unfolding run step
    Post-clamp x lower upper s h =
        guarded-push (fl_lt upper lower) Error.clamp_bounds (fl_max fl lower (fl_min fl upper x)) s
          tt h

  abbrev scale_part : Num F → Num F → Program F
  scale_part lower width = constant lower ∷ plain Op.sub ∷ constant width ∷ plain Op.div ∷ []

  abbrev clamp_part : Program F
  clamp_part = constant (int (pos 0)) ∷ constant (int (pos 1)) ∷ plain Op.clamp ∷ []

  module _ (P : List F × Registers F → Type 0) (env : Dict F) (r : Registers F) where
    Post-scale :
        (program : Program F) (lower width : Num F) (x : F) (s : List F)
        → ((y : F)
            → IsScaled lower width x y
            → Post P IsArithmeticError (run fl program env (y ∷ s) r))
        → Post P IsArithmeticError (run fl (scale_part lower width ++ program) env (x ∷ s) r)
    Post-scale program lower width x s h =
        let after_div = plain Op.div ∷ program in
        let after_sub = constant width ∷ after_div in
        Post-constant fl P IsArithmeticError tt tt env r (plain Op.sub ∷ after_sub) lower (x ∷ s)
          (λ l el. Post-sub P env r after_sub x l s (
            Post-constant fl P IsArithmeticError tt tt env r after_div width (fl_sub x l ∷ s)
              (λ d ed.
                Post-div P env r program (fl_sub x l) d s
                  (h (fl_div (fl_sub x l) d) (l, d, el, ed, refl)))))

    Post-clamp01 :
        (y : F) (s : List F)
        → ((v : F) → IsClamped true y v → Post P IsArithmeticError (ok (v ∷ s, r)))
        → Post P IsArithmeticError (run fl clamp_part env (y ∷ s) r)
    unfolding run
    Post-clamp01 y s h =
        let last : Program F = plain Op.clamp ∷ [] in
        Post-constant fl P IsArithmeticError tt tt env r (constant (int (pos 1)) ∷ last)
          (int (pos 0)) (y ∷ s)
          (λ zero ez.
            Post-constant fl P IsArithmeticError tt tt env r last (int (pos 1)) (zero ∷ y ∷ s)
              (λ one eo.
                Post-clamp P env r [] y zero one s
                  (h (fl_max fl zero (fl_min fl one y)) (zero, one, ez, eo, refl))))

  module _ (numbers : Numbers F) where
    open numbers use {num_lt, num_le, num_sub}

    -- The value on top is replaced by its place between the bounds, and all else is as it was.
    abbrev pub IsNormalized :
        Num F → Num F → Bool → F → List F → Registers F → List F × Registers F → Type 0
    IsNormalized lower upper clamped x s r z =
        (width : Num F) × (y : F) × (v : F) × (num_sub upper lower ≡ some width)
        × IsScaled lower width x y
        × IsClamped clamped y v
        × (z ≡ (v ∷ s, r))

    abbrev Runs : Num F → Num F → Bool → F → List F → Registers F → Dict F → Program F → Type 0
    Runs lower upper clamped x s r env program =
        Post (IsNormalized lower upper clamped x s r) IsArithmeticError
          (run fl program env (x ∷ s) r)

    part-Runs :
        (lower upper width : Num F) (clamped : Bool) (x : F) (s : List F) (r : Registers F)
        (env : Dict F)
        → num_sub upper lower ≡ some width
        → Runs lower upper clamped x s r env
            (scale_part lower width ++ (if clamped then clamp_part else []))
    unfolding run
    part-Runs lower upper width true x s r env e =
        let P = IsNormalized lower upper true x s r in
        Post-scale P env r clamp_part lower width x s (λ y scaled.
          Post-clamp01 P env r y s (λ v clamped. (width, y, v, e, scaled, clamped, refl)))
    part-Runs lower upper width false x s r env e =
        let P = IsNormalized lower upper false x s r in
        Post-scale P env r [] lower width x s (λ y scaled. (width, y, y, e, scaled, refl, refl))

    built_of :
        (clamped : Bool) (lower width : Num F) (builder built : Program F)
        → (if clamped
            then clamp01 numbers (scaled numbers lower width builder)
            else ok (scaled numbers lower width builder))
          ≡ ok built
        → built ≡ builder ++ (scale_part lower width ++ (if clamped then clamp_part else []))
    unfolding bounded
    built_of true lower width builder built h =
        let (_, _, h₁) =
          bind-ok_inv (raise_if (num_lt (int (pos 1)) (int (pos 0))) lower_above_upper) _ built h in
        sym (ok_injective _ built h₁)
        ∙ ap
            (λ z.
              ((z ++ constant (int (pos 0)) ∷ []) ++ constant (int (pos 1)) ∷ [])
              ++ plain Op.clamp ∷ [])
            (append_four builder (constant lower) (plain Op.sub) (constant width) (plain Op.div))
        ∙ append_three builder (scale_part lower width) (constant (int (pos 0)))
            (constant (int (pos 1))) (plain Op.clamp)
    built_of false lower width builder built h =
        sym (ok_injective _ built h)
        ∙ append_four builder (constant lower) (plain Op.sub) (constant width) (plain Op.div)

    -- Where the instructions gathered so far, when they run, leave a value on top of the stack, what
    -- normalize makes of them leaves in its place the difference of it and the lower bound, divided
    -- by the width, and with the clamp no less than 0 and no more than 1. The stack below and the
    -- registers are as the instructions left them. Or it raises an error because a float overflows,
    -- because the width is zero as a float or because 1 as a float is less than 0.
    pub normalize-IsNormalized :
        (lower upper : Num F) (clamped : Bool) (builder built : Program F)
        → normalize numbers lower upper clamped builder ≡ ok built
        → (env : Dict F) (s₀ s : List F) (r₀ r : Registers F) (x : F)
        → run fl builder env s₀ r₀ ≡ ok (x ∷ s, r)
        → Post (IsNormalized lower upper clamped x s r) IsArithmeticError (run fl built env s₀ r₀)
    unfolding normalize
    normalize-IsNormalized lower upper clamped builder built h env s₀ s r₀ r x ran =
        let (_, _, h₁) = bind-ok_inv (raise_if (num_le upper lower) normalize_bounds) _ built h in
        let (width, e, h₂) = bind-ok_inv (or_overflow (num_sub upper lower)) _ built h₁ in
        let part : Program F = scale_part lower width ++ (if clamped then clamp_part else []) in
        subst (λ z. Post (IsNormalized lower upper clamped x s r) IsArithmeticError z)
          (sym (run-append builder part env s₀ r₀ (x ∷ s) r ran)
            ∙ ap (λ p. run fl p env s₀ r₀) (sym (built_of clamped lower width builder built h₂)))
          (part-Runs lower upper width clamped x s r env (overflow_inv _ width e))
