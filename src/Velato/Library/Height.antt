-- ===== src/Velato/Library/Height.antt =====
-- The height of the stack after a program, from the stack effects of its operations
-- (services/velato-engine/engine.py: STACK_EFFECTS), and what the macros of
-- services/velato-engine/standard_library.py do to it.
use signalchord.Prelude.{
  ℕ, zero, suc, ◌≡◌, refl, sym, ap, ◌∙◌, String, Option, none, some, List, [], ◌∷◌, ◌++◌, ok,
  raise_if, bind-ok_inv, All, not, ◌&&◌, ok_injective, subst,
}
use signalchord.Prelude.Int.{pos}
use signalchord.Velato.Ops.{Op, stack_effect}
use signalchord.Velato.Floats.{Floats}
use signalchord.Velato.Library.{
  Num, int, Program, plain, constant, is_empty, no_average_terms, zero_weight, unordered_thresholds,
  add_terms, weighted_sum, join_rest, all_conditions, any_condition, weighted_average,
  severity_bands, Numbers, or_overflow, total_from,
}

-- `n` values taken from a stack, which may be too low
abbrev pub lower_by : ℕ → ℕ → Option ℕ
lower_by zero d = some d
lower_by (suc n) zero = none
lower_by (suc n) (suc d) = lower_by n d

abbrev pub raise_by : ℕ → ℕ → ℕ
raise_by zero d = d
raise_by (suc n) d = suc (raise_by n d)

abbrev pub then_height : Option ℕ → (ℕ → Option ℕ) → Option ℕ
then_height none f = none
then_height (some d) f = f d

abbrev pub apply_effect : ℕ × ℕ → ℕ → Option ℕ
apply_effect e d = then_height (lower_by e.0 d) (λ k. some (raise_by e.1 k))

then_height_assoc :
    (o : Option ℕ) (f g : ℕ → Option ℕ)
    → then_height (then_height o f) g ≡ then_height o (λ d. then_height (f d) g)
then_height_assoc none f g = refl
then_height_assoc (some d) f g = refl

pub then_height_ext :
    (o : Option ℕ) (f g : ℕ → Option ℕ) → ((d : ℕ) → f d ≡ g d) → then_height o f ≡ then_height o g
then_height_ext none f g h = refl
then_height_ext (some d) f g h = h d

module _ {F : Type 0} where
  -- the height after a program, or none where it takes a value from an empty stack
  unfoldable pub height : Program F → ℕ → Option ℕ
  unfolding stack_effect
  height [] d = some d
  height (i ∷ program) d = then_height (apply_effect (stack_effect i.op) d) (height program)

  pub height-append :
      (xs ys : Program F) (d : ℕ) → height (xs ++ ys) d ≡ then_height (height xs d) (height ys)
  unfolding height
  height-append [] ys d = refl
  height-append (i ∷ xs) ys d =
      let o = apply_effect (stack_effect i.op) d in
      then_height_ext o (height (xs ++ ys)) (λ k. then_height (height xs k) (height ys))
        (height-append xs ys)
      ∙ sym (then_height_assoc o (height xs) (height ys))

  -- A part of a program that leaves one value more, or as many, whatever lies below.
  abbrev pub IsPushing : Program F → Type 0
  IsPushing program = (d : ℕ) → height program d ≡ some (suc d)

  pub height-append_pushing :
      (xs ys : Program F) (d : ℕ) → IsPushing xs → height (xs ++ ys) d ≡ height ys (suc d)
  height-append_pushing xs ys d h =
      height-append xs ys d ∙ ap (λ o. then_height o (height ys)) (h d)

  pub height-append_replacing :
      (xs ys : Program F) (d : ℕ)
      → height xs (suc d) ≡ some (suc d)
      → height (xs ++ ys) (suc d) ≡ height ys (suc d)
  height-append_replacing xs ys d h =
      height-append xs ys (suc d) ∙ ap (λ o. then_height o (height ys)) h

  add_terms-height :
      (terms : List (String × Num F)) (d : ℕ) → height (add_terms terms) (suc d) ≡ some (suc d)
  unfolding add_terms height stack_effect
  add_terms-height [] d = refl
  add_terms-height ((name, weight) ∷ terms) d = add_terms-height terms d

  pub weighted_sum-IsPushing :
      (terms : List (String × Num F)) (program : Program F)
      → weighted_sum terms ≡ ok program
      → IsPushing program
  unfolding weighted_sum height stack_effect
  weighted_sum-IsPushing [] program h d = cc
  weighted_sum-IsPushing ((name, weight) ∷ terms) program h d =
      subst (λ p. height p d ≡ some (suc d)) (ok_injective _ _ h) (add_terms-height terms d)

  join_rest-height :
      (join : Op) (conditions : List (Program F))
      → stack_effect join ≡ (2, 1)
      → All IsPushing conditions
      → (d : ℕ) → height (join_rest join conditions) (suc d) ≡ some (suc d)
  unfolding join_rest height
  join_rest-height join [] e h d = refl
  join_rest-height join (condition ∷ conditions) e h d =
      height-append_pushing condition (plain join ∷ join_rest join conditions) (suc d) h.0
      ∙ ap (λ z. then_height (apply_effect z (suc (suc d))) (height (join_rest join conditions))) e
      ∙ join_rest-height join conditions e h.1 d

  -- Conditions that leave one value more on the stack each are joined by all_conditions to a program
  -- that leaves one value more, whatever lies below, for any number of conditions.
  pub all_conditions-IsPushing :
      (conditions : List (Program F))
      → All IsPushing conditions
      → IsPushing (all_conditions conditions)
  unfolding all_conditions height stack_effect
  all_conditions-IsPushing [] h d = refl
  all_conditions-IsPushing (condition ∷ conditions) h d =
      height-append_pushing condition (join_rest Op.and conditions) d h.0
      ∙ join_rest-height Op.and conditions refl h.1 d

  pub any_condition-IsPushing :
      (conditions : List (Program F))
      → All IsPushing conditions
      → IsPushing (any_condition conditions)
  unfolding any_condition height stack_effect
  any_condition-IsPushing [] h d = refl
  any_condition-IsPushing (condition ∷ conditions) h d =
      height-append_pushing condition (join_rest Op.or conditions) d h.0
      ∙ join_rest-height Op.or conditions refl h.1 d

module _ (fl : Floats) (numbers : Numbers fl.F) where
  open fl use {F}
  open numbers use {num_lt, num_le, num_eq, num_add, num_sub}

  -- weighted_average gives a program that leaves one value more on the stack, whatever lies below,
  -- for every list of terms that it accepts.
  pub weighted_average-IsPushing :
      (terms : List (String × Num F)) (program : Program F)
      → weighted_average fl numbers terms ≡ ok program
      → IsPushing program
  unfolding weighted_average height stack_effect
  weighted_average-IsPushing terms program h d =
      let (total, _, h₁) =
        bind-ok_inv (or_overflow (total_from fl numbers (int (pos 0)) terms)) _ program h in
      let (_, _, h₂) =
        bind-ok_inv (raise_if (is_empty fl numbers terms) no_average_terms) _ program h₁ in
      let (_, _, h₃) =
        bind-ok_inv (raise_if (num_eq total (int (pos 0))) zero_weight) _ program h₂ in
      let (sum, e, h₄) = bind-ok_inv (weighted_sum terms) _ program h₃ in
      subst (λ p. height p d ≡ some (suc d)) (ok_injective _ _ h₄)
        (height-append_pushing sum (constant total ∷ plain Op.div ∷ []) d
          (weighted_sum-IsPushing terms sum e))

  -- severity_bands gives a program that leaves as many values as it finds, where there is one at
  -- least, for all thresholds and codes that it accepts.
  pub severity_bands-height :
      (m h c l₀ m₀ h₀ c₀ : Num F) (program : Program F)
      → severity_bands fl numbers m h c l₀ m₀ h₀ c₀ ≡ ok program
      → (d : ℕ) → height program (suc d) ≡ some (suc d)
  unfolding severity_bands height stack_effect
  severity_bands-height m h c l₀ m₀ h₀ c₀ program e d =
      let (_, _, e₁) =
        bind-ok_inv (raise_if (not (num_le m h && num_le h c)) unordered_thresholds) _ program e in
      let (x, _, e₂) = bind-ok_inv (or_overflow (num_sub m₀ l₀)) _ program e₁ in
      let (y, _, e₃) = bind-ok_inv (or_overflow (num_sub h₀ m₀)) _ program e₂ in
      let (z, _, e₄) = bind-ok_inv (or_overflow (num_sub c₀ h₀)) _ program e₃ in
      subst (λ p. height p (suc d) ≡ some (suc d)) (ok_injective _ _ e₄) refl
