-- ===== src/Velato/Library/Policy.antt =====
-- PolicyBuilder.build and standard_alert_policy (services/velato-engine/standard_library.py): the
-- policies that come out.
use signalchord.Prelude.{
  ℕ, suc, ◌≡◌, refl, ap, ◌∙◌, sym, subst, String, Bool, true, false, not, Option, none, some, List,
  [], ◌∷◌, ◌++◌, ok, err, ◌>>=◌, raise_if, bind-ok_inv, ok_injective, All, contains, sorted,
  sorted-nil, str_ltb, if◌then◌else◌, arith,
}
use signalchord.Prelude
use signalchord.Prelude.Int.{pos}
use signalchord.Velato.Errors.{Error}
use signalchord.Velato.Ops.{
  Op, stack_effect, is_halt, outputs, default_max_instructions, default_max_stack,
}
use signalchord.Velato.Ir.{Arg, Instruction, instruction}
use signalchord.Velato.Floats.{Floats}
use signalchord.Velato.Analysis.{ProgramAnalysis, analyze_ir, keep_names}
use signalchord.Velato.Compile.{ensure_halt}
use signalchord.Velato.Library.{
  Num, int, Program, Numbers, scale_not_positive, in_engine, check_outputs, missing_from, build,
  policy_body, weighted_average, default_bands, standard_alert_policy,
}
use signalchord.Velato.Library.Height.{
  height, then_height_ext, apply_effect, height-append_replacing, height-append_pushing,
  weighted_average-IsPushing, severity_bands-height, IsPushing,
}

keep_names-nil :
    (p : String → Bool) (xs : List String)
    → keep_names (λ x. not (p x)) xs ≡ []
    → All (λ x. p x ≡ true) xs
keep_names-nil p [] h = tt
keep_names-nil p (x ∷ xs) h = ground (arith, keep_names-nil p xs)

module _ (fl : Floats) where
  open fl use {F}

  ensure_halt-height_last :
      (i : Instruction F) (b : Bool) (d : ℕ)
      → height (if b then i ∷ [] else i ∷ instruction Op.halt Arg.absent ∷ []) d ≡ height (i ∷ []) d
  unfolding height stack_effect
  ensure_halt-height_last i true d = refl
  ensure_halt-height_last i false d = refl

  pub ensure_halt-height :
      (program : Program F) (d : ℕ) → height (ensure_halt fl program) d ≡ height program d
  unfolding ensure_halt height stack_effect is_halt
  ensure_halt-height [] d = refl
  ensure_halt-height (i ∷ []) d = ensure_halt-height_last i (is_halt i.op) d
  ensure_halt-height (i ∷ j ∷ program) d =
      then_height_ext (apply_effect (stack_effect i.op) d) _ _ (ensure_halt-height (j ∷ program))

module _ (fl : Floats) (numbers : Numbers fl.F) where
  open fl use {F}

  -- all four outputs are written by the program, by its analysis
  abbrev pub IsComplete : ProgramAnalysis → Type 0
  IsComplete analysis = All (λ name. contains analysis.outputs_written name ≡ true) outputs

  check_outputs-ok_inv : (names : List String) → check_outputs fl numbers names ≡ ok tt → names ≡ []
  check_outputs-ok_inv [] h = refl
  check_outputs-ok_inv (name ∷ names) h = cc

  missing_from-nil :
      (analysis : ProgramAnalysis) → missing_from fl numbers analysis ≡ [] → IsComplete analysis
  missing_from-nil analysis h = keep_names-nil (contains analysis.outputs_written) outputs (
      sorted-nil str_ltb (keep_names (λ name. not (contains analysis.outputs_written name)) outputs)
        h)

  in_engine-ok_inv :
      {A : Type 0} (r : Prelude.Result Error A) (a : A) → in_engine r ≡ ok a → r ≡ ok a
  in_engine-ok_inv (ok b) a h = cc
  in_engine-ok_inv (err e) a h = cc

  -- a program that the engine accepts and that writes all four outputs
  abbrev pub IsPolicy : Program F → Type 0
  IsPolicy ir =
      (analysis : ProgramAnalysis) × (analyze_ir fl ir default_max_instructions default_max_stack
        ≡ ok analysis)
      × IsComplete analysis

  pub build-IsPolicy :
      (program ir : Program F)
      → build fl numbers true program ≡ ok ir
      → IsPolicy ir × (ir ≡ ensure_halt fl program)
  unfolding build
  build-IsPolicy program ir h =
      let made = ensure_halt fl program in
      let r = analyze_ir fl made default_max_instructions default_max_stack in
      let (analysis, accepted, h₁) = bind-ok_inv (in_engine r) _ ir h in
      let (_, complete, h₂) =
        bind-ok_inv (check_outputs fl numbers (missing_from fl numbers analysis)) _ ir h₁ in
      let e = ok_injective _ _ h₂ in
      (
        subst IsPolicy e (
          analysis,
          in_engine-ok_inv r analysis accepted,
          missing_from-nil analysis (check_outputs-ok_inv _ complete),
        ),
        sym e,
      )

  policy_body-height :
      (average bands : Program F) (scale below route : Num F)
      → IsPushing average
      → ((d : ℕ) → height bands (suc d) ≡ some (suc d))
      → height (policy_body fl numbers average bands scale below route) 0 ≡ some 0
  unfolding height stack_effect
  policy_body-height average bands scale below route a b =
      height-append_pushing average _ 0 a ∙ height-append_replacing bands _ 1 (b 1)

  -- What standard_alert_policy returns, for any terms, scale, threshold and route, is a program
  -- that the engine accepts and that writes all four outputs, and it leaves the stack empty.
  pub standard_alert_policy-IsPolicy :
      (terms : List (String × Num F)) (scale below route : Num F) (ir : Program F)
      → standard_alert_policy fl numbers terms scale below route ≡ ok ir
      → IsPolicy ir × (height ir 0 ≡ some 0)
  unfolding standard_alert_policy
  standard_alert_policy-IsPolicy terms scale below route ir h =
      let (_, _, h₁) =
        bind-ok_inv (raise_if (numbers.num_le scale (int (pos 0))) scale_not_positive) _ ir h in
      let (average, a, h₂) = bind-ok_inv (weighted_average fl numbers terms) _ ir h₁ in
      let (bands, b, h₃) = bind-ok_inv (default_bands fl numbers) _ ir h₂ in
      let body = policy_body fl numbers average bands scale below route in
      let (policy, made) = build-IsPolicy body ir h₃ in
      (
        policy,
        ap (λ p. height p 0) made
            ∙ ensure_halt-height fl body 0
            ∙ policy_body-height average bands scale below route
                (weighted_average-IsPushing fl numbers terms average a)
                (severity_bands-height fl numbers _ _ _ _ _ _ _ bands b),
      )
