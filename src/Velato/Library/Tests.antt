-- ===== src/Velato/Library/Tests.antt =====
-- The macros of services/velato-engine/standard_library.py on concrete terms.
use signalchord.Prelude.{Post, false, true, ◌≡◌, refl, String, some, List, [], ◌∷◌, ok, err, sorted}
use signalchord.Prelude.Int.{ℤ, pos, ◌+ℤ◌, ◌-ℤ◌, ◌*ℤ◌, ltb_ℤ, leb_ℤ, ◌=ℤ◌}
use signalchord.Velato.Ops.{stack_effect}
use signalchord.Velato.Analysis.{
  analyze_ir, analyze_loop, analyze_step, analyze_live, validate_instruction,
}
use signalchord.Velato.Compile.{ensure_halt}
use signalchord.Velato.Tests.{exact}
use signalchord.Velato.Library.{
  Num, int, float, Numbers, Program, Emitted, weighted_sum, weighted_average, severity_bands, build,
  standard_alert_policy, all_conditions, input_at_least,
}
use signalchord.Velato.Library.Height.{height, IsPushing, all_conditions-IsPushing}
use signalchord.Velato.Step.{Registers}
use signalchord.Velato.Library.Bands.{run, IsReplaced, IsNumberError, severity_bands-IsReplaced}
use signalchord.Velato.Library.Builder.{emit_input, normalize, bounded}
use signalchord.Velato.Library.Normalize.{IsNormalized, IsArithmeticError, normalize-IsNormalized}
use signalchord.Velato.Library.Policy.{IsPolicy, standard_alert_policy-IsPolicy}

abbrev number : Num ℤ → ℤ
number (int z) = z
number (float z) = z

abbrev exact_numbers : Numbers ℤ
exact_numbers = record {
  num_lt = λ a b. ltb_ℤ (number a) (number b);
  num_le = λ a b. leb_ℤ (number a) (number b);
  num_eq = λ a b. number a =ℤ number b;
  num_add = λ a b. some (int (number a +ℤ number b));
  num_sub = λ a b. some (int (number a -ℤ number b));
}

abbrev sample_terms : List (String × Num ℤ)
sample_terms = ("novelty", int (pos 2)) ∷ ("recency", int (pos 1)) ∷ []

abbrev emitted : Emitted (Program ℤ) → Program ℤ
emitted (ok program) = program
emitted (err e) = []

policy_of : Program ℤ
unfolding standard_alert_policy
policy_of = emitted (
    standard_alert_policy exact exact_numbers sample_terms (int (pos 100)) (int (pos 15))
      (int (pos 1)))

policy_emitted :
    standard_alert_policy exact exact_numbers sample_terms
      (int (pos 100))
      (int (pos 15))
      (int (pos 1))
    ≡ ok policy_of
unfolding policy_of standard_alert_policy weighted_average weighted_sum severity_bands build
    ensure_halt analyze_ir analyze_loop analyze_step analyze_live validate_instruction sorted ◌+ℤ◌
    ◌-ℤ◌
policy_emitted = refl

standard_alert_policy-IsPolicy_example :
    IsPolicy exact exact_numbers policy_of × (height policy_of 0 ≡ some 0)
standard_alert_policy-IsPolicy_example =
    standard_alert_policy-IsPolicy exact exact_numbers sample_terms (int (pos 100)) (int (pos 15))
      (int (pos 1)) policy_of policy_emitted

bands_of : Program ℤ
unfolding severity_bands
bands_of = emitted (
    severity_bands exact exact_numbers (int (pos 40)) (int (pos 65)) (int (pos 85)) (int (pos 1))
      (int (pos 2)) (int (pos 3)) (int (pos 4)))

bands_emitted :
    severity_bands exact exact_numbers
      (int (pos 40))
      (int (pos 65))
      (int (pos 85))
      (int (pos 1))
      (int (pos 2))
      (int (pos 3))
      (int (pos 4))
    ≡ ok bands_of
unfolding bands_of severity_bands ◌-ℤ◌
bands_emitted = refl

abbrev registers : Registers ℤ
registers = record {
  locals = [];
  score = pos 0;
  severity = pos 0;
  route = pos 0;
  suppressed = false;
}

-- a score of 70 is of the third severity
high_severity : run exact bands_of [] (pos 70 ∷ []) registers ≡ ok (pos 3 ∷ [], registers)
unfolding run bands_of severity_bands ◌-ℤ◌ ◌+ℤ◌ ◌*ℤ◌
high_severity = refl

severity_bands-IsReplaced_example :
    Post
      (IsReplaced exact exact_numbers
        (int (pos 40))
        (int (pos 65))
        (int (pos 85))
        (int (pos 1))
        (int (pos 2))
        (int (pos 3))
        (int (pos 4))
        (pos 70)
        []
        registers)
      IsNumberError
      (run exact bands_of [] (pos 70 ∷ []) registers)
severity_bands-IsReplaced_example =
    severity_bands-IsReplaced exact exact_numbers (int (pos 40)) (int (pos 65)) (int (pos 85))
      (int (pos 1)) (int (pos 2)) (int (pos 3)) (int (pos 4)) bands_of bands_emitted [] (pos 70) []
      registers

abbrev condition : String → Program ℤ
unfolding input_at_least
condition name = input_at_least name (int (pos 1))

condition-IsPushing : (name : String) → IsPushing (condition name)
unfolding condition input_at_least height stack_effect
condition-IsPushing name d = refl

all_conditions-IsPushing_example :
    IsPushing (all_conditions (condition "novelty" ∷ condition "recency" ∷ []))
all_conditions-IsPushing_example =
    all_conditions-IsPushing (condition "novelty" ∷ condition "recency" ∷ [])
      (condition-IsPushing "novelty", (condition-IsPushing "recency", tt))

abbrev novelty_only : Program ℤ
novelty_only = emit_input "novelty" []

normalized_of : Program ℤ
unfolding normalize
normalized_of = emitted (normalize exact_numbers (int (pos 0)) (int (pos 10)) true novelty_only)

normalize_emitted :
    normalize exact_numbers (int (pos 0)) (int (pos 10)) true novelty_only ≡ ok normalized_of
unfolding normalized_of normalize bounded ◌-ℤ◌
normalize_emitted = refl

novelty_runs :
    run exact novelty_only (("novelty", pos 7) ∷ []) [] registers ≡ ok (pos 7 ∷ [], registers)
unfolding run
novelty_runs = refl

normalize-IsNormalized_example :
    Post
      (IsNormalized exact exact_numbers (int (pos 0)) (int (pos 10)) true (pos 7) [] registers)
      (IsArithmeticError exact)
      (run exact normalized_of (("novelty", pos 7) ∷ []) [] registers)
normalize-IsNormalized_example =
    normalize-IsNormalized exact exact_numbers (int (pos 0)) (int (pos 10)) true novelty_only
      normalized_of normalize_emitted (("novelty", pos 7) ∷ []) [] [] registers registers (pos 7)
      novelty_runs
