-- ===== src/Velato/Execute/Sound.antt =====
-- The contract of execute (services/velato-engine/engine.py): what a result and an error may be.
use signalchord.Prelude.{
  ℕ, zero, suc, refl, sym, ◌∙◌, ◌≤◌, ◌≡◌, List, [], String, ok, ◌>>=◌, Post, Post-bind, Post-weaken,
  Dict, All, replicate, arith,
}
use signalchord.Velato.Errors.{Error}
use signalchord.Velato.Ops.{inputs, max_locals}
use signalchord.Velato.Ir.{Instruction}
use signalchord.Velato.Floats.{Floats}
use signalchord.Velato.Analysis.{ProgramAnalysis, analyze_ir, start}
use signalchord.Velato.Analysis.Laws.{analyze_ir-Checked, Checked}
use signalchord.Velato.Step.Fits.{IsDataError, IsFinite}
use signalchord.Velato.Step.Ranges.{IsBetween, IsFull}
use signalchord.Velato.Execute.{
  PolicyResult, TraceEntry, normalize_inputs, execute_loop, execute, initial, result_of,
}
use signalchord.Velato.Execute.Inputs.{Rejects, Normalized, normalize_inputs-Normalized}
use signalchord.Velato.Execute.Safety.{Matches, Ends, execute_loop-Ends}

module _ (fl : Floats) where
  open fl use {F, zero_float, zero_finite}

  -- The ranges that PolicyResult declares, and agreement with the static analysis.
  pub record IsSound (a : ProgramAnalysis) (r : PolicyResult) : Type 0 where
    pub score_bound : IsBetween 100 r.alert_score
    pub severity_bound : IsBetween 9 r.severity_code
    pub route_bound : IsBetween 255 r.routing_code
    pub executed : r.instructions_executed ≡ a.instruction_count
    pub deepest : r.max_stack_depth ≡ a.max_stack_depth

  -- An error of a checked program: a bad input, or values that an operation cannot take.
  pub data IsPolicyError (given : Dict F) : Error → Type 0 where
    bad_input : {e : Error} → Rejects fl inputs given e → IsPolicyError given e
    bad_value : {e : Error} → IsDataError e → IsPolicyError given e

  zeros-IsFinite : (n : ℕ) → All (IsFinite fl) (replicate n zero_float)
  zeros-IsFinite zero = tt
  zeros-IsFinite (suc n) = (zero_finite, zeros-IsFinite n)

  initial-Matches : Matches fl start (initial fl)
  initial-Matches = record {
    depth = refl;
    small = omega arith;
    settled = omega arith;
    finite = tt;
    in_range = record {
      locals_count = refl;
      locals_finite = zeros-IsFinite max_locals;
      score_bound = omega arith;
      severity_bound = omega arith;
      route_bound = omega arith;
    };
    deepest = refl;
    counted = refl;
  }

  finish-IsSound :
      (digest : List (TraceEntry F) → String) (given env : Dict F) (ir : List (Instruction F))
      (max_instructions max_stack : ℕ) (a : ProgramAnalysis)
      → max_stack ≤ 1024
      → Checked fl max_instructions max_stack ir a
      → IsFull fl env
      → Post (IsSound a) (IsPolicyError given) (
          execute_loop fl max_instructions max_stack env 1 ir (initial fl) >>= λ m.
          ok (result_of fl digest a m))
  unfolding result_of
  finish-IsSound digest given env ir max_instructions max_stack a small c full =
      Post-bind (Ends fl c.scan) (IsSound a) (IsPolicyError given)
        (execute_loop fl max_instructions max_stack env 1 ir (initial fl)) _
        (Post-weaken (Ends fl c.scan) (Ends fl c.scan) IsDataError (IsPolicyError given)
          (execute_loop fl max_instructions max_stack env 1 ir (initial fl))
          (execute_loop-Ends fl max_instructions max_stack env 1 0 ir start c.scan (initial fl)
            small (omega (arith, c.short_enough)) full refl c.scanned initial-Matches)
          (λ m h. h) (λ e d. IsPolicyError.bad_value d))
        λ m h. record {
          score_bound = h.in_range.score_bound;
          severity_bound = h.in_range.severity_bound;
          route_bound = h.in_range.route_bound;
          executed = h.counted ∙ sym c.instruction_count;
          deepest = omega (arith, h.deepest, c.max_stack_depth);
        }

  -- Running a program that analyze_ir accepts, with a stack limit of at most 1024, either returns
  -- a result or raises an error that the inputs or the values cause: an input that is missing or
  -- not finite, a value that is not finite, a division or modulo by zero, a bad power, a negative
  -- square root, crossed bounds. It never underflows or overflows the stack, trips an assertion,
  -- looks up a missing key or index, or meets an unsupported operation. A result has a score of 0
  -- to 100, a severity of 0 to 9 and a route of 0 to 255, and its counts of instructions and of
  -- stack depth are those of the analysis.
  pub execute-IsSound :
      (digest : List (TraceEntry F) → String) (ir : List (Instruction F)) (given : Dict F)
      (max_instructions max_stack : ℕ) (a : ProgramAnalysis)
      → max_stack ≤ 1024
      → analyze_ir fl ir max_instructions max_stack ≡ ok a
      → Post
          (IsSound a)
          (IsPolicyError given)
          (execute fl digest ir given max_instructions max_stack)
  unfolding execute
  execute-IsSound digest ir given max_instructions max_stack a small accepted = rw accepted (
      Post-bind (Normalized fl inputs []) (IsSound a) (IsPolicyError given)
        (normalize_inputs fl inputs given []) _
        (Post-weaken (Normalized fl inputs []) (Normalized fl inputs []) (Rejects fl inputs given)
          (IsPolicyError given) (normalize_inputs fl inputs given [])
          (normalize_inputs-Normalized fl inputs given []) (λ env n. n)
          (λ e r. IsPolicyError.bad_input r))
        λ env n.
          finish-IsSound digest given env ir max_instructions max_stack a small
            (analyze_ir-Checked fl ir max_instructions max_stack a accepted) n.given)
