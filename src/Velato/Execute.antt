-- ===== src/Velato/Execute.antt =====
-- services/velato-engine/engine.py: execute, the interpreter. The loop is the recursion on the
-- program; `count` numbers its rounds from 1.
pub mod Inputs
pub mod Safety
pub mod Sound
use Prim.Native.Nat.{ℕ}
use signalchord.Prelude.{
  suc, max, String, Bool, false, not, Option, none, some, List, [], ◌∷◌, ◌++◌, ok, ◌>>=◌, ◌>>◌,
  raise_if, length, replicate, Dict, lookup, insert, ltb, if◌then◌else◌,
}
use signalchord.Prelude.Int.{ℤ, pos}
use signalchord.Velato.Errors.{Error, Result}
use signalchord.Velato.Ops.{Op, is_halt, inputs, max_locals}
use signalchord.Velato.Ir.{Arg, Instruction}
use signalchord.Velato.Floats.{Floats}
use signalchord.Velato.Analysis.{ProgramAnalysis, analyze_ir}
use signalchord.Velato.Compile.{or_raise}
use signalchord.Velato.Step.{Registers, step}

-- an entry of `trace`; the one of HALT has no "top", the others a float or None
pub record TraceEntry (F : Type 0) : Type 0 where
  pub op : Op
  pub arg : Arg F
  pub depth_before : ℕ
  pub depth_after : ℕ
  pub top : Option (Option F)

pub record PolicyResult : Type 0 where
  pub alert_score : ℤ
  pub severity_code : ℤ
  pub routing_code : ℤ
  pub suppressed : Bool
  pub instructions_executed : ℕ
  pub max_stack_depth : ℕ
  pub trace_hash : String

-- the local variables of execute that its loop changes
pub record Machine (F : Type 0) : Type 0 where
  pub stack : List F
  pub registers : Registers F
  pub trace : List (TraceEntry F)
  pub max_depth : ℕ

abbrev pub head_of {ℓ} : {A : Type ℓ} → List A → Option A
head_of [] = none
head_of (x ∷ xs) = some x

module _ (fl : Floats) where
  open fl use {F, zero_float, is_finite}

  abbrev pub initial : Machine F
  initial = record {
    stack = [];
    registers = record {
      locals = replicate max_locals zero_float;
      score = pos 0;
      severity = pos 0;
      route = pos 0;
      suppressed = false;
    };
    trace = [];
    max_depth = 0;
  }

  -- the loop over INPUTS; `normalized` is the dict so far
  unfoldable pub normalize_inputs : List String → Dict F → Dict F → Result (Dict F)
  normalize_inputs [] given normalized = ok normalized
  normalize_inputs (key ∷ keys) given normalized = do
    value ← or_raise (Error.missing_input key) (lookup key given)
    raise_if (not (is_finite value)) (Error.infinite_input key)
    normalize_inputs keys given (insert key value normalized)

  record_halt : Instruction F → Machine F → Machine F
  record_halt i m = record m {
    trace =
        m.trace
        ++ record {
          op = i.op;
          arg = i.arg;
          depth_before = length m.stack;
          depth_after = length m.stack;
          top = none;
        }
          ∷ [];
  }

  -- the rest of a round, after the operation
  settle : ℕ → Instruction F → Machine F → List F × Registers F → Result (Machine F)
  settle max_stack i m (s, r) = do
    raise_if (ltb max_stack (length s)) Error.stack_limit
    ok (record {
      stack = s;
      registers = r;
      max_depth = max m.max_depth (length s);
      trace =
          m.trace
          ++ record {
            op = i.op;
            arg = i.arg;
            depth_before = length m.stack;
            depth_after = length s;
            top = some (head_of s);
          }
            ∷ [];
    })

  -- one round of the loop for an operation other than HALT
  unfoldable pub execute_step : ℕ → Dict F → Instruction F → Machine F → Result (Machine F)
  unfolding settle
  execute_step max_stack env i m = do
    next ← step fl i.op i.arg env m.stack m.registers
    settle max_stack i m next

  unfoldable pub execute_loop :
      ℕ → ℕ → Dict F → ℕ → List (Instruction F) → Machine F → Result (Machine F)
  unfolding record_halt is_halt
  execute_loop max_instructions max_stack env count [] m = ok m
  execute_loop max_instructions max_stack env count (i ∷ ir) m = do
    let rest = execute_loop max_instructions max_stack env (suc count) ir
    raise_if (ltb max_instructions count) Error.instruction_limit
    if is_halt i.op then ok (record_halt i m) else execute_step max_stack env i m >>= rest

  -- the PolicyResult; `digest` is the SHA-256 of the trace as canonical JSON
  result_of : (List (TraceEntry F) → String) → ProgramAnalysis → Machine F → PolicyResult
  result_of digest analysis m = record {
    alert_score = m.registers.score;
    severity_code = m.registers.severity;
    routing_code = m.registers.route;
    suppressed = m.registers.suppressed;
    instructions_executed = length m.trace;
    max_stack_depth = max m.max_depth analysis.max_stack_depth;
    trace_hash = digest m.trace;
  }

  unfoldable pub execute :
      (List (TraceEntry F) → String) → List (Instruction F) → Dict F → ℕ → ℕ → Result PolicyResult
  unfolding result_of
  execute digest ir given max_instructions max_stack = do
    analysis ← analyze_ir fl ir max_instructions max_stack
    env ← normalize_inputs inputs given []
    m ← execute_loop max_instructions max_stack env 1 ir initial
    ok (result_of digest analysis m)
