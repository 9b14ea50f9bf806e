-- ===== src/Velato/Analysis.antt =====
-- services/velato-engine/engine.py: _validate_instruction and analyze_ir, the static check that
-- every program passes before it runs.
pub mod Laws
use signalchord.Prelude.{
  ℕ, suc, ◌+◌, ◌-◌, max, String, Bool, true, false, not, ◌&&◌, none, some, List, [], ◌∷◌, ◌++◌, ok,
  err, ◌>>=◌, ◌>>◌, raise_if, length, sorted, contains, str_ltb, ltb, if◌then◌else◌,
}
use signalchord.Prelude.Int.{ℤ, pos, ltb_ℤ, leb_ℤ, ◌=ℤ◌}
use signalchord.Velato.Errors.{Error, Result}
use signalchord.Velato.Ops.{
  Op, Operand, operand, output_store, is_halt, stack_effect, inputs, outputs, max_locals,
}
use signalchord.Velato.Ir.{Arg, Instruction}
use signalchord.Velato.Floats.{Floats}

pub data Warning : Type 0 where
  -- an instruction, by its index, that stands after HALT
  unreachable : ℕ → Warning
  no_halt : Warning
  not_written : List String → Warning

pub record ProgramAnalysis : Type 0 where
  pub instruction_count : ℕ
  pub max_stack_depth : ℕ
  pub final_stack_depth : ℕ
  pub required_inputs : List String
  pub local_registers : List ℤ
  pub outputs_written : List String
  pub warnings : List Warning

-- the local variables of analyze_ir; a set is the list of what was added, first added first
pub record Scan : Type 0 where
  pub depth : ℕ
  pub max_depth : ℕ
  pub required_inputs : List String
  pub local_registers : List ℤ
  pub outputs_written : List String
  pub warnings : List Warning
  pub halted : Bool
  pub executed_count : ℕ

abbrev pub start : Scan
start = record {
  depth = 0;
  max_depth = 0;
  required_inputs = [];
  local_registers = [];
  outputs_written = [];
  warnings = [];
  halted = false;
  executed_count = 0;
}

-- `s.add(x)` on a set of str
abbrev pub add_str : String → List String → List String
add_str x xs = if contains xs x then xs else xs ++ x ∷ []

abbrev contains_int : List ℤ → ℤ → Bool
contains_int [] x = false
contains_int (y ∷ ys) x = if y =ℤ x then true else contains_int ys x

-- `s.add(x)` on a set of int
abbrev pub add_int : ℤ → List ℤ → List ℤ
add_int x xs = if contains_int xs x then xs else xs ++ x ∷ []

-- `0 <= arg < MAX_LOCALS`
abbrev pub is_local : ℤ → Bool
is_local z = leb_ℤ (pos 0) z && ltb_ℤ z (pos max_locals)

-- `[name for name in names if name (not) in written]`
abbrev pub keep_names : (String → Bool) → List String → List String
keep_names p [] = []
keep_names p (x ∷ xs) = if p x then x ∷ keep_names p xs else keep_names p xs

module _ (fl : Floats) where
  open fl use {F, of_int, is_finite}

  -- isinstance(arg, (int, float)) and isfinite(float(arg))
  validate_constant : Arg F → Result (Unit {0})
  validate_constant (Arg.int_arg z) = elim (of_int z) [
    | none ↦ err Error.overflow_error
    | some x ↦ raise_if (not (is_finite x)) Error.bad_constant
  ]
  validate_constant (Arg.float_arg x) = raise_if (not (is_finite x)) Error.bad_constant
  validate_constant _ = err Error.bad_constant

  validate_input : Arg F → Result (Unit {0})
  validate_input (Arg.str_arg s) = raise_if (not (contains inputs s)) Error.bad_input_register
  validate_input _ = err Error.bad_input_register

  validate_local : Op → Arg F → Result (Unit {0})
  validate_local op (Arg.int_arg z) = raise_if (not (is_local z)) (Error.bad_local_register op)
  validate_local op _ = err (Error.bad_local_register op)

  validate_absent : Op → Arg F → Result (Unit {0})
  validate_absent op Arg.absent = ok tt
  validate_absent op _ = err (Error.unexpected_operand op)

  validate_operand : Operand → Op → Arg F → Result (Unit {0})
  validate_operand Operand.constant_operand op arg = validate_constant arg
  validate_operand Operand.input_operand op arg = validate_input arg
  validate_operand Operand.local_operand op arg = validate_local op arg
  validate_operand Operand.no_operand op arg = validate_absent op arg

  -- _validate_instruction
  unfoldable pub validate_instruction : Instruction F → Result (Unit {0})
  unfolding validate_operand validate_constant validate_input validate_local validate_absent operand
  validate_instruction i = validate_operand (operand i.op) i.op i.arg

  -- the sets that an instruction adds to, with the assertions on its operand
  note_operand : Operand → Arg F → Scan → Result Scan
  note_operand Operand.input_operand (Arg.str_arg s) sc =
      ok (record sc { required_inputs = add_str s sc.required_inputs })
  note_operand Operand.input_operand _ sc = err Error.assertion_error
  note_operand Operand.local_operand (Arg.int_arg z) sc =
      ok (record sc { local_registers = add_int z sc.local_registers })
  note_operand Operand.local_operand _ sc = err Error.assertion_error
  note_operand Operand.constant_operand _ sc = ok sc
  note_operand Operand.no_operand _ sc = ok sc

  note_output : Op → Scan → Scan
  note_output op sc = elim (output_store op) [
    | none ↦ sc
    | some name ↦ record sc { outputs_written = add_str name sc.outputs_written }
  ]

  -- the body of the loop of analyze_ir before HALT was seen
  unfoldable pub analyze_live : ℕ → ℕ → Instruction F → Scan → Result Scan
  unfolding note_operand note_output stack_effect is_halt output_store
  analyze_live max_stack index i sc = do
    validate_instruction i
    let pops = (stack_effect i.op).0
    let pushes = (stack_effect i.op).1
    raise_if (ltb sc.depth pops) (Error.static_underflow index i.op)
    let depth = sc.depth - pops + pushes
    let deepest = max sc.max_depth depth
    raise_if (ltb max_stack deepest) Error.stack_limit
    noted ← note_operand (operand i.op) i.arg sc
    ok (record (note_output i.op noted) {
      depth = depth;
      max_depth = deepest;
      executed_count = sc.executed_count + 1;
      halted = is_halt i.op;
    })

  -- one round of the loop: after HALT an instruction only earns a warning
  unfoldable pub analyze_step : ℕ → ℕ → Instruction F → Scan → Result Scan
  analyze_step max_stack index i sc =
      if sc.halted
      then ok (record sc { warnings = sc.warnings ++ Warning.unreachable index ∷ [] })
      else analyze_live max_stack index i sc

  unfoldable pub analyze_loop : ℕ → ℕ → List (Instruction F) → Scan → Result Scan
  analyze_loop max_stack index [] sc = ok sc
  analyze_loop max_stack index (i ∷ ir) sc =
      analyze_step max_stack index i sc >>= analyze_loop max_stack (suc index) ir

  abbrev missing_outputs : Scan → List String
  missing_outputs sc = keep_names (λ name. not (contains sc.outputs_written name)) outputs

  pub final_warnings : Scan → List Warning
  final_warnings sc =
      (sc.warnings ++ (if sc.halted then [] else Warning.no_halt ∷ []))
      ++ elim (missing_outputs sc) [ [] ↦ [] | x ∷ xs ↦ Warning.not_written (x ∷ xs) ∷ [] ]

  report : Scan → ProgramAnalysis
  report sc = record {
    instruction_count = sc.executed_count;
    max_stack_depth = sc.max_depth;
    final_stack_depth = sc.depth;
    required_inputs = sorted str_ltb sc.required_inputs;
    local_registers = sorted ltb_ℤ sc.local_registers;
    outputs_written = keep_names (contains sc.outputs_written) outputs;
    warnings = final_warnings sc;
  }

  unfoldable pub analyze_ir : List (Instruction F) → ℕ → ℕ → Result ProgramAnalysis
  unfolding final_warnings report sorted
  analyze_ir [] max_instructions max_stack = err Error.empty_program
  analyze_ir (i ∷ ir) max_instructions max_stack = do
    raise_if (ltb max_instructions (length (i ∷ ir))) Error.instruction_limit
    sc ← analyze_loop max_stack 0 (i ∷ ir) start
    ok (report sc)
