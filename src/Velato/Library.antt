-- ===== src/Velato/Library.antt =====
-- services/velato-engine/standard_library.py: PolicyBuilder and the macros that emit programs.
pub mod Height
pub mod Bands
pub mod Policy
pub mod Builder
pub mod Normalize
mod Tests
use signalchord.Prelude
use signalchord.Prelude.{
  ℕ, String, Bool, true, false, not, ◌&&◌, Option, none, some, List, [], ◌∷◌, ◌++◌, ok, err, ◌>>=◌,
  ◌>>◌, raise_if, contains, sorted, str_ltb, if◌then◌else◌,
}
use signalchord.Prelude.Int.{ℤ, pos}
use signalchord.Velato.Errors.{Error}
use signalchord.Velato.Ops.{Op, outputs, default_max_instructions, default_max_stack}
use signalchord.Velato.Ir.{Arg, Instruction, instruction}
use signalchord.Velato.Floats.{Floats}
use signalchord.Velato.Analysis.{ProgramAnalysis, analyze_ir, keep_names}
use signalchord.Velato.Compile.{ensure_halt}

-- A Python number as policies use it: an int or a float.
pub data Num (F : Type 0) : Type 0 where
  int : ℤ → Num F
  float : F → Num F

-- Python's arithmetic and comparisons across ints and floats; a sum or difference raises
-- OverflowError where an int is too large for a float.
pub record Numbers (F : Type 0) : Type 0 where
  pub num_lt : Num F → Num F → Bool
  pub num_le : Num F → Num F → Bool
  pub num_eq : Num F → Num F → Bool
  pub num_add : Num F → Num F → Option (Num F)
  pub num_sub : Num F → Num F → Option (Num F)

-- The ValueErrors of the macros by what raises them, and the errors of the engine.
pub data LibraryError : Type 0 where
  lower_above_upper normalize_bounds no_terms no_average_terms zero_weight : LibraryError
  unordered_thresholds scale_not_positive : LibraryError
  missing_outputs : List String → LibraryError
  engine_error : Error → LibraryError

abbrev pub Emitted : Type 0 → Type 0
Emitted A = Prelude.Result LibraryError A

-- an instruction's operand
abbrev pub arg_of : {F : Type 0} → Num F → Arg F
arg_of (int z) = Arg.int_arg z
arg_of (float x) = Arg.float_arg x

abbrev pub in_engine : {A : Type 0} → Prelude.Result Error A → Emitted A
in_engine (ok a) = ok a
in_engine (err e) = err (engine_error e)

abbrev pub or_overflow : {A : Type 0} → Option A → Emitted A
or_overflow none = err (engine_error Error.overflow_error)
or_overflow (some a) = ok a

abbrev pub Program : Type 0 → Type 0
Program F = List (Instruction F)

module _ {F : Type 0} where
  -- `Instruction(op)`
  abbrev pub plain : Op → Instruction F
  plain op = instruction op Arg.absent

  abbrev pub constant : Num F → Instruction F
  constant n = instruction Op.push_const (arg_of n)

  abbrev pub input : String → Instruction F
  input name = instruction Op.load_input (Arg.str_arg name)

  -- `builder.input(name).constant(weight).multiply()`, and `builder.add()` but for the first
  unfoldable pub add_terms : List (String × Num F) → Program F
  add_terms [] = []
  add_terms ((name, weight) ∷ terms) =
      input name ∷ constant weight ∷ plain Op.mul ∷ plain Op.add ∷ add_terms terms

  unfoldable pub weighted_sum : List (String × Num F) → Emitted (Program F)
  unfolding add_terms
  weighted_sum [] = err no_terms
  weighted_sum ((name, weight) ∷ terms) =
      ok (input name ∷ constant weight ∷ plain Op.mul ∷ add_terms terms)

  -- all_conditions and any_condition: `join` stands after each condition but the first
  unfoldable pub join_rest : Op → List (Program F) → Program F
  join_rest join [] = []
  join_rest join (condition ∷ conditions) = condition ++ plain join ∷ join_rest join conditions

  unfoldable pub all_conditions : List (Program F) → Program F
  unfolding join_rest
  all_conditions [] = constant (int (pos 1)) ∷ []
  all_conditions (condition ∷ conditions) = condition ++ join_rest Op.and conditions

  unfoldable pub any_condition : List (Program F) → Program F
  unfolding join_rest
  any_condition [] = constant (int (pos 0)) ∷ []
  any_condition (condition ∷ conditions) = condition ++ join_rest Op.or conditions

  unfoldable pub input_at_least : String → Num F → Program F
  input_at_least name threshold = input name ∷ constant threshold ∷ plain Op.gte ∷ []

  unfoldable pub input_at_most : String → Num F → Program F
  input_at_most name threshold = input name ∷ constant threshold ∷ plain Op.lte ∷ []

  unfoldable pub route_when : Program F → Num F → Num F → Program F
  route_when condition true_route false_route =
      condition
      ++ constant true_route ∷ constant false_route ∷ plain Op.select ∷ plain Op.store_route ∷ []

  unfoldable pub suppress_when : Program F → Program F
  suppress_when condition = condition ++ plain Op.store_suppress ∷ []

module _ (fl : Floats) (numbers : Numbers fl.F) where
  open fl use {F}
  open numbers use {num_lt, num_le, num_eq, num_add, num_sub}

  unfoldable pub input_between : String → Num F → Num F → Emitted (Program F)
  input_between name lower upper = do
    raise_if (num_lt upper lower) lower_above_upper
    ok (input name ∷ constant lower ∷ constant upper ∷ plain Op.between ∷ [])

  -- `sum(weight for _, weight in terms)`, from the left
  abbrev pub total_from : Num F → List (String × Num F) → Option (Num F)
  total_from total [] = some total
  total_from total ((name, weight) ∷ terms) = elim (num_add total weight) [
    | none ↦ none
    | some t ↦ total_from t terms
  ]

  abbrev pub is_empty : List (String × Num F) → Bool
  is_empty [] = true
  is_empty (t ∷ terms) = false

  unfoldable pub weighted_average : List (String × Num F) → Emitted (Program F)
  unfolding weighted_sum
  weighted_average terms = do
    total ← or_overflow (total_from (int (pos 0)) terms)
    raise_if (is_empty terms) no_average_terms
    raise_if (num_eq total (int (pos 0))) zero_weight
    sum ← weighted_sum terms
    ok (sum ++ constant total ∷ plain Op.div ∷ [])

  -- one step from a severity to the next, where the score has reached the threshold
  abbrev pub band : Num F → Num F → Program F
  band score gain =
      plain Op.over
      ∷ constant score
      ∷ plain Op.gte
      ∷ constant gain
      ∷ plain Op.mul
      ∷ plain Op.add
      ∷ []

  unfoldable pub severity_bands :
      Num F → Num F → Num F → Num F → Num F → Num F → Num F → Emitted (Program F)
  severity_bands medium_score high_score critical_score low medium high critical = do
    raise_if (not (num_le medium_score high_score && num_le high_score critical_score))
        unordered_thresholds
    to_medium ← or_overflow (num_sub medium low)
    to_high ← or_overflow (num_sub high medium)
    to_critical ← or_overflow (num_sub critical high)
    ok (
        constant low ∷ band medium_score to_medium
        ++ (band high_score to_high
            ++ (band critical_score to_critical ++ plain Op.swap ∷ plain Op.drop ∷ [])))

  -- severity_bands with its defaults
  abbrev pub default_bands : Emitted (Program F)
  unfolding severity_bands
  default_bands =
      severity_bands (int (pos 40)) (int (pos 65)) (int (pos 85)) (int (pos 1)) (int (pos 2))
        (int (pos 3)) (int (pos 4))

  -- `expected.difference(analysis.outputs_written)`, and the error over it
  abbrev pub check_outputs : List String → Emitted (Unit {0})
  check_outputs [] = ok tt
  check_outputs (name ∷ names) = err (missing_outputs (name ∷ names))

  abbrev pub missing_from : ProgramAnalysis → List String
  missing_from analysis =
      sorted str_ltb (keep_names (λ name. not (contains analysis.outputs_written name)) outputs)

  -- PolicyBuilder.build
  unfoldable pub build : Bool → Program F → Emitted (Program F)
  unfolding ensure_halt
  build require_outputs instructions = do
    let ir = ensure_halt fl instructions
    analysis ← in_engine (analyze_ir fl ir default_max_instructions default_max_stack)
    if require_outputs then check_outputs (missing_from analysis) else ok tt
    ok ir

  -- the instructions that standard_alert_policy gathers before it builds them
  abbrev pub policy_body : Program F → Program F → Num F → Num F → Num F → Program F
  policy_body average bands score_scale suppress_below default_route =
      average
      ++ (constant score_scale
            ∷ plain Op.mul
            ∷ plain Op.dup
            ∷ plain Op.store_score
            ∷ plain Op.dup
            ∷ bands
          ++ (plain Op.store_severity
              ∷ plain Op.dup
              ∷ constant suppress_below
              ∷ plain Op.lt
              ∷ plain Op.store_suppress
              ∷ plain Op.drop
              ∷ constant default_route
              ∷ plain Op.store_route
              ∷ plain Op.halt
              ∷ []))

  unfoldable pub standard_alert_policy :
      List (String × Num F) → Num F → Num F → Num F → Emitted (Program F)
  unfolding weighted_average build severity_bands
  standard_alert_policy terms score_scale suppress_below default_route = do
    raise_if (num_le score_scale (int (pos 0))) scale_not_positive
    average ← weighted_average terms
    bands ← default_bands
    build true (policy_body average bands score_scale suppress_below default_route)
