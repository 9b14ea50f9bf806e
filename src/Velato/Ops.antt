-- ===== src/Velato/Ops.antt =====
-- services/velato-engine/engine.py: the operations, the registers and the tables over them.
use signalchord.Prelude.{
  ℕ, ◌+◌, String, Bool, true, false, Option, none, some, List, [], ◌∷◌, ◌++◌, ◌=ˢ◌, if◌then◌else◌,
}

abbrev pub max_locals : ℕ
max_locals = 16

abbrev pub default_max_instructions : ℕ
default_max_instructions = 512

abbrev pub default_max_stack : ℕ
default_max_stack = 64

abbrev pub inputs : List String
inputs =
    "source_trust" ∷ "corroboration_count" ∷ "contradiction_count" ∷ "novelty" ∷ "entity_relevance"
    ∷ "graph_centrality" ∷ "geographic_relevance" ∷ "watchlist_match" ∷ "recency"
    ∷ "source_diversity" ∷ []

abbrev pub outputs : List String
outputs = "alert_score" ∷ "severity_code" ∷ "routing_code" ∷ "suppressed" ∷ []

pub data Op : Type 0 where
  halt push_const load_input add sub mul gt select store_score store_severity store_route
        store_suppress :
      Op
  min max div modulo neg abs clamp floor ceil round pow sqrt : Op
  eq ne lt lte gte and or xor not is_zero between sign : Op
  dup swap over drop load_local store_local nop stack_depth load_score load_severity load_route
        load_suppress :
      Op

-- the value of the enum, as programs are serialized
unfoldable pub op_value : Op → String
op_value halt = "HALT"
op_value push_const = "PUSH_CONST"
op_value load_input = "LOAD_INPUT"
op_value add = "ADD"
op_value sub = "SUB"
op_value mul = "MUL"
op_value gt = "GT"
op_value select = "SELECT"
op_value store_score = "STORE_SCORE"
op_value store_severity = "STORE_SEVERITY"
op_value store_route = "STORE_ROUTE"
op_value store_suppress = "STORE_SUPPRESS"
op_value min = "MIN"
op_value max = "MAX"
op_value div = "DIV"
op_value modulo = "MOD"
op_value neg = "NEG"
op_value abs = "ABS"
op_value clamp = "CLAMP"
op_value floor = "FLOOR"
op_value ceil = "CEIL"
op_value round = "ROUND"
op_value pow = "POW"
op_value sqrt = "SQRT"
op_value eq = "EQ"
op_value ne = "NE"
op_value lt = "LT"
op_value lte = "LTE"
op_value gte = "GTE"
op_value and = "AND"
op_value or = "OR"
op_value xor = "XOR"
op_value not = "NOT"
op_value is_zero = "IS_ZERO"
op_value between = "BETWEEN"
op_value sign = "SIGN"
op_value dup = "DUP"
op_value swap = "SWAP"
op_value over = "OVER"
op_value drop = "DROP"
op_value load_local = "LOAD_LOCAL"
op_value store_local = "STORE_LOCAL"
op_value nop = "NOP"
op_value stack_depth = "STACK_DEPTH"
op_value load_score = "LOAD_SCORE"
op_value load_severity = "LOAD_SEVERITY"
op_value load_route = "LOAD_ROUTE"
op_value load_suppress = "LOAD_SUPPRESS"

-- STACK_EFFECTS: how many values an operation pops, and how many it pushes
unfoldable pub stack_effect : Op → ℕ × ℕ
stack_effect halt = (0, 0)
stack_effect push_const = (0, 1)
stack_effect load_input = (0, 1)
stack_effect add = (2, 1)
stack_effect sub = (2, 1)
stack_effect mul = (2, 1)
stack_effect gt = (2, 1)
stack_effect select = (3, 1)
stack_effect store_score = (1, 0)
stack_effect store_severity = (1, 0)
stack_effect store_route = (1, 0)
stack_effect store_suppress = (1, 0)
stack_effect min = (2, 1)
stack_effect max = (2, 1)
stack_effect div = (2, 1)
stack_effect modulo = (2, 1)
stack_effect neg = (1, 1)
stack_effect abs = (1, 1)
stack_effect clamp = (3, 1)
stack_effect floor = (1, 1)
stack_effect ceil = (1, 1)
stack_effect round = (1, 1)
stack_effect pow = (2, 1)
stack_effect sqrt = (1, 1)
stack_effect eq = (2, 1)
stack_effect ne = (2, 1)
stack_effect lt = (2, 1)
stack_effect lte = (2, 1)
stack_effect gte = (2, 1)
stack_effect and = (2, 1)
stack_effect or = (2, 1)
stack_effect xor = (2, 1)
stack_effect not = (1, 1)
stack_effect is_zero = (1, 1)
stack_effect between = (3, 1)
stack_effect sign = (1, 1)
stack_effect dup = (1, 2)
stack_effect swap = (2, 2)
stack_effect over = (2, 3)
stack_effect drop = (1, 0)
stack_effect load_local = (0, 1)
stack_effect store_local = (1, 0)
stack_effect nop = (0, 0)
stack_effect stack_depth = (0, 1)
stack_effect load_score = (0, 1)
stack_effect load_severity = (0, 1)
stack_effect load_route = (0, 1)
stack_effect load_suppress = (0, 1)

-- INSTRUCTION_BANKS: each bank is a dict from the intervals 0 to 11, that is, a list of twelve
abbrev pub instruction_banks : List (List Op)
instruction_banks =
    (halt ∷ push_const ∷ load_input ∷ add ∷ sub ∷ mul ∷ gt ∷ select ∷ store_score ∷ store_severity
      ∷ store_route ∷ store_suppress ∷ [])
    ∷ (min ∷ max ∷ div ∷ modulo ∷ neg ∷ abs ∷ clamp ∷ floor ∷ ceil ∷ round ∷ pow ∷ sqrt ∷ [])
    ∷ (eq ∷ ne ∷ lt ∷ lte ∷ gte ∷ and ∷ or ∷ xor ∷ not ∷ is_zero ∷ between ∷ sign ∷ [])
    ∷ (dup ∷ swap ∷ over ∷ drop ∷ load_local ∷ store_local ∷ nop ∷ stack_depth ∷ load_score
        ∷ load_severity ∷ load_route ∷ load_suppress ∷ [])
    ∷ []

-- `a is b` on operations: the enum's values are different texts
abbrev pub is_op : Op → Op → Bool
unfolding op_value
is_op a b = op_value a =ˢ op_value b

number_ops : ℕ → ℕ → List Op → List (Op × (ℕ × ℕ))
number_ops bank interval [] = []
number_ops bank interval (op ∷ ops) = (op, (bank, interval)) ∷ number_ops bank (interval + 1) ops

number_banks : ℕ → List (List Op) → List (Op × (ℕ × ℕ))
number_banks bank [] = []
number_banks bank (ops ∷ banks) = number_ops bank 0 ops ++ number_banks (bank + 1) banks

find_op : Op → List (Op × (ℕ × ℕ)) → Option (ℕ × ℕ)
find_op op [] = none
find_op op ((o, place) ∷ rest) = if is_op o op then some place else find_op op rest

-- OP_ENCODING, by the comprehension that inverts INSTRUCTION_BANKS
unfoldable pub op_encoding : Op → Option (ℕ × ℕ)
unfolding number_ops number_banks find_op op_value
op_encoding op = find_op op (number_banks 0 instruction_banks)

-- OPERAND_OPS and LOCAL_OPS: which operand an operation takes
pub data Operand : Type 0 where
  constant_operand input_operand local_operand no_operand : Operand

unfoldable pub operand : Op → Operand
operand push_const = constant_operand
operand load_input = input_operand
operand load_local = local_operand
operand store_local = local_operand
operand _ = no_operand

-- OUTPUT_STORE_OPS
unfoldable pub output_store : Op → Option String
output_store store_score = some "alert_score"
output_store store_severity = some "severity_code"
output_store store_route = some "routing_code"
output_store store_suppress = some "suppressed"
output_store _ = none

unfoldable pub is_halt : Op → Bool
is_halt halt = true
is_halt _ = false
