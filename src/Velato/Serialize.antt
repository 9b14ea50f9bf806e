-- ===== src/Velato/Serialize.antt =====
-- services/velato-engine/engine.py: default_policy_ir, serialize_ir and deserialize_ir.
use signalchord.Prelude.{
  ℕ, suc, ◌≡◌, refl, String, Option, none, some, List, [], ◌∷◌, ◌++◌, ok, err, ◌>>=◌, ◌=ˢ◌,
  if◌then◌else◌,
}
use signalchord.Prelude.Int.{pos}
use signalchord.Velato.Errors.{Error, Result}
use signalchord.Velato.Ops.{
  Op, op_value, instruction_banks, default_max_instructions, default_max_stack,
}
use signalchord.Velato.Ir.{Arg, Instruction, instruction}
use signalchord.Velato.Floats.{Floats}
use signalchord.Velato.Analysis.{ProgramAnalysis, analyze_ir}

-- An item of the serialized program: `str(item["op"])`, if the key is there, and `item.get("arg")`.
pub record Item (F : Type 0) : Type 0 where
  pub op : Option String
  pub arg : Arg F

abbrev concat : List (List Op) → List Op
concat [] = []
concat (ops ∷ banks) = ops ++ concat banks

abbrev find_value : String → List Op → Option Op
unfolding op_value
find_value value [] = none
find_value value (op ∷ ops) = if op_value op =ˢ value then some op else find_value value ops

-- `Op(value)`, which raises ValueError
unfoldable pub op_of_value : String → Option Op
unfolding find_value
op_of_value value = find_value value (concat instruction_banks)

-- serialize_ir
unfoldable pub serialize_ir : {F : Type 0} → List (Instruction F) → List (Item F)
unfolding op_value
serialize_ir [] = []
serialize_ir (i ∷ ir) = record { op = some (op_value i.op); arg = i.arg } ∷ serialize_ir ir

-- `Op(str(item["op"]))`: KeyError and ValueError both become an invalid operation
abbrev pub op_or_invalid : ℕ → Option Op → Result Op
op_or_invalid index none = err (Error.invalid_operation index)
op_or_invalid index (some op) = ok op

abbrev pub read_op : ℕ → Option String → Result Op
read_op index none = err (Error.invalid_operation index)
read_op index (some value) = op_or_invalid index (op_of_value value)

module _ {F : Type 0} where
  unfoldable pub read_items : ℕ → List (Item F) → Result (List (Instruction F))
  read_items index [] = ok []
  read_items index (item ∷ items) = do
    op ← read_op index item.op
    ir ← read_items (suc index) items
    ok (instruction op item.arg ∷ ir)

op_of_value-op_value : (op : Op) → op_of_value (op_value op) ≡ some op
unfolding op_of_value op_value find_value
op_of_value-op_value Op.halt = refl
op_of_value-op_value Op.push_const = refl
op_of_value-op_value Op.load_input = refl
op_of_value-op_value Op.add = refl
op_of_value-op_value Op.sub = refl
op_of_value-op_value Op.mul = refl
op_of_value-op_value Op.gt = refl
op_of_value-op_value Op.select = refl
op_of_value-op_value Op.store_score = refl
op_of_value-op_value Op.store_severity = refl
op_of_value-op_value Op.store_route = refl
op_of_value-op_value Op.store_suppress = refl
op_of_value-op_value Op.min = refl
op_of_value-op_value Op.max = refl
op_of_value-op_value Op.div = refl
op_of_value-op_value Op.modulo = refl
op_of_value-op_value Op.neg = refl
op_of_value-op_value Op.abs = refl
op_of_value-op_value Op.clamp = refl
op_of_value-op_value Op.floor = refl
op_of_value-op_value Op.ceil = refl
op_of_value-op_value Op.round = refl
op_of_value-op_value Op.pow = refl
op_of_value-op_value Op.sqrt = refl
op_of_value-op_value Op.eq = refl
op_of_value-op_value Op.ne = refl
op_of_value-op_value Op.lt = refl
op_of_value-op_value Op.lte = refl
op_of_value-op_value Op.gte = refl
op_of_value-op_value Op.and = refl
op_of_value-op_value Op.or = refl
op_of_value-op_value Op.xor = refl
op_of_value-op_value Op.not = refl
op_of_value-op_value Op.is_zero = refl
op_of_value-op_value Op.between = refl
op_of_value-op_value Op.sign = refl
op_of_value-op_value Op.dup = refl
op_of_value-op_value Op.swap = refl
op_of_value-op_value Op.over = refl
op_of_value-op_value Op.drop = refl
op_of_value-op_value Op.load_local = refl
op_of_value-op_value Op.store_local = refl
op_of_value-op_value Op.nop = refl
op_of_value-op_value Op.stack_depth = refl
op_of_value-op_value Op.load_score = refl
op_of_value-op_value Op.load_severity = refl
op_of_value-op_value Op.load_route = refl
op_of_value-op_value Op.load_suppress = refl

read_items-serialize_ir :
    {F : Type 0} (index : ℕ) (ir : List (Instruction F))
    → read_items index (serialize_ir ir) ≡ ok ir
unfolding read_items serialize_ir
read_items-serialize_ir index [] = refl
read_items-serialize_ir index (i ∷ ir) =
    rw (op_of_value-op_value i.op, read_items-serialize_ir (suc index) ir) refl

module _ (fl : Floats) where
  open fl use {F}

  unfoldable pub deserialize_ir : List (Item F) → Result (List (Instruction F))
  unfolding read_items
  deserialize_ir items = do
    ir ← read_items 0 items
    analysis ← analyze_ir fl ir default_max_instructions default_max_stack
    ok ir

  -- A program that the engine accepts is read back as it was from its serialized form.
  pub deserialize-serialize_ir :
      (ir : List (Instruction F)) (analysis : ProgramAnalysis)
      → analyze_ir fl ir default_max_instructions default_max_stack ≡ ok analysis
      → deserialize_ir (serialize_ir ir) ≡ ok ir
  unfolding deserialize_ir
  deserialize-serialize_ir ir analysis h = rw (read_items-serialize_ir 0 ir, h) refl

  -- default_policy_ir
  unfoldable pub default_policy_ir : List (Instruction F)
  default_policy_ir =
      instruction Op.load_input (Arg.str_arg "watchlist_match")
      ∷ instruction Op.push_const (Arg.int_arg (pos 40))
      ∷ instruction Op.mul Arg.absent
      ∷ instruction Op.load_input (Arg.str_arg "novelty")
      ∷ instruction Op.push_const (Arg.int_arg (pos 25))
      ∷ instruction Op.mul Arg.absent
      ∷ instruction Op.add Arg.absent
      ∷ instruction Op.load_input (Arg.str_arg "entity_relevance")
      ∷ instruction Op.push_const (Arg.int_arg (pos 20))
      ∷ instruction Op.mul Arg.absent
      ∷ instruction Op.add Arg.absent
      ∷ instruction Op.load_input (Arg.str_arg "source_diversity")
      ∷ instruction Op.push_const (Arg.int_arg (pos 15))
      ∷ instruction Op.mul Arg.absent
      ∷ instruction Op.add Arg.absent
      ∷ instruction Op.store_score Arg.absent
      ∷ instruction Op.push_const (Arg.int_arg (pos 2))
      ∷ instruction Op.store_severity Arg.absent
      ∷ instruction Op.push_const (Arg.int_arg (pos 1))
      ∷ instruction Op.store_route Arg.absent
      ∷ instruction Op.push_const (Arg.int_arg (pos 0))
      ∷ instruction Op.store_suppress Arg.absent
      ∷ instruction Op.halt Arg.absent
      ∷ []
