-- ===== src/Velato/Ir.antt =====
-- services/velato-engine/engine.py: the intermediate representation, its operands and the notes
-- that it is compiled from.
use signalchord.Prelude.{ℕ, String}
use signalchord.Prelude.Int.{ℤ}
use signalchord.Velato.Ops.{Op}

-- An operand, as Python code may build it or JSON may hold it. A bool is the int that it equals;
-- `other` is a JSON list or object.
pub data Arg (F : Type 0) : Type 0 where
  absent : Arg F
  int_arg : ℤ → Arg F
  float_arg : F → Arg F
  str_arg : String → Arg F
  other : Arg F

pub record Instruction (F : Type 0) : Type 0 where
  pub op : Op
  pub arg : Arg F

abbrev pub instruction : {F : Type 0} → Op → Arg F → Instruction F
instruction o a = record { op = o; arg = a }

pub record MidiNote : Type 0 where
  pub note : ℕ
  pub velocity : ℕ
  pub channel : ℕ
