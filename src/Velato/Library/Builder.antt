-- ===== src/Velato/Library/Builder.antt =====
-- The methods of PolicyBuilder (services/velato-engine/standard_library.py): each takes the
-- instructions gathered so far and gives them with its own at the end.
use signalchord.Prelude.{String, Bool, [], ◌∷◌, ◌++◌, ok, ◌>>=◌, ◌>>◌, raise_if, if◌then◌else◌}
use signalchord.Prelude.Int.{ℤ, pos}
use signalchord.Velato.Ops.{Op}
use signalchord.Velato.Ir.{Arg, instruction}
use signalchord.Velato.Library.{
  Num, int, Numbers, Emitted, Program, arg_of, or_overflow, lower_above_upper, normalize_bounds,
}

module _ {F : Type 0} where
  abbrev pub emit : Op → Arg F → Program F → Program F
  emit op arg builder = builder ++ instruction op arg ∷ []

  abbrev pub extend : Program F → Program F → Program F
  extend instructions builder = builder ++ instructions

  abbrev pub emit_plain : Op → Program F → Program F
  emit_plain op = emit op Arg.absent

  abbrev pub emit_constant : Num F → Program F → Program F
  emit_constant value = emit Op.push_const (arg_of value)

  abbrev pub emit_input : String → Program F → Program F
  emit_input name = emit Op.load_input (Arg.str_arg name)

  abbrev pub load_local : ℤ → Program F → Program F
  load_local register = emit Op.load_local (Arg.int_arg register)

  abbrev pub store_local : ℤ → Program F → Program F
  store_local register = emit Op.store_local (Arg.int_arg register)

  abbrev pub percentage : Program F → Program F
  percentage builder = emit_plain Op.mul (emit_constant (int (pos 100)) builder)

  -- greater_than, at_least, less_than, at_most and equals, by their operation
  abbrev pub compare_with : Op → Num F → Program F → Program F
  compare_with op threshold builder = emit_plain op (emit_constant threshold builder)

  abbrev pub select_constants : Num F → Num F → Program F → Program F
  select_constants true_value false_value builder =
      emit_plain Op.select (emit_constant false_value (emit_constant true_value builder))

module _ {F : Type 0} (numbers : Numbers F) where
  open numbers use {num_lt, num_le, num_sub}

  -- clamp and between, by their operation
  unfoldable pub bounded : Op → Num F → Num F → Program F → Emitted (Program F)
  bounded op lower upper builder = do
    raise_if (num_lt upper lower) lower_above_upper
    ok (emit_plain op (emit_constant upper (emit_constant lower builder)))

  abbrev pub clamp : Num F → Num F → Program F → Emitted (Program F)
  clamp = bounded Op.clamp

  abbrev pub between : Num F → Num F → Program F → Emitted (Program F)
  between = bounded Op.between

  abbrev pub clamp01 : Program F → Emitted (Program F)
  clamp01 = clamp (int (pos 0)) (int (pos 1))

  -- the instructions before the clamp
  abbrev pub scaled : Num F → Num F → Program F → Program F
  scaled lower width builder =
      emit_plain Op.div (emit_constant width (emit_plain Op.sub (emit_constant lower builder)))

  unfoldable pub normalize : Num F → Num F → Bool → Program F → Emitted (Program F)
  unfolding bounded
  normalize lower upper clamped builder = do
    raise_if (num_le upper lower) normalize_bounds
    width ← or_overflow (num_sub upper lower)
    if clamped then clamp01 (scaled lower width builder) else ok (scaled lower width builder)
