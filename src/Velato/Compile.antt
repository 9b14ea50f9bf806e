-- ===== src/Velato/Compile.antt =====
-- services/velato-engine/engine.py: _decode_operand and compile_notes, from MIDI notes to the
-- intermediate representation.
pub mod Sound
use signalchord.Prelude.{
  ℕ, ◌+◌, ◌*◌, ◌%◌, ◌||◌, Option, none, some, List, [], ◌∷◌, ok, err, ◌>>=◌, ◌>>◌, raise_if,
  get_elem?, length, if◌then◌else◌,
}
use signalchord.Prelude.Int.{ℤ, pos, pos_part, sub_ℕ, ltb_ℤ, leb_ℤ}
use signalchord.Velato.Errors.{Error, Result}
use signalchord.Velato.Ops.{
  Op, Operand, operand, is_halt, instruction_banks, inputs, max_locals, default_max_instructions,
  default_max_stack,
}
use signalchord.Velato.Ir.{Arg, Instruction, instruction, MidiNote}
use signalchord.Velato.Floats.{Floats}
use signalchord.Velato.Analysis.{analyze_ir}

-- `bank[key]` on a dict, and `xs[i]` on a sequence
abbrev pub or_raise {ℓ} : {A : Type ℓ} → Error → Option A → Result A
or_raise e none = err e
or_raise e (some a) = ok a

-- `(note - root) % 12`, which Python takes in 0 to 11: -root and 11 * root are the same mod 12
unfoldable pub interval_of : ℕ → ℕ → ℕ
interval_of root note = (note + 11 * root) % 12

module _ (fl : Floats) where
  open fl use {F}

  decode_kind : Operand → ℤ → Result (Arg F)
  decode_kind Operand.constant_operand z = ok (Arg.int_arg z)
  decode_kind Operand.input_operand z = do
    raise_if (ltb_ℤ z (pos 0) || leb_ℤ (pos (length inputs)) z) Error.bad_input_operand
    name ← or_raise Error.index_error (get_elem? inputs (pos_part z))
    ok (Arg.str_arg name)
  decode_kind Operand.local_operand z = do
    raise_if (ltb_ℤ z (pos 0) || leb_ℤ (pos max_locals) z) Error.bad_local_operand
    ok (Arg.int_arg z)
  decode_kind Operand.no_operand z = ok Arg.absent

  -- _decode_operand
  unfoldable pub decode_operand : Op → ℕ → Result (Arg F)
  unfolding decode_kind operand
  decode_operand op velocity = decode_kind (operand op) (sub_ℕ velocity 1)

  -- one note of the loop of compile_notes
  unfoldable pub compile_event : ℕ → MidiNote → Result (Instruction F)
  compile_event root event = do
    let interval = interval_of root event.note
    bank ←
        or_raise (Error.unsupported_bank event.channel) (get_elem? instruction_banks event.channel)
    op ← or_raise Error.key_error (get_elem? bank interval)
    arg ← decode_operand op event.velocity
    ok (instruction op arg)

  -- the loop, which HALT leaves
  unfoldable pub compile_events : ℕ → List MidiNote → Result (List (Instruction F))
  compile_events root [] = ok []
  compile_events root (event ∷ events) = do
    let rest = compile_events root events
    i ← compile_event root event
    if is_halt i.op then ok (i ∷ []) else (rest >>= λ is. ok (i ∷ is))

  -- `if not ir or ir[-1].op is not Op.HALT: ir.append(Instruction(Op.HALT))`
  unfoldable pub ensure_halt : List (Instruction F) → List (Instruction F)
  unfolding is_halt
  ensure_halt [] = instruction Op.halt Arg.absent ∷ []
  ensure_halt (i ∷ []) = if is_halt i.op then i ∷ [] else i ∷ instruction Op.halt Arg.absent ∷ []
  ensure_halt (i ∷ j ∷ is) = i ∷ ensure_halt (j ∷ is)

  unfoldable pub compile_notes : List MidiNote → Result (List (Instruction F))
  compile_notes [] = err Error.index_error
  compile_notes (root ∷ events) = do
    is ← compile_events root.note events
    let ir = ensure_halt is
    checked ← analyze_ir fl ir default_max_instructions default_max_stack
    ok ir
