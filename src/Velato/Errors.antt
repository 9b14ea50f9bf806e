-- ===== src/Velato/Errors.antt =====
-- services/velato-engine/engine.py: the exceptions of the engine, by what raises them. A
-- constructor stands for the message, and carries what the message interpolates.
use signalchord.Prelude.{ℕ, String, Bool, true, false}
use signalchord.Prelude
use signalchord.Velato.Ops.{Op}

pub data Error : Type 0 where
  -- analyze_ir and _validate_instruction
  empty_program instruction_limit bad_constant bad_input_register stack_limit : Error
  bad_local_register unexpected_operand : Op → Error
  static_underflow : ℕ → Op → Error
  -- execute
  missing_input infinite_input : String → Error
  stack_underflow infinite_value division_by_zero modulo_by_zero bad_power negative_sqrt : Error
  clamp_bounds between_bounds : Error
  unsupported_operation : Op → Error
  -- parse_midi, compile_notes, encode_midi
  midi_byte_limit sysex midi_note_limit too_few_notes : Error
  unsupported_bank : ℕ → Error
  bad_input_operand bad_local_operand bad_root bad_timing not_encodable : Error
  -- deserialize_ir, parse_assembly
  invalid_operation : ℕ → Error
  -- exceptions that are no ValueError
  overflow_error assertion_error key_error index_error io_error : Error

-- `except ValueError` catches it
unfoldable pub is_value_error : Error → Bool
is_value_error Error.overflow_error = false
is_value_error Error.assertion_error = false
is_value_error Error.key_error = false
is_value_error Error.index_error = false
is_value_error Error.io_error = false
is_value_error _ = true

abbrev pub Result {ℓ} : Type ℓ → Type ℓ
Result A = Prelude.Result Error A
