-- ===== src/Velato/Midi.antt =====
-- services/velato-engine/engine.py: parse_midi, _encode_velocity and encode_midi. The library mido,
-- which reads and writes files, is a parameter.
pub mod Velocity
pub mod Plays
pub mod RoundTrip
use signalchord.Prelude.{
  ℕ, ◌+◌, ◌≡◌, Bool, true, false, All, not, ◌&&◌, ◌||◌, Option, none, some, String, List, [], ◌∷◌,
  ◌++◌, map, ok, err, ◌>>=◌, ◌>>◌, raise_if, length, ltb, ◌=ˢ◌, if◌then◌else◌, Option, contains,
  suc,
}
use mathlib.Core.Option
use signalchord.Prelude.Int.{ℤ, pos, pos_part, ltb_ℤ, leb_ℤ}
use signalchord.Velato.Errors.{Error, Result}
use signalchord.Velato.Ops.{
  Op, Operand, operand, op_encoding, inputs, default_max_instructions, default_max_stack,
}
use signalchord.Velato.Ir.{Arg, Instruction, MidiNote}
use signalchord.Velato.Floats.{Floats}
use signalchord.Velato.Analysis.{analyze_ir, is_local}
use signalchord.Velato.Compile.{or_raise}

-- A message of mido: note, velocity, channel and time of the notes; the rest only by its kind.
pub data Message : Type 0 where
  note_on : ℕ → ℕ → ℕ → ℕ → Message
  note_off : ℕ → ℕ → ℕ → ℕ → Message
  sysex : Message
  end_of_track : Message
  other_message : Message

pub record MidiFile : Type 0 where
  pub ticks_per_beat : ℕ
  pub tracks : List (List Message)

-- the end of a track
abbrev pub is_end : Message → Bool
is_end Message.end_of_track = true
is_end _ = false

-- tracks that do not hold their end yet
abbrev pub IsOpen : List (List Message) → Type 0
IsOpen tracks = All (λ t. All (λ m. is_end m ≡ false) t) tracks

-- what is written ends each track by the meta message
abbrev pub close_tracks : List (List Message) → List (List Message)
close_tracks [] = []
close_tracks (t ∷ ts) = (t ++ Message.end_of_track ∷ []) ∷ close_tracks ts

-- mido, as far as the engine calls it: files as bytes. Saving raises where a number does not fit the
-- format, as a resolution of more than 32767 ticks does not. A file without ends of tracks that was
-- saved is read back with each track closed.
pub record Mido : Type 1 where
  pub Bytes : Type 0
  pub byte_count : Bytes → ℕ
  pub save : MidiFile → Result Bytes
  pub load : Bytes → Result MidiFile
  pub load-save :
      (f : MidiFile) (content : Bytes)
      → IsOpen f.tracks
      → save f ≡ ok content
      → load content ≡ ok (record f { tracks = close_tracks f.tracks })

-- one message of parse_midi, with the note limit tested after it
unfoldable pub collect_message : ℕ → Message → List MidiNote → Result (List MidiNote)
collect_message max_notes Message.sysex notes = err Error.sysex
collect_message max_notes (Message.note_on note velocity channel time) notes =
    let found =
      if ltb 0 velocity
      then notes ++ record { note = note; velocity = velocity; channel = channel } ∷ []
      else notes in
    if ltb max_notes (length found) then err Error.midi_note_limit else ok found
collect_message max_notes _ notes =
    if ltb max_notes (length notes) then err Error.midi_note_limit else ok notes

unfoldable pub collect_track : ℕ → List Message → List MidiNote → Result (List MidiNote)
collect_track max_notes [] notes = ok notes
collect_track max_notes (m ∷ ms) notes =
    collect_message max_notes m notes >>= collect_track max_notes ms

unfoldable pub collect_tracks : ℕ → List (List Message) → List MidiNote → Result (List MidiNote)
collect_tracks max_notes [] notes = ok notes
collect_tracks max_notes (t ∷ ts) notes =
    collect_track max_notes t notes >>= collect_tracks max_notes ts

-- `INPUTS.index(name)`
unfoldable pub index_of : String → List String → Option ℕ
index_of name [] = none
index_of name (x ∷ xs) = if x =ˢ name then some 0 else Option.map suc (index_of name xs)

abbrev pub default_max_bytes : ℕ
default_max_bytes = 128000

abbrev pub default_max_notes : ℕ
default_max_notes = 1024

module _ (mido : Mido) where
  open mido use {Bytes, byte_count, load}

  unfoldable pub parse_midi : Bytes → ℕ → ℕ → Result (List MidiNote)
  parse_midi content max_bytes max_notes = do
    raise_if (ltb max_bytes (byte_count content)) Error.midi_byte_limit
    midi ← load content
    notes ← collect_tracks max_notes midi.tracks []
    raise_if (ltb (length notes) 2) Error.too_few_notes
    ok notes

module _ (fl : Floats) where
  open fl use {F, of_int, as_int}

  -- `value.is_integer()` and `0 <= value <= 126`, then `int(value) + 1`
  encode_float : F → Result ℕ
  encode_float x = elim (as_int x) [
    | none ↦ err Error.not_encodable
    | some z ↦
        if leb_ℤ (pos 0) z && leb_ℤ z (pos 126)
        then ok (pos_part z + 1)
        else err Error.not_encodable
  ]

  encode_constant : Arg F → Result ℕ
  encode_constant (Arg.int_arg z) = do x ← or_raise Error.overflow_error (of_int z); encode_float x
  encode_constant (Arg.float_arg x) = encode_float x
  encode_constant _ = err Error.bad_constant

  encode_input : Arg F → Result ℕ
  encode_input (Arg.str_arg name) = do
    index ← or_raise Error.bad_input_register (index_of name inputs)
    ok (index + 1)
  encode_input _ = err Error.bad_input_register

  encode_local : Op → Arg F → Result ℕ
  encode_local op (Arg.int_arg z) =
      if is_local z then ok (pos_part z + 1) else err (Error.bad_local_register op)
  encode_local op _ = err (Error.bad_local_register op)

  encode_kind : Operand → Op → Arg F → Result ℕ
  encode_kind Operand.constant_operand op arg = encode_constant arg
  encode_kind Operand.input_operand op arg = encode_input arg
  encode_kind Operand.local_operand op arg = encode_local op arg
  encode_kind Operand.no_operand op arg = ok 64

  -- _encode_velocity
  unfoldable pub encode_velocity : Instruction F → Result ℕ
  unfolding encode_kind encode_constant encode_input encode_local encode_float operand
  encode_velocity i = encode_kind (operand i.op) i.op i.arg

  -- the two messages of an instruction
  unfoldable pub encode_instruction : ℕ → ℕ → Instruction F → Result (List Message)
  encode_instruction root_note note_ticks i = do
    (bank, interval) ← or_raise Error.key_error (op_encoding i.op)
    velocity ← encode_velocity i
    ok (
        Message.note_on (root_note + interval) velocity bank 0
        ∷ Message.note_off (root_note + interval) 0 bank note_ticks
        ∷ [])

  unfoldable pub encode_instructions : ℕ → ℕ → List (Instruction F) → Result (List Message)
  encode_instructions root_note note_ticks [] = ok []
  encode_instructions root_note note_ticks (i ∷ ir) = do
    messages ← encode_instruction root_note note_ticks i
    rest ← encode_instructions root_note note_ticks ir
    ok (messages ++ rest)

  -- the file that encode_midi builds, before it is saved
  unfoldable pub build_midi : List (Instruction F) → ℤ → ℤ → ℤ → Result MidiFile
  build_midi ir root_note ticks_per_beat note_ticks = do
    checked ← analyze_ir fl ir default_max_instructions default_max_stack
    raise_if (not (leb_ℤ (pos 0) root_note && leb_ℤ root_note (pos 116))) Error.bad_root
    raise_if (leb_ℤ ticks_per_beat (pos 0) || leb_ℤ note_ticks (pos 0)) Error.bad_timing
    let root = pos_part root_note
    let ticks = pos_part note_ticks
    messages ← encode_instructions root ticks ir
    ok (record {
      ticks_per_beat = pos_part ticks_per_beat;
      tracks = (Message.note_on root 64 0 0 ∷ Message.note_off root 0 0 ticks ∷ messages) ∷ [];
    })

  unfoldable pub encode_midi : (mido : Mido) → List (Instruction F) → ℤ → ℤ → ℤ → Result mido.Bytes
  encode_midi mido ir root_note ticks_per_beat note_ticks = do
    midi ← build_midi ir root_note ticks_per_beat note_ticks
    mido.save midi
