-- ===== src/Velato/Tests.antt =====
-- The engine on concrete programs: floats are small exact integers, files are their own bytes.
use signalchord.Prelude
use signalchord.Prelude.{
  ℕ, zero, suc, ◌+◌, ◌≤◌, ◌≡◌, refl, sym, Bool, true, false, ◌&&◌, Option, none, some, String, List,
  [], ◌∷◌, ◌++◌, ok, err, ◌>>=◌, Post, Dict, sorted, leb, length, if◌then◌else◌, arith, map,
}
use signalchord.Prelude.Int.{ℤ, pos, pos_part, neg_part, ◌+ℤ◌, ◌-ℤ◌, ◌*ℤ◌, ltb_ℤ, leb_ℤ, ◌=ℤ◌}
use signalchord.Velato.Errors.{Error, Result, is_value_error}
use signalchord.Velato.Ops.{Op, inputs, is_halt, op_encoding}
use signalchord.Velato.Floats.{Floats}
use signalchord.Velato.Ir.{Arg, Instruction, instruction, MidiNote}
use signalchord.Velato.Analysis.{
  ProgramAnalysis, analyze_ir, analyze_loop, analyze_step, analyze_live, validate_instruction,
}
use signalchord.Velato.Serialize.{
  serialize_ir, deserialize_ir, deserialize-serialize_ir, default_policy_ir,
}
use signalchord.Velato.Compile.{
  compile_notes, compile_events, compile_event, interval_of, decode_operand, ensure_halt,
}
use signalchord.Velato.Analysis.Laws.{IsTerminated}
use signalchord.Velato.Compile.Sound.{IsReady, IsCompileError, compile_notes-IsSound}
use signalchord.Velato.Midi.{
  Mido, MidiFile, close_tracks, encode_midi, build_midi, encode_instructions, encode_instruction,
  encode_velocity, index_of, parse_midi, default_max_bytes, default_max_notes,
}
use signalchord.Velato.Midi.RoundTrip.{compile-encode_midi}
use signalchord.Velato.Execute.{
  PolicyResult, TraceEntry, execute, execute_loop, execute_step, normalize_inputs,
}
use signalchord.Velato.Step.{step}
use signalchord.Velato.Execute.Sound.{IsSound, IsPolicyError, execute-IsSound}

abbrev within : ℤ → Bool
within z = leb (pos_part z) 1000000 && leb (neg_part z) 1000000

small_within : (z : ℤ) → pos_part z ≤ 1024 → neg_part z ≤ 1 → within z ≡ true
small_within z p q = ground arith

abbrev exact_int : ℤ → Option ℤ
exact_int z = if within z then some z else none

pub exact_small :
    (z : ℤ)
    → pos_part z ≤ 1024
    → neg_part z ≤ 1
    → (y : ℤ) × (exact_int z ≡ some y) × (within y ≡ true) × (◌≡◌ {A = Option ℤ} (some y) (some z))
exact_small z p q = (z, rw (small_within z p q), small_within z p q, refl)

pub exact_as_int :
    (z w x : ℤ)
    → exact_int z ≡ some x
    → ◌≡◌ {A = Option ℤ} (some x) (some w)
    → pos_part w ≤ 1024
    → neg_part w ≤ 1
    → w ≡ z
exact_as_int z w x e f p q = ground arith

pub exact_rounds :
    (x : ℤ)
    → within x ≡ true
    → (z : ℤ) × (y : ℤ) × (◌≡◌ {A = Option ℤ} (some x) (some z))
      × (exact_int z ≡ some y)
      × (within y ≡ true)
exact_rounds x h = (x, x, refl, rw h, h)

abbrev pub exact : Floats
exact = record {
  F = ℤ;
  zero_float = pos 0;
  of_int = exact_int;
  is_finite = within;
  fl_eq = ◌=ℤ◌;
  fl_lt = ltb_ℤ;
  fl_le = leb_ℤ;
  fl_add = ◌+ℤ◌;
  fl_sub = ◌-ℤ◌;
  fl_mul = ◌*ℤ◌;
  fl_div = λ a b. a;
  fl_mod = λ a b. pos 0;
  fl_pow = λ a b. none;
  fl_neg = λ a. pos 0 -ℤ a;
  fl_abs = λ a. if ltb_ℤ a (pos 0) then pos 0 -ℤ a else a;
  fl_sqrt = λ a. a;
  fl_floor = λ a. some a;
  fl_ceil = λ a. some a;
  fl_round = λ a. some a;
  as_int = λ a. some a;
  zero_finite = refl;
  of_int_small = exact_small;
  as_int_small = exact_as_int;
  floor_finite = exact_rounds;
  ceil_finite = exact_rounds;
  round_finite = exact_rounds;
}

abbrev digest : List (TraceEntry ℤ) → String
digest trace = "digest"

-- score = 40 * watchlist_match + 2, stored with a severity of 3
abbrev program : List (Instruction ℤ)
program =
    instruction Op.load_input (Arg.str_arg "watchlist_match")
    ∷ instruction Op.push_const (Arg.int_arg (pos 40))
    ∷ instruction Op.mul Arg.absent
    ∷ instruction Op.push_const (Arg.int_arg (pos 2))
    ∷ instruction Op.add Arg.absent
    ∷ instruction Op.store_score Arg.absent
    ∷ instruction Op.push_const (Arg.int_arg (pos 3))
    ∷ instruction Op.store_severity Arg.absent
    ∷ instruction Op.halt Arg.absent
    ∷ []

abbrev given : Dict ℤ
given = map (λ name. (name, pos 1)) inputs

analysis_of : List (Instruction ℤ) → ProgramAnalysis
unfolding analyze_ir
analysis_of ir = elim (analyze_ir exact ir 512 64) [
  | ok a ↦ a
  | err e ↦ record {
    instruction_count = 0;
    max_stack_depth = 0;
    final_stack_depth = 0;
    required_inputs = [];
    local_registers = [];
    outputs_written = [];
    warnings = [];
  }
]

program_accepted : analyze_ir exact program 512 64 ≡ ok (analysis_of program)
unfolding analysis_of analyze_ir analyze_loop analyze_step analyze_live validate_instruction sorted
program_accepted = refl

execute-IsSound_example :
    Post
      (IsSound exact (analysis_of program))
      (IsPolicyError exact given)
      (execute exact digest program given 512 64)
execute-IsSound_example =
    execute-IsSound exact digest program given 512 64 (analysis_of program) (omega arith)
      program_accepted

abbrev note : ℕ → ℕ → ℕ → MidiNote
note n v c = record { note = n; velocity = v; channel = c }

-- PUSH_CONST 9, STORE_SCORE, HALT, and a note that is not reached, over the root 60
abbrev melody : List MidiNote
melody = note 61 10 0 ∷ note 56 64 0 ∷ note 72 64 0 ∷ note 61 1 7 ∷ []

compile_notes-IsSound_example :
    Post
      (IsReady exact)
      (λ e. (is_value_error e ≡ true) × IsCompileError e)
      (compile_notes exact (note 60 64 0 ∷ melody))
compile_notes-IsSound_example = compile_notes-IsSound exact (note 60 64 0) melody (omega arith)

compile_melody :
    compile_notes exact (note 60 64 0 ∷ melody)
    ≡ ok (
        instruction Op.push_const (Arg.int_arg (pos 9))
        ∷ instruction Op.store_score Arg.absent
        ∷ instruction Op.halt Arg.absent
        ∷ [])
unfolding compile_notes compile_events compile_event interval_of decode_operand is_halt ensure_halt
    analyze_ir analyze_loop analyze_step analyze_live validate_instruction sorted
compile_melody = refl

runs : Prelude.Result Error PolicyResult
unfolding execute execute_loop execute_step step normalize_inputs analyze_ir analyze_loop
    analyze_step analyze_live validate_instruction sorted ◌+ℤ◌ ◌-ℤ◌ ◌*ℤ◌
runs = execute exact digest program given 512 64

runs_to :
    runs
    ≡ ok (record {
      alert_score = pos 42;
      severity_code = pos 3;
      routing_code = pos 0;
      suppressed = false;
      instructions_executed = 9;
      max_stack_depth = 2;
      trace_hash = "digest";
    })
unfolding runs
runs_to = refl

-- bytes are the file as it is read back, and a file counts its messages
abbrev save_if : Bool → MidiFile → Result MidiFile
save_if fits f =
    if fits then ok (record f { tracks = close_tracks f.tracks }) else err Error.io_error

load-save_if :
    (fits : Bool) (f content : MidiFile)
    → save_if fits f ≡ ok content
    → (◌≡◌ {A = Result MidiFile} (ok content) (ok (record f { tracks = close_tracks f.tracks })))
load-save_if true f content h = sym h
load-save_if false f content h = cc

abbrev memory : Mido
memory = record {
  Bytes = MidiFile;
  byte_count = λ f. length f.tracks;
  save = λ f. save_if (leb f.ticks_per_beat 32767) f;
  load = λ f. ok f;
  load-save = λ f content open_ saved. load-save_if (leb f.ticks_per_beat 32767) f content saved;
}

program-IsTerminated : IsTerminated exact program
unfolding is_halt
program-IsTerminated = (refl, (refl, (refl, (refl, (refl, (refl, (refl, (refl, refl))))))))

content : MidiFile
unfolding encode_midi build_midi encode_instructions encode_instruction encode_velocity op_encoding
    index_of analyze_ir
content = elim (encode_midi exact memory program (pos 60) (pos 480) (pos 120)) [
  | ok f ↦ f
  | err e ↦ record { ticks_per_beat = 0; tracks = [] }
]

content_small : length content.tracks ≤ 128000
unfolding content encode_midi analyze_ir analyze_loop analyze_step analyze_live validate_instruction
    sorted
content_small = omega arith

content_lem : encode_midi exact memory program (pos 60) (pos 480) (pos 120) ≡ ok content
unfolding content encode_midi analyze_ir analyze_loop analyze_step analyze_live validate_instruction
    sorted
content_lem = refl

compile-encode_midi_example :
    (parse_midi memory content default_max_bytes default_max_notes >>= compile_notes exact)
    ≡ ok program
compile-encode_midi_example =
    compile-encode_midi exact memory program (pos 60) (pos 480) (pos 120) content
      program-IsTerminated (omega arith) content_lem content_small

deserialize-serialize_ir_example : deserialize_ir exact (serialize_ir program) ≡ ok program
deserialize-serialize_ir_example =
    deserialize-serialize_ir exact program (analysis_of program) program_accepted

default_policy_accepted :
    (a : ProgramAnalysis) × (analyze_ir exact (default_policy_ir exact) 512 64 ≡ ok a)
unfolding default_policy_ir analyze_ir analyze_loop analyze_step analyze_live validate_instruction
    sorted
default_policy_accepted = (_, refl)
