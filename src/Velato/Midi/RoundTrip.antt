-- ===== src/Velato/Midi/RoundTrip.antt =====
-- encode_midi, then parse_midi and compile_notes (services/velato-engine/engine.py).
use signalchord.Prelude.{
  ℕ, subst, ◌&&◌, ◌≤◌, ◌≡◌, refl, ◌∙◌, ap, not, ◌||◌, List, [], ◌∷◌, ◌++◌, ok, ◌>>=◌, raise_if,
  length, bind-ok_inv, ok_injective, arith, All, All-append, false,
}
use signalchord.Prelude.Int.{ℤ, pos, pos_part, leb_ℤ}
use signalchord.Velato.Errors.{Error}
use signalchord.Velato.Ir.{Instruction, MidiNote}
use signalchord.Velato.Floats.{Floats}
use signalchord.Velato.Midi.{
  Message, is_end, encode_velocity, encode_instruction, encode_instructions, collect_track,
  collect_message,
}
use signalchord.Velato.Midi.Velocity.{ltb-of_le, IsExact}
use signalchord.Velato.Midi.{
  parse_midi, build_midi, encode_midi, Mido, MidiFile, collect_tracks, default_max_bytes,
  default_max_notes,
}
use signalchord.Velato.Ops.{op_encoding}
use signalchord.Velato.Compile.{or_raise, compile_events, compile_notes, ensure_halt}
use signalchord.Velato.Analysis.{analyze_ir, start, ProgramAnalysis}
use signalchord.Velato.Analysis.Laws.{IsTerminated, analyze_loop-valid, analyze_ir-Checked}
use signalchord.Velato.Ops.{default_max_instructions, default_max_stack}
use signalchord.Velato.Midi.Plays.{Plays, collect-pair, encode_instructions-Plays}

collect_end :
    (max_notes : ℕ) (notes : List MidiNote)
    → length notes ≤ max_notes
    → collect_track max_notes (Message.end_of_track ∷ []) notes ≡ ok notes
unfolding collect_track collect_message
collect_end max_notes notes h = rw (ltb-of_le max_notes (length notes) h)

-- the file of a program, around the messages of its instructions
abbrev program_file : ℕ → ℕ → ℕ → List Message → MidiFile
program_file root ticks tpb messages = record {
  ticks_per_beat = tpb;
  tracks = (Message.note_on root 64 0 0 ∷ Message.note_off root 0 0 ticks ∷ messages) ∷ [];
}

module _ (fl : Floats) where
  open fl use {F}

  ensure_halt-terminated : (ir : List (Instruction F)) → IsTerminated fl ir → ensure_halt fl ir ≡ ir
  unfolding ensure_halt
  ensure_halt-terminated [] t = absurd t
  ensure_halt-terminated (i ∷ []) t = rw t
  ensure_halt-terminated (i ∷ j ∷ is) t = ap (λ r. i ∷ r) (ensure_halt-terminated (j ∷ is) t.1)

  compile_notes-lem :
      (root : MidiNote) (events : List MidiNote) (ir : List (Instruction F)) (a : ProgramAnalysis)
      → compile_events fl root.note events ≡ ok ir
      → IsTerminated fl ir
      → analyze_ir fl ir default_max_instructions default_max_stack ≡ ok a
      → compile_notes fl (root ∷ events) ≡ ok ir
  unfolding compile_notes
  compile_notes-lem root events ir a e t accepted = rw (e, ensure_halt-terminated ir t, accepted)

  encode_instruction-open :
      (root ticks : ℕ) (i : Instruction F) (messages : List Message)
      → encode_instruction fl root ticks i ≡ ok messages
      → All (λ m. is_end m ≡ false) messages
  unfolding encode_instruction
  encode_instruction-open root ticks i messages h =
      let (_, _, h₁) = bind-ok_inv (or_raise Error.key_error (op_encoding i.op)) _ messages h in
      let (_, _, h₂) = bind-ok_inv (encode_velocity fl i) _ messages h₁ in
      subst (All (λ m. is_end m ≡ false)) (ok_injective _ messages h₂) (refl, (refl, tt))

  -- no message of a program is the end of the track
  encode_instructions-open :
      (root ticks : ℕ) (ir : List (Instruction F)) (messages : List Message)
      → encode_instructions fl root ticks ir ≡ ok messages
      → All (λ m. is_end m ≡ false) messages
  unfolding encode_instructions
  encode_instructions-open root ticks [] messages h =
      subst (All (λ m. is_end m ≡ false)) (ok_injective _ messages h) tt
  encode_instructions-open root ticks (i ∷ ir) messages h =
      let (own, e, h₁) = bind-ok_inv (encode_instruction fl root ticks i) _ messages h in
      let (others, f, h₂) = bind-ok_inv (encode_instructions fl root ticks ir) _ messages h₁ in
      subst (All (λ m. is_end m ≡ false)) (ok_injective _ messages h₂) (
        All-append (λ m. is_end m ≡ false) own others (encode_instruction-open root ticks i own e)
          (encode_instructions-open root ticks ir others f))

  -- the notes of a saved program: the root, then those that compile to it
  parse_midi-lem :
      (mido : Mido) (root ticks tpb : ℕ) (ir : List (Instruction F)) (messages : List Message)
      (p : Plays fl root ticks ir messages)
      → length ir ≤ 512
      → 1 ≤ length ir
      → (content : mido.Bytes) → All (λ m. is_end m ≡ false) messages
      → mido.save (program_file root ticks tpb messages) ≡ ok content
      → mido.byte_count content ≤ default_max_bytes
      → parse_midi mido content default_max_bytes default_max_notes
        ≡ ok (record { note = root; velocity = 64; channel = 0 } ∷ p.events)
  unfolding parse_midi collect_tracks
  parse_midi-lem mido root ticks tpb ir messages p short some_ir content open_ saved bytes =
      let opening : MidiNote = record { note = root; velocity = 64; channel = 0 } in
      let collected : collect_track default_max_notes
            (Message.note_on root 64 0 0
              ∷ Message.note_off root 0 0 ticks
              ∷ (messages ++ Message.end_of_track ∷ []))
            []
          ≡ collect_track default_max_notes (Message.end_of_track ∷ []) (opening ∷ p.events) =
        collect-pair fl default_max_notes ticks opening (messages ++ Message.end_of_track ∷ []) []
          (omega arith) (omega arith)
        ∙ p.collects default_max_notes (Message.end_of_track ∷ []) (opening ∷ []) (omega arith) in
      rw (
        ltb-of_le default_max_bytes _ bytes,
        mido.load-save (program_file root ticks tpb messages) content ((refl, (refl, open_)), tt)
            saved,
        collected,
        collect_end default_max_notes (opening ∷ p.events) (omega (arith, p.count)),
        ltb-of_le (length (opening ∷ p.events)) 2 (omega (arith, p.count)),
      )

  -- the parts of a file that build_midi returns
  record Built (ir : List (Instruction F)) (midi : MidiFile) : Type 0 where
    analysis : ProgramAnalysis
    accepted : analyze_ir fl ir default_max_instructions default_max_stack ≡ ok analysis
    root : ℕ
    ticks : ℕ
    tpb : ℕ
    messages : List Message
    encoded : encode_instructions fl root ticks ir ≡ ok messages
    file : program_file root ticks tpb messages ≡ midi

  build_midi-Built :
      (ir : List (Instruction F)) (root_note ticks_per_beat note_ticks : ℤ) (midi : MidiFile)
      → build_midi fl ir root_note ticks_per_beat note_ticks ≡ ok midi
      → Built ir midi
  unfolding build_midi
  build_midi-Built ir root_note ticks_per_beat note_ticks midi h =
      let (a, accepted, h₁) =
        bind-ok_inv (analyze_ir fl ir default_max_instructions default_max_stack) _ midi h in
      let (_, _, h₂) =
        bind-ok_inv
          (raise_if (not (leb_ℤ (pos 0) root_note && leb_ℤ root_note (pos 116))) Error.bad_root) _
          midi h₁ in
      let (_, _, h₃) =
        bind-ok_inv
          (raise_if (leb_ℤ ticks_per_beat (pos 0) || leb_ℤ note_ticks (pos 0)) Error.bad_timing) _
          midi h₂ in
      let (messages, encoded, h₄) =
        bind-ok_inv (encode_instructions fl (pos_part root_note) (pos_part note_ticks) ir) _ midi
          h₃ in
      record {
        analysis = a;
        accepted = accepted;
        root = pos_part root_note;
        ticks = pos_part note_ticks;
        tpb = pos_part ticks_per_beat;
        messages = messages;
        encoded = encoded;
        file = ok_injective _ midi h₄;
      }

  terminated_some : (ir : List (Instruction F)) → IsTerminated fl ir → 1 ≤ length ir
  terminated_some [] t = absurd t
  terminated_some (i ∷ is) t = omega arith

  -- A program that ends with its only HALT and whose constants are ints comes back unchanged: if
  -- encode_midi returns the bytes of a file of it, with any root note and timing, then parse_midi
  -- and compile_notes read them back as the same program, provided that they are within the byte
  -- limit.
  pub compile-encode_midi :
      (mido : Mido) (ir : List (Instruction F)) (root_note ticks_per_beat note_ticks : ℤ)
      (content : mido.Bytes)
      → IsTerminated fl ir
      → All (λ i. IsExact i.arg) ir
      → encode_midi fl mido ir root_note ticks_per_beat note_ticks ≡ ok content
      → mido.byte_count content ≤ default_max_bytes
      → (parse_midi mido content default_max_bytes default_max_notes >>= compile_notes fl) ≡ ok ir
  unfolding encode_midi
  compile-encode_midi mido ir root_note ticks_per_beat note_ticks content t x h bytes =
      let (midi, built, h₁) =
        bind-ok_inv (build_midi fl ir root_note ticks_per_beat note_ticks) _ content h in
      let b = build_midi-Built ir root_note ticks_per_beat note_ticks midi built in
      let saved : mido.save (program_file b.root b.ticks b.tpb b.messages) ≡ ok content =
        ap mido.save b.file ∙ h₁ in
      let c =
        analyze_ir-Checked fl ir default_max_instructions default_max_stack b.analysis b.accepted in
      let valid = analyze_loop-valid fl default_max_stack 0 ir start c.scan t refl c.scanned in
      let p = encode_instructions-Plays fl b.root b.ticks ir b.messages t valid x b.encoded in
      let parsed =
        parse_midi-lem mido b.root b.ticks b.tpb ir b.messages p c.short_enough
          (terminated_some ir t) content
          (encode_instructions-open b.root b.ticks ir b.messages b.encoded) saved bytes in
      rw parsed (compile_notes-lem _ p.events ir b.analysis p.compiles t b.accepted)
