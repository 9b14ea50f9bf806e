-- ===== src/Velato/Midi/Plays.antt =====
-- The messages of encode_midi (services/velato-engine/engine.py) and the notes that they hold.
use signalchord.Prelude.{
  ℕ, lt→ltb, length-append, ◌+◌, ◌≤◌, ◌≡◌, refl, sym, ◌∙◌, ap, true, false, List, [], ◌∷◌, ◌++◌, ok,
  length, bind-ok_inv, ok_injective, ltb, arith, All,
}
use signalchord.Velato.Ops.{Op, is_halt, instruction_banks}
use signalchord.Velato.Ir.{Arg, Instruction, instruction, MidiNote}
use signalchord.Velato.Floats.{Floats}
use signalchord.Velato.Analysis.{validate_instruction}
use signalchord.Velato.Compile.{decode_operand, compile_event}
use signalchord.Velato.Midi.{
  Message, encode_velocity, encode_instruction, encode_instructions, collect_track, collect_message,
}
use signalchord.Velato.Midi.Velocity.{
  ltb-of_le, Holds, op_encoding-Holds, interval-root, IsExact, velocity-Carries,
}
use signalchord.Velato.Compile.{compile_events}
use signalchord.Velato.Analysis.Laws.{IsTerminated}
use mathlib.Core.List.{append_assoc, append-nil}

module _ (fl : Floats) where
  open fl use {F}

  compile_event-lem :
      (root bank interval velocity : ℕ) (op : Op) (arg : Arg F)
      → Holds instruction_banks bank interval op
      → decode_operand fl op velocity ≡ ok arg
      → compile_event fl root
          (record { note = root + interval; velocity = velocity; channel = bank })
        ≡ ok (instruction op arg)
  unfolding compile_event
  compile_event-lem root bank interval velocity op arg holds e =
      rw (interval-root root interval holds.interval_le, holds.bank_at, holds.op_in, e)

  -- What the messages of one instruction are: a sounding note that compiles to the instruction.
  pub record Sounds (root ticks : ℕ) (i : Instruction F) (messages : List Message) : Type 0 where
    pub note : MidiNote
    pub audible : 1 ≤ note.velocity
    pub compiles : compile_event fl root note ≡ ok i
    pub written :
        messages
        ≡ Message.note_on note.note note.velocity note.channel 0
          ∷ Message.note_off note.note 0 note.channel ticks
          ∷ []

  encode_instruction-Sounds :
      (root ticks : ℕ) (i : Instruction F) (messages : List Message)
      → validate_instruction fl i ≡ ok tt
      → IsExact i.arg
      → encode_instruction fl root ticks i ≡ ok messages
      → Sounds root ticks i messages
  unfolding encode_instruction
  encode_instruction-Sounds root ticks i messages v x h =
      let (bank, interval, place, holds) = op_encoding-Holds i.op in
      let (velocity, ev, done) = bind-ok_inv (encode_velocity fl i) _ messages (rw place at h) in
      let (low, high, back) = velocity-Carries fl i.op i.arg velocity v x ev in
      record {
        note = record { note = root + interval; velocity = velocity; channel = bank };
        audible = low;
        compiles = compile_event-lem root bank interval velocity i.op i.arg holds back;
        written = sym (ok_injective _ messages done);
      }

  -- The collector takes one note from the two messages.
  pub collect-pair :
      (max_notes ticks : ℕ) (note : MidiNote) (rest : List Message) (notes : List MidiNote)
      → 1 ≤ note.velocity
      → length notes + 1 ≤ max_notes
      → collect_track max_notes
          (Message.note_on note.note note.velocity note.channel 0
            ∷ Message.note_off note.note 0 note.channel ticks
            ∷ rest)
          notes
        ≡ collect_track max_notes rest (notes ++ note ∷ [])
  unfolding collect_track collect_message
  collect-pair max_notes ticks note rest notes audible room =
      let full : ltb max_notes (length (notes ++ note ∷ [])) ≡ false =
        ltb-of_le max_notes _ (omega (arith, length-append {0} notes (note ∷ []))) in
      rw (lt→ltb 0 note.velocity audible, full, full)

  -- What the messages of a program are: notes that compile to it.
  pub record Plays (root ticks : ℕ) (ir : List (Instruction F)) (messages : List Message)
      : Type 0 where
    pub events : List MidiNote
    pub count : length events ≡ length ir
    pub compiles : compile_events fl root events ≡ ok ir
    pub collects :
        (max_notes : ℕ) (rest : List Message) (notes : List MidiNote)
        → length notes + length ir ≤ max_notes
        → collect_track max_notes (messages ++ rest) notes
          ≡ collect_track max_notes rest (notes ++ events)

  compile_events-last :
      (root : ℕ) (note : MidiNote) (events : List MidiNote) (i : Instruction F)
      → compile_event fl root note ≡ ok i
      → is_halt i.op ≡ true
      → compile_events fl root (note ∷ events) ≡ ok (i ∷ [])
  unfolding compile_events
  compile_events-last root note events i e h = rw (e, h)

  compile_events-more :
      (root : ℕ) (note : MidiNote) (events : List MidiNote) (i : Instruction F)
      (ir : List (Instruction F))
      → compile_event fl root note ≡ ok i
      → is_halt i.op ≡ false
      → compile_events fl root events ≡ ok ir
      → compile_events fl root (note ∷ events) ≡ ok (i ∷ ir)
  unfolding compile_events
  compile_events-more root note events i ir e h more = rw (e, h, more)

  pub encode_instructions-Plays :
      (root ticks : ℕ) (ir : List (Instruction F)) (messages : List Message)
      → IsTerminated fl ir
      → All (λ i. validate_instruction fl i ≡ ok tt) ir
      → All (λ i. IsExact i.arg) ir
      → encode_instructions fl root ticks ir ≡ ok messages
      → Plays root ticks ir messages
  unfolding encode_instructions
  encode_instructions-Plays root ticks [] messages t v x h = absurd t
  encode_instructions-Plays root ticks (i ∷ []) messages t v x h =
      let (own, eo, h₁) = bind-ok_inv (encode_instruction fl root ticks i) _ messages h in
      let s = encode_instruction-Sounds root ticks i own v.0 x.0 eo in
      let e : own ++ [] ≡ messages = ok_injective _ messages h₁ in
      record {
        events = s.note ∷ [];
        count = refl;
        compiles = compile_events-last root s.note [] i s.compiles t;
        collects = λ max_notes rest notes room.
            rw (← e, append-nil, s.written)
              (collect-pair max_notes ticks s.note rest notes s.audible (omega arith));
      }
  encode_instructions-Plays root ticks (i ∷ j ∷ is) messages t v x h =
      let (own, eo, h₁) = bind-ok_inv (encode_instruction fl root ticks i) _ messages h in
      let (others, ers, h₂) =
        bind-ok_inv (encode_instructions fl root ticks (j ∷ is)) _ messages h₁ in
      let s = encode_instruction-Sounds root ticks i own v.0 x.0 eo in
      let p = encode_instructions-Plays root ticks (j ∷ is) others t.1 v.1 x.1 ers in
      let e : own ++ others ≡ messages = ok_injective _ messages h₂ in
      record {
        events = s.note ∷ p.events;
        count = omega (arith, p.count);
        compiles = compile_events-more root s.note p.events i (j ∷ is) s.compiles t.0 p.compiles;
        collects = λ max_notes rest notes room.
            rw (← e, append_assoc, s.written)
              (collect-pair max_notes ticks s.note (others ++ rest) notes s.audible (omega arith)
                ∙ p.collects max_notes rest (notes ++ s.note ∷ [])
                    (omega (arith, length-append {0} notes (s.note ∷ [])))
                ∙ ap (collect_track max_notes rest) (append_assoc notes (s.note ∷ []) p.events));
      }
