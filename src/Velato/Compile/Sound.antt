-- ===== src/Velato/Compile/Sound.antt =====
-- The contract of compile_notes (services/velato-engine/engine.py): programs and errors.
use mathlib.Core.Bool.{or-true}
use signalchord.Prelude.{
  eq_refl, subst, Result-cases, leb, ℕ, zero, suc, ◌≤◌, ◌<◌, ◌≡◌, refl, true, false, ◌||◌, some,
  none, List, [], ◌∷◌, ok, ◌>>=◌, Post, Post-bind, Post-weaken, All, length, get_elem?,
  get_elem?-total, contains, Bool-cases, inl, inr, arith, String,
}
use signalchord.Prelude.Int.{ℤ, pos, negsuc, sub_ℕ, ltb_ℤ, leb_ℤ}
use signalchord.Velato.Errors.{Error, is_value_error}
use signalchord.Velato.Ops.{
  Op, Operand, is_halt, inputs, instruction_banks, default_max_instructions, default_max_stack,
}
use signalchord.Velato.Ir.{Arg, Instruction, instruction, MidiNote}
use signalchord.Velato.Floats.{Floats}
use signalchord.Velato.Analysis.{validate_instruction, analyze_ir, ProgramAnalysis}
use signalchord.Velato.Analysis.Laws.{IsTerminated, IsShapeError, analyze_ir-errors}
use signalchord.Velato.Compile.{
  interval_of, decode_operand, compile_event, compile_events, ensure_halt, compile_notes,
  decode_kind,
}

-- The errors of compile_notes: all are ValueErrors.
abbrev pub IsCompileError : Error → Type 0
IsCompileError (Error.unsupported_bank bank) = 4 ≤ bank
IsCompileError Error.bad_input_operand = Unit
IsCompileError Error.bad_local_operand = Unit
IsCompileError Error.instruction_limit = Unit
IsCompileError Error.stack_limit = Unit
IsCompileError (Error.static_underflow index op) = Unit
IsCompileError _ = ⊥

-- what a lookup in banks of twelve operations finds
data Found (banks : List (List Op)) (bank interval : ℕ) : Type 0 where
  no_bank : get_elem? banks bank ≡ none → length banks ≤ bank → Found banks bank interval
  found :
      (ops : List Op) (op : Op)
      → get_elem? banks bank ≡ some ops
      → get_elem? ops interval ≡ some op
      → Found banks bank interval

find_in :
    (banks : List (List Op)) (bank interval : ℕ)
    → interval < 12
    → All (λ ops. length ops ≡ 12) banks
    → Found banks bank interval
find_in [] bank interval h twelve = no_bank refl (omega arith)
find_in (ops ∷ banks) zero interval h twelve =
    let (op, e) = get_elem?-total ops interval (omega (arith, twelve.0)) in found ops op refl e
find_in (ops ∷ banks) (suc bank) interval h twelve = later (find_in banks bank interval h twelve.1)
  where
    later : Found banks bank interval → Found (ops ∷ banks) (suc bank) interval
    later (no_bank e le) = no_bank e (omega arith)
    later (found ops op e f) = found ops op e f

get-contains :
    (xs : List String) (k : ℕ)
    → k < length xs
    → (name : String) × (get_elem? xs k ≡ some name) × (contains xs name ≡ true)
get-contains [] k h = elim h [ ]
get-contains (x ∷ xs) zero h = (x, refl, rw eq_refl)
get-contains (x ∷ xs) (suc k) h =
    let (name, e, c) = get-contains xs k (omega arith) in (name, e, rw (c, or-true))

outside : (n k : ℕ) → (ltb_ℤ (pos k) (pos 0) || leb_ℤ (pos n) (pos k)) ≡ leb n k
outside n k = ground arith

interval-lt : (root note : ℕ) → interval_of root note < 12
unfolding interval_of
interval-lt root note = omega arith

module _ (fl : Floats) where
  open fl use {F, of_int_small}

  -- an operand that decode_operand gives is valid
  abbrev Decodes : Op → Arg F → Type 0
  Decodes op arg = validate_instruction fl (instruction op arg) ≡ ok tt

  valid_input :
      (name : String) → contains inputs name ≡ true → Decodes Op.load_input (Arg.str_arg name)
  unfolding validate_instruction
  valid_input name h = rw h

  input-Decodes :
      (z : ℤ) → Post (Decodes Op.load_input) IsCompileError (decode_kind fl Operand.input_operand z)
  unfolding decode_kind
  input-Decodes (negsuc n) = ground arith
  input-Decodes (pos k) = elim (Bool-cases (leb (length inputs) k)) [
    | inl out ↦ rw (outside (length inputs) k, out) tt
    | inr inside ↦
        let (name, e, c) = get-contains inputs k (ground arith) in
        rw (outside (length inputs) k, inside, e) (valid_input name c)
  ]

  decode_operand-Decodes :
      (op : Op) (velocity : ℕ)
      → velocity ≤ 127
      → Post (Decodes op) IsCompileError (decode_operand fl op velocity)
  unfolding decode_operand validate_instruction
  decode_operand-Decodes Op.push_const velocity h =
      let (x, e, f, _) = of_int_small (sub_ℕ velocity 1) (ground arith) (ground arith) in rw (e, f)
  decode_operand-Decodes Op.load_input velocity h = input-Decodes (sub_ℕ velocity 1)
  decode_operand-Decodes Op.load_local velocity h = ground arith
  decode_operand-Decodes Op.store_local velocity h = ground arith
  decode_operand-Decodes Op.halt velocity h = refl
  decode_operand-Decodes _ velocity h = refl

  -- an instruction with a valid and exact operand
  abbrev pub IsCompiled : Instruction F → Type 0
  IsCompiled i = (validate_instruction fl i ≡ ok tt)

  compile_event-IsCompiled :
      (root : ℕ) (event : MidiNote)
      → event.velocity ≤ 127
      → Post IsCompiled IsCompileError (compile_event fl root event)
  unfolding compile_event
  compile_event-IsCompiled root event h = by_place (
      find_in instruction_banks event.channel (interval_of root event.note)
        (interval-lt root event.note) (omega arith))
    where
      by_place :
          Found instruction_banks event.channel (interval_of root event.note)
          → Post IsCompiled IsCompileError (compile_event fl root event)
      by_place (no_bank e le) = rw e le
      by_place (found ops op e f) =
          rw (e, f)
            (Post-bind (Decodes op) IsCompiled IsCompileError (decode_operand fl op event.velocity)
              (λ arg. ok (instruction op arg)) (decode_operand-Decodes op event.velocity h)
              λ arg d. d)

  abbrev IsLive : Instruction F → Type 0
  IsLive i = is_halt i.op ≡ false

  -- what the loop has built: it stopped at a HALT, or it met none
  data Stream : List (Instruction F) → Type 0 where
    stopped : {ir : List (Instruction F)} → IsTerminated fl ir → Stream ir
    ran_out : {ir : List (Instruction F)} → All IsLive ir → Stream ir

  Stream-cons :
      (i : Instruction F) (ir : List (Instruction F)) → IsLive i → Stream ir → Stream (i ∷ ir)
  Stream-cons i [] live (stopped t) = absurd t
  Stream-cons i (j ∷ is) live (stopped t) = stopped (live, t)
  Stream-cons i ir live (ran_out h) = ran_out (live, h)

  abbrev IsStream : List (Instruction F) → Type 0
  IsStream ir = Stream ir × All IsCompiled ir

  compile_events-IsStream :
      (root : ℕ) (events : List MidiNote)
      → All (λ e. e.velocity ≤ 127) events
      → Post IsStream IsCompileError (compile_events fl root events)
  unfolding compile_events
  compile_events-IsStream root [] h = (ran_out tt, tt)
  compile_events-IsStream root (event ∷ events) h =
      Post-bind IsCompiled IsStream IsCompileError (compile_event fl root event) _
        (compile_event-IsCompiled root event h.0)
        λ i c. elim (Bool-cases (is_halt i.op)) [
          | inl stops ↦ rw stops (stopped stops, (c, tt))
          | inr runs ↦ rw runs (
              Post-bind IsStream IsStream IsCompileError (compile_events fl root events) _
                (compile_events-IsStream root events h.1)
                λ is r. (Stream-cons i is runs r.0, (c, r.1)))
        ]

  halt-IsCompiled : IsCompiled (instruction Op.halt Arg.absent)
  unfolding validate_instruction
  halt-IsCompiled = refl

  lead :
      (i : Instruction F) (ir : List (Instruction F))
      → IsLive i
      → IsTerminated fl (ensure_halt fl ir)
      → IsTerminated fl (i ∷ ensure_halt fl ir)
  lead i ir live t = below (ensure_halt fl ir) t
    where
      below : (is : List (Instruction F)) → IsTerminated fl is → IsTerminated fl (i ∷ is)
      below [] t = absurd t
      below (j ∷ is) t = (live, t)

  ensure_halt-IsTerminated :
      (ir : List (Instruction F))
      → IsStream ir
      → IsTerminated fl (ensure_halt fl ir) × All IsCompiled (ensure_halt fl ir)
  unfolding ensure_halt
  ensure_halt-IsTerminated [] r = (refl, (halt-IsCompiled, tt))
  ensure_halt-IsTerminated (i ∷ []) (stopped t, c) = rw t (t, c)
  ensure_halt-IsTerminated (i ∷ []) (ran_out h, c) =
      rw h.0 ((h.0, refl), (c.0, (halt-IsCompiled, tt)))
  ensure_halt-IsTerminated (i ∷ j ∷ is) (stopped t, c) =
      let (t', c') = ensure_halt-IsTerminated (j ∷ is) (stopped t.1, c.1) in
      (lead i (j ∷ is) t.0 t', (c.0, c'))
  ensure_halt-IsTerminated (i ∷ j ∷ is) (ran_out h, c) =
      let (t', c') = ensure_halt-IsTerminated (j ∷ is) (ran_out h.1, c.1) in
      (lead i (j ∷ is) h.0 t', (c.0, c'))

  shape-IsCompileError : (e : Error) → IsShapeError e → IsCompileError e
  shape-IsCompileError Error.instruction_limit h = tt
  shape-IsCompileError Error.stack_limit h = tt
  shape-IsCompileError (Error.static_underflow index op) h = tt
  shape-IsCompileError _ h = absurd h

  IsCompileError-value : (e : Error) → IsCompileError e → is_value_error e ≡ true
  unfolding is_value_error
  IsCompileError-value Error.overflow_error h = absurd h
  IsCompileError-value Error.assertion_error h = absurd h
  IsCompileError-value Error.key_error h = absurd h
  IsCompileError-value Error.index_error h = absurd h
  IsCompileError-value Error.io_error h = absurd h
  IsCompileError-value _ h = refl

  terminated_some : (ir : List (Instruction F)) → IsTerminated fl ir → 1 ≤ length ir
  terminated_some [] t = absurd t
  terminated_some (i ∷ is) t = omega arith

  abbrev pub IsReady : List (Instruction F) → Type 0
  IsReady ir =
      IsTerminated fl ir
      × ((a : ProgramAnalysis) × (analyze_ir fl ir default_max_instructions default_max_stack
            ≡ ok a))

  checked-IsReady :
      (ir : List (Instruction F))
      → IsTerminated fl ir
      → All IsCompiled ir
      → Post IsReady
          (λ e. (is_value_error e ≡ true) × IsCompileError e)
          (analyze_ir fl ir default_max_instructions default_max_stack >>= λ a. ok ir)
  checked-IsReady ir t c =
      elim (Result-cases (analyze_ir fl ir default_max_instructions default_max_stack)) [
        | inl (a, accepted) ↦ rw accepted (t, (a, accepted))
        | inr (e, refused) ↦
            let shape = subst (Post (λ a. Unit {0}) IsShapeError) refused (
              analyze_ir-errors fl ir default_max_instructions default_max_stack
                (terminated_some ir t) c) in
            let bad = shape-IsCompileError e shape in rw refused (IsCompileError-value e bad, bad)
      ]

  -- Compiling notes, a root and any events of at most the velocity that MIDI holds, gives a program
  -- that analyze_ir accepts under the default limits and in which HALT stands at the end and
  -- nowhere else; or it raises a ValueError, for a bank of 4 or more, a register operand out of
  -- range, or a program that is too long, too deep or too shallow. It looks up no missing key or
  -- index, and overflows no float.
  pub compile_notes-IsSound :
      (root : MidiNote) (events : List MidiNote)
      → All (λ e. e.velocity ≤ 127) events
      → Post IsReady
          (λ e. (is_value_error e ≡ true) × IsCompileError e)
          (compile_notes fl (root ∷ events))
  unfolding compile_notes
  compile_notes-IsSound root events h =
      Post-bind IsStream IsReady (λ e. (is_value_error e ≡ true) × IsCompileError e)
        (compile_events fl root.note events) _
        (Post-weaken IsStream IsStream IsCompileError
          (λ e. (is_value_error e ≡ true) × IsCompileError e) (compile_events fl root.note events)
          (compile_events-IsStream root.note events h) (λ ir r. r)
          (λ e c. (IsCompileError-value e c, c)))
        λ ir r.
          let (t, c) = ensure_halt-IsTerminated ir r in checked-IsReady (ensure_halt fl ir) t c
