-- ===== src/Velato/Analysis/Laws.antt =====
-- The rounds of analyze_ir (services/velato-engine/engine.py), for the proofs about the programs
-- that pass it.
use signalchord.Prelude.{
  ℕ, Post, Post-bind, Result, Bool, ◌>>◌, Bool-cases, inl, inr, refl, suc, length, All, ◌++◌, ◌+◌,
  ◌-◌, ◌≤◌, ◌≡◌, sym, ◌∙◌, ap, max, true, false, List, [], ◌∷◌, ok, raise_if, raise_if-ok,
  bind-ok_inv, ok_injective, ltb, arith,
}
use signalchord.Velato.Errors.{Error}
use signalchord.Velato.Ops.{Op, stack_effect, is_halt, operand}
use signalchord.Velato.Ir.{Arg, Instruction, instruction}
use signalchord.Velato.Floats.{Floats}
use signalchord.Velato.Analysis.{
  Scan, validate_instruction, note_operand, analyze_live, analyze_step, Warning, analyze_loop,
  analyze_ir, ProgramAnalysis, start, final_warnings,
}

Post-guard :
    {A : Type 0} (P : A → Type 0) (X : Error → Type 0) (b : Bool) (e : Error) (r : Result Error A)
    → X e
    → Post P X r
    → Post P X (raise_if b e >> r)
Post-guard P X true e r x h = x
Post-guard P X false e r x h = h

ltb-false : (a b : ℕ) → ltb a b ≡ false → b ≤ a
ltb-false a b h = ground arith

-- The errors that depend on more than one instruction.
abbrev pub IsShapeError : Error → Type 0
IsShapeError Error.instruction_limit = Unit
IsShapeError Error.stack_limit = Unit
IsShapeError (Error.static_underflow index op) = Unit
IsShapeError _ = ⊥

module _ (fl : Floats) where
  open fl use {F}

  -- An instruction that a live round lets through: its operand is valid, the stack is deep enough
  -- for it, and the round has computed the depth after it.
  pub record Passes (max_stack : ℕ) (i : Instruction F) (sc sc' : Scan) : Type 0 where
    pub valid : validate_instruction fl i ≡ ok tt
    pub deep_enough : (stack_effect i.op).0 ≤ sc.depth
    pub depth_after : sc'.depth ≡ sc.depth - (stack_effect i.op).0 + (stack_effect i.op).1
    pub deepest_after : sc'.max_depth ≡ max sc.max_depth sc'.depth
    pub within_limit : sc'.max_depth ≤ max_stack
    pub counted : sc'.executed_count ≡ sc.executed_count + 1
    pub halts : sc'.halted ≡ is_halt i.op

  pub analyze_live-Passes :
      (max_stack index : ℕ) (i : Instruction F) (sc sc' : Scan)
      → analyze_live fl max_stack index i sc ≡ ok sc'
      → Passes max_stack i sc sc'
  unfolding analyze_live
  analyze_live-Passes max_stack index i sc sc' h =
      let (_, valid, h₁) = bind-ok_inv (validate_instruction fl i) _ sc' h in
      let (_, deep, h₂) =
        bind-ok_inv
          (raise_if (ltb sc.depth (stack_effect i.op).0) (Error.static_underflow index i.op)) _ sc'
          h₁ in
      let (_, fits, h₃) =
        bind-ok_inv
          (raise_if
            (ltb max_stack
              (max sc.max_depth (sc.depth - (stack_effect i.op).0 + (stack_effect i.op).1)))
            Error.stack_limit)
          _ sc' h₂ in
      let (noted, _, h₄) = bind-ok_inv (note_operand fl (operand i.op) i.arg sc) _ sc' h₃ in
      let e = ok_injective _ sc' h₄ in
      record {
        valid = valid;
        deep_enough = ltb-false _ _ (raise_if-ok _ _ deep);
        depth_after = sym (ap (λ (s : Scan). s.depth) e);
        deepest_after =
            sym (ap (λ (s : Scan). s.max_depth) e)
            ∙ ap (max sc.max_depth) (ap (λ (s : Scan). s.depth) e);
        within_limit =
            rw (sym (ap (λ (s : Scan). s.max_depth) e)) (ltb-false _ _ (raise_if-ok _ _ fits));
        counted = sym (ap (λ (s : Scan). s.executed_count) e);
        halts = sym (ap (λ (s : Scan). s.halted) e);
      }

  -- After HALT the rounds change nothing but the warnings.
  pub record SameButWarnings (sc sc' : Scan) : Type 0 where
    pub depth : sc'.depth ≡ sc.depth
    pub max_depth : sc'.max_depth ≡ sc.max_depth
    pub executed_count : sc'.executed_count ≡ sc.executed_count

  analyze_step-halted :
      (max_stack index : ℕ) (i : Instruction F) (sc : Scan)
      → sc.halted ≡ true
      → analyze_step fl max_stack index i sc
        ≡ ok (record sc { warnings = sc.warnings ++ Warning.unreachable index ∷ [] })
  unfolding analyze_step
  analyze_step-halted max_stack index i sc dead = simp dead

  pub analyze_step-live :
      (max_stack index : ℕ) (i : Instruction F) (sc : Scan)
      → sc.halted ≡ false
      → analyze_step fl max_stack index i sc ≡ analyze_live fl max_stack index i sc
  unfolding analyze_step
  analyze_step-live max_stack index i sc live = simp live

  pub halted-SameButWarnings :
      (max_stack index : ℕ) (ir : List (Instruction F)) (sc sc' : Scan)
      → sc.halted ≡ true
      → analyze_loop fl max_stack index ir sc ≡ ok sc'
      → SameButWarnings sc sc'
  unfolding analyze_loop
  halted-SameButWarnings max_stack index [] sc sc' dead h = ground arith
  halted-SameButWarnings max_stack index (i ∷ ir) sc sc' dead h =
      let sc₁ = record sc { warnings = sc.warnings ++ Warning.unreachable index ∷ [] } in
      let r =
        halted-SameButWarnings max_stack (suc index) ir sc₁ sc' dead
          (rw (analyze_step-halted max_stack index i sc dead) at h) in
      record { depth = r.depth; max_depth = r.max_depth; executed_count = r.executed_count }

  -- What a program that passes the check has passed, and how the report reads.
  pub record Checked (max_instructions max_stack : ℕ) (ir : List (Instruction F))
      (a : ProgramAnalysis) : Type 0 where
    pub scan : Scan
    pub scanned : analyze_loop fl max_stack 0 ir start ≡ ok scan
    pub short_enough : length ir ≤ max_instructions
    pub instruction_count : a.instruction_count ≡ scan.executed_count
    pub max_stack_depth : a.max_stack_depth ≡ scan.max_depth
    pub final_stack_depth : a.final_stack_depth ≡ scan.depth
    pub warned : a.warnings ≡ final_warnings fl scan

  pub analyze_ir-Checked :
      (ir : List (Instruction F)) (max_instructions max_stack : ℕ) (a : ProgramAnalysis)
      → analyze_ir fl ir max_instructions max_stack ≡ ok a
      → Checked max_instructions max_stack ir a
  unfolding analyze_ir
  analyze_ir-Checked [] max_instructions max_stack a h = cc
  analyze_ir-Checked (i ∷ ir) max_instructions max_stack a h =
      let (_, short, h₁) =
        bind-ok_inv (raise_if (ltb max_instructions (length (i ∷ ir))) Error.instruction_limit) _ a
          h in
      let (sc, scanned, h₂) = bind-ok_inv (analyze_loop fl max_stack 0 (i ∷ ir) start) _ a h₁ in
      let e = ok_injective _ a h₂ in
      record {
        scan = sc;
        scanned = scanned;
        short_enough = ltb-false _ _ (raise_if-ok _ _ short);
        instruction_count = sym (ap (λ (x : ProgramAnalysis). x.instruction_count) e);
        max_stack_depth = sym (ap (λ (x : ProgramAnalysis). x.max_stack_depth) e);
        final_stack_depth = sym (ap (λ (x : ProgramAnalysis). x.final_stack_depth) e);
        warned = sym (ap (λ (x : ProgramAnalysis). x.warnings) e);
      }

  -- HALT stands at the end and nowhere else.
  abbrev pub IsTerminated : List (Instruction F) → Type 0
  IsTerminated [] = ⊥
  IsTerminated (i ∷ []) = is_halt i.op ≡ true
  IsTerminated (i ∷ j ∷ is) = (is_halt i.op ≡ false) × IsTerminated (j ∷ is)

  pub analyze_loop-valid :
      (max_stack index : ℕ) (ir : List (Instruction F)) (sc sc' : Scan)
      → IsTerminated ir
      → sc.halted ≡ false
      → analyze_loop fl max_stack index ir sc ≡ ok sc'
      → All (λ i. validate_instruction fl i ≡ ok tt) ir
  unfolding analyze_loop
  analyze_loop-valid max_stack index [] sc sc' t live h = tt
  analyze_loop-valid max_stack index (i ∷ []) sc sc' t live h =
      let (sc₁, passed, rest) = bind-ok_inv (analyze_step fl max_stack index i sc) ok sc' h in
      (
        (analyze_live-Passes max_stack index i sc sc₁
            (sym (analyze_step-live max_stack index i sc live) ∙ passed)).valid,
        tt,
      )
  analyze_loop-valid max_stack index (i ∷ j ∷ is) sc sc' t live h =
      let (sc₁, passed, rest) =
        bind-ok_inv (analyze_step fl max_stack index i sc)
          (analyze_loop fl max_stack (suc index) (j ∷ is)) sc' h in
      let p =
        analyze_live-Passes max_stack index i sc sc₁
          (sym (analyze_step-live max_stack index i sc live) ∙ passed) in
      (p.valid, analyze_loop-valid max_stack (suc index) (j ∷ is) sc₁ sc' t.1 (p.halts ∙ t.0) rest)

  -- On valid instructions the assertions of analyze_ir hold.
  note_operand-total :
      (op : Op) (arg : Arg F) (sc : Scan)
      → validate_instruction fl (instruction op arg) ≡ ok tt
      → (sc' : Scan) × (note_operand fl (operand op) arg sc ≡ ok sc')
  unfolding note_operand validate_instruction
  note_operand-total Op.load_input (Arg.str_arg s) sc v = (_, refl)
  note_operand-total Op.load_input _ sc v = cc
  note_operand-total Op.load_local (Arg.int_arg z) sc v = (_, refl)
  note_operand-total Op.load_local _ sc v = cc
  note_operand-total Op.store_local (Arg.int_arg z) sc v = (_, refl)
  note_operand-total Op.store_local _ sc v = cc
  note_operand-total Op.push_const Arg.absent sc v = (sc, refl)
  note_operand-total Op.push_const _ sc v = (sc, refl)
  note_operand-total _ arg sc v = (sc, refl)

  analyze_live-errors :
      (max_stack index : ℕ) (i : Instruction F) (sc : Scan)
      → validate_instruction fl i ≡ ok tt
      → Post (λ sc'. Unit {0}) IsShapeError (analyze_live fl max_stack index i sc)
  unfolding analyze_live
  analyze_live-errors max_stack index i sc v =
      let (noted, e) = note_operand-total i.op i.arg sc v in
      rw v (
        Post-guard (λ a. Unit {0}) IsShapeError (ltb sc.depth (stack_effect i.op).0) _ _ tt
          (Post-guard (λ a. Unit {0}) IsShapeError
            (ltb max_stack
              (max sc.max_depth (sc.depth - (stack_effect i.op).0 + (stack_effect i.op).1)))
            _ _ tt (rw e tt)))

  pub analyze_loop-errors :
      (max_stack index : ℕ) (ir : List (Instruction F)) (sc : Scan)
      → All (λ i. validate_instruction fl i ≡ ok tt) ir
      → Post (λ sc'. Unit {0}) IsShapeError (analyze_loop fl max_stack index ir sc)
  unfolding analyze_loop analyze_step
  analyze_loop-errors max_stack index [] sc v = tt
  analyze_loop-errors max_stack index (i ∷ ir) sc v =
      Post-bind (λ sc'. Unit {0}) (λ sc'. Unit {0}) IsShapeError
        (analyze_step fl max_stack index i sc) (analyze_loop fl max_stack (suc index) ir)
        (elim (Bool-cases sc.halted) [
          | inl dead ↦ simp dead tt
          | inr live ↦ simp live (analyze_live-errors max_stack index i sc v.0)
        ])
        λ sc' _. analyze_loop-errors max_stack (suc index) ir sc' v.1

  -- A program whose instructions are valid one by one can only be too long, too deep or too
  -- shallow.
  pub analyze_ir-errors :
      (ir : List (Instruction F)) (max_instructions max_stack : ℕ)
      → 1 ≤ length ir
      → All (λ i. validate_instruction fl i ≡ ok tt) ir
      → Post (λ a. Unit {0}) IsShapeError (analyze_ir fl ir max_instructions max_stack)
  unfolding analyze_ir
  analyze_ir-errors [] max_instructions max_stack some_ir v = absurd (omega arith)
  analyze_ir-errors (i ∷ ir) max_instructions max_stack some_ir v =
      Post-guard (λ a. Unit {0}) IsShapeError (ltb max_instructions (length (i ∷ ir))) _ _ tt
        (Post-bind (λ sc'. Unit {0}) (λ a. Unit {0}) IsShapeError
          (analyze_loop fl max_stack 0 (i ∷ ir) start) _
          (analyze_loop-errors max_stack 0 (i ∷ ir) start v) λ sc _. tt)
