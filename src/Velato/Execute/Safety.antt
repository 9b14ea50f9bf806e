-- ===== src/Velato/Execute/Safety.antt =====
-- The loops of analyze_ir and of execute (services/velato-engine/engine.py), side by side.
use signalchord.Prelude.{
  ℕ, suc, ◌+◌, ◌-◌, ◌≤◌, ◌≡◌, refl, sym, ◌∙◌, ap, true, false, List, [], ◌∷◌, ok, ◌>>=◌, Post,
  Post-bind, All, length, length-append, ltb, bind-ok_inv, ok_injective, subst, Bool-cases, inl,
  inr, Dict, arith,
}
use signalchord.Velato.Ops.{Op, stack_effect, is_halt}
use signalchord.Velato.Ir.{Instruction}
use signalchord.Velato.Floats.{Floats}
use signalchord.Velato.Analysis.{Scan, analyze_loop, analyze_step}
use signalchord.Velato.Analysis.Laws.{
  Passes, analyze_live-Passes, SameButWarnings, halted-SameButWarnings, analyze_step-live,
}
use signalchord.Velato.Step.{Registers, step}
use signalchord.Velato.Step.Fits.{IsFinite, IsDataError}
use signalchord.Velato.Step.Ranges.{InRange, IsFull, Stepped, step-Steps}
use signalchord.Velato.Execute.{Machine, settle, record_halt, execute_step, execute_loop}

ltb-of_le : (a b : ℕ) → b ≤ a → ltb a b ≡ false
ltb-of_le a b h = ground arith

halt-effect : (op : Op) → is_halt op ≡ true → stack_effect op ≡ (0, 0)
unfolding is_halt stack_effect
halt-effect Op.halt h = refl
halt-effect _ h = cc

module _ (fl : Floats) where
  open fl use {F}

  -- The interpreter's state agrees with what the static check knows at the same instruction.
  pub record Matches (sc : Scan) (m : Machine F) : Type 0 where
    pub depth : length m.stack ≡ sc.depth
    pub small : sc.depth ≤ 1024
    pub settled : sc.depth ≤ sc.max_depth
    pub finite : All (IsFinite fl) m.stack
    pub in_range : InRange fl m.registers
    pub deepest : m.max_depth ≡ sc.max_depth
    pub counted : length m.trace ≡ sc.executed_count

  -- At the end only what the result reports is compared.
  pub record Ends (sc : Scan) (m : Machine F) : Type 0 where
    pub in_range : InRange fl m.registers
    pub depth : length m.stack ≡ sc.depth
    pub deepest : m.max_depth ≡ sc.max_depth
    pub counted : length m.trace ≡ sc.executed_count

  settle-Matches :
      (max_stack : ℕ) (i : Instruction F) (sc sc' : Scan) (m : Machine F)
      (next : List F × Registers F)
      → max_stack ≤ 1024
      → Passes fl max_stack i sc sc'
      → Matches sc m
      → Stepped fl (length m.stack - (stack_effect i.op).0 + (stack_effect i.op).1) next
      → Post (Matches sc') IsDataError (settle fl max_stack i m next)
  unfolding settle
  settle-Matches max_stack i sc sc' m (s, r) small p agree ((len, fin), range) =
      let d : length s ≡ sc'.depth = omega (arith, p.depth_after, agree.depth) in
      rw (ltb-of_le max_stack (length s) (omega (arith, p.within_limit, p.deepest_after))) (record {
        depth = d;
        small = omega (arith, p.within_limit, p.deepest_after);
        settled = omega (arith, p.deepest_after);
        finite = fin;
        in_range = range;
        deepest = omega (arith, p.deepest_after, agree.deepest);
        counted = omega (arith, length-append {0} m.trace, p.counted, agree.counted);
      })

  execute_step-Matches :
      (max_stack : ℕ) (env : Dict F) (i : Instruction F) (sc sc' : Scan) (m : Machine F)
      → max_stack ≤ 1024
      → is_halt i.op ≡ false
      → IsFull fl env
      → Passes fl max_stack i sc sc'
      → Matches sc m
      → Post (Matches sc') IsDataError (execute_step fl max_stack env i m)
  unfolding execute_step
  execute_step-Matches max_stack env i sc sc' m small live full p agree =
      Post-bind (Stepped fl (length m.stack - (stack_effect i.op).0 + (stack_effect i.op).1))
        (Matches sc') IsDataError (step fl i.op i.arg env m.stack m.registers)
        (settle fl max_stack i m)
        (step-Steps fl i.op i.arg env m.stack m.registers live p.valid full
          (omega (arith, p.deep_enough, agree.depth)) (omega (arith, agree.small, agree.depth))
          agree.finite agree.in_range)
        λ next h. settle-Matches max_stack i sc sc' m next small p agree h

  execute_loop-halt :
      (max_instructions max_stack : ℕ) (env : Dict F) (count : ℕ) (i : Instruction F)
      (ir : List (Instruction F)) (m : Machine F)
      → count ≤ max_instructions
      → is_halt i.op ≡ true
      → execute_loop fl max_instructions max_stack env count (i ∷ ir) m ≡ ok (record_halt fl i m)
  unfolding execute_loop
  execute_loop-halt max_instructions max_stack env count i ir m le h =
      rw (ltb-of_le max_instructions count le, h)

  execute_loop-step :
      (max_instructions max_stack : ℕ) (env : Dict F) (count : ℕ) (i : Instruction F)
      (ir : List (Instruction F)) (m : Machine F)
      → count ≤ max_instructions
      → is_halt i.op ≡ false
      → execute_loop fl max_instructions max_stack env count (i ∷ ir) m ≡ (
          execute_step fl max_stack env i m
          >>= execute_loop fl max_instructions max_stack env (suc count) ir)
  unfolding execute_loop
  execute_loop-step max_instructions max_stack env count i ir m le h =
      rw (ltb-of_le max_instructions count le, h)

  halt-Ends :
      (max_stack : ℕ) (i : Instruction F) (sc sc₁ sc' : Scan) (m : Machine F)
      → is_halt i.op ≡ true
      → Passes fl max_stack i sc sc₁
      → SameButWarnings fl sc₁ sc'
      → Matches sc m
      → Ends sc' (record_halt fl i m)
  unfolding record_halt
  halt-Ends max_stack i sc sc₁ sc' m h p same agree =
      let pops = ap (λ (e : ℕ × ℕ). e.0) (halt-effect i.op h) in
      let pushes = ap (λ (e : ℕ × ℕ). e.1) (halt-effect i.op h) in
      record {
        in_range = agree.in_range;
        depth = omega (arith, agree.depth, p.depth_after, same.depth, pops, pushes);
        deepest = omega (
          arith, agree.deepest, p.deepest_after, p.depth_after, same.max_depth, pops, pushes,
          agree.settled,
        );
        counted =
            omega (arith, length-append {0} m.trace, agree.counted, p.counted, same.executed_count);
      }

  pub execute_loop-Ends :
      (max_instructions max_stack : ℕ) (env : Dict F) (count index : ℕ) (ir : List (Instruction F))
      (sc sc' : Scan) (m : Machine F)
      → max_stack ≤ 1024
      → count + length ir ≤ max_instructions + 1
      → IsFull fl env
      → sc.halted ≡ false
      → analyze_loop fl max_stack index ir sc ≡ ok sc'
      → Matches sc m
      → Post (Ends sc') IsDataError (execute_loop fl max_instructions max_stack env count ir m)
  unfolding analyze_loop
  execute_loop-Ends max_instructions max_stack env count index [] sc sc' m small le full live h
        agree =
      let e = ok_injective sc sc' h in
      unfold execute_loop in
      subst (λ (s : Scan). Ends s m) e
        (record {
          in_range = agree.in_range;
          depth = agree.depth;
          deepest = agree.deepest;
          counted = agree.counted;
        })
  execute_loop-Ends max_instructions max_stack env count index (i ∷ ir) sc sc' m small le full live
        h agree =
      let (sc₁, passed, rest) =
        bind-ok_inv (analyze_step fl max_stack index i sc)
          (analyze_loop fl max_stack (suc index) ir) sc' h in
      let p =
        analyze_live-Passes fl max_stack index i sc sc₁
          (sym (analyze_step-live fl max_stack index i sc live) ∙ passed) in
      elim (Bool-cases (is_halt i.op)) [
        | inl stops ↦
            rw (execute_loop-halt max_instructions max_stack env count i ir m (omega arith) stops) (
              halt-Ends max_stack i sc sc₁ sc' m stops p
                (halted-SameButWarnings fl max_stack (suc index) ir sc₁ sc' (p.halts ∙ stops) rest)
                agree)
        | inr runs ↦
            rw (execute_loop-step max_instructions max_stack env count i ir m (omega arith) runs) (
              Post-bind (Matches sc₁) (Ends sc') IsDataError (execute_step fl max_stack env i m)
                (execute_loop fl max_instructions max_stack env (suc count) ir)
                (execute_step-Matches max_stack env i sc sc₁ m small runs full p agree)
                λ m₁ agree₁.
                  execute_loop-Ends max_instructions max_stack env (suc count) (suc index) ir sc₁
                    sc' m₁ small (omega arith) full (p.halts ∙ runs) rest agree₁)
      ]
