-- ===== src/Velato/Step/Ranges.antt =====
-- What one instruction of execute does to the stack and the registers, once it has passed the
-- static check.
use signalchord.Prelude.{
  ℕ, zero, subst, raise_if_not-ok, suc, ◌+◌, ◌-◌, ◌≤◌, ◌≡◌, refl, true, false, Option, none, some,
  List, [], ◌∷◌, ok, err, ◌>>=◌, Post, All, All-set, length, length-set, get_elem?, arith, Dict,
  lookup, contains, String, Result, not, raise_if, ◌<◌,
}
use native.Mathlib.Nat.{add-zero}
use signalchord.Prelude.Int.{ℤ, pos, negsuc, pos_part, ◌≤ℤ◌}
use signalchord.Velato.Errors.{Error}
use signalchord.Velato.Ops.{Op, stack_effect, inputs, max_locals, is_halt}
use signalchord.Velato.Floats.{Floats}
use signalchord.Velato.Ir.{Arg, instruction}
use signalchord.Velato.Analysis.{validate_instruction, is_local}
use signalchord.Velato.Step.{
  Registers, clamp, push, push_int, push_bool, stack_op, register_op, step, push_constant,
  push_input, push_local, store_local, pop_int,
}
use signalchord.Velato.Step.Fits.{
  IsDataError, IsFinite, Fits, Leaves, Within, push-Fits, push_int-Fits, push_bool-Fits,
  stack_op-Fits,
}

-- From 0 to a limit.
abbrev pub IsBetween : ℕ → ℤ → Type 0
IsBetween limit z = (pos 0 ≤ℤ z) × (z ≤ℤ pos limit)

clamp-IsBetween : (limit : ℕ) (z : ℤ) → IsBetween limit (clamp (pos limit) z)
unfolding clamp
clamp-IsBetween limit z = ground arith

step-none :
    (fl : Floats) (op : Op) (arg : Arg fl.F) (env : Dict fl.F) (s : List fl.F) (r : Registers fl.F)
    → stack_op fl op s ≡ none
    → step fl op arg env s r ≡ register_op fl op arg env s r
unfolding step
step-none fl op arg env s r e = rw (e, step)

step-some :
    (fl : Floats) (op : Op) (arg : Arg fl.F) (env : Dict fl.F) (s : List fl.F) (r : Registers fl.F)
    (x : Result Error (List fl.F))
    → stack_op fl op s ≡ some x
    → step fl op arg env s r ≡ (x >>= λ t. ok (t, r))
unfolding step
step-some fl op arg env s r x e = rw (e, step)

module _ (fl : Floats) where
  open fl use {F, of_int, is_finite, of_int_small, fl_round, round_finite}

  -- Sixteen finite locals, and each output within the bounds that PolicyResult declares.
  pub record InRange (r : Registers F) : Type 0 where
    pub locals_count : length r.locals ≡ max_locals
    pub locals_finite : All (IsFinite fl) r.locals
    pub score_bound : IsBetween 100 r.score
    pub severity_bound : IsBetween 9 r.severity
    pub route_bound : IsBetween 255 r.route

  -- Every input has a finite value.
  abbrev pub IsFull : Dict F → Type 0
  IsFull env =
      (name : String)
      → contains inputs name ≡ true
      → (x : F) × (lookup name env ≡ some x) × (IsFinite fl x)

  abbrev pub Stepped : ℕ → List F × Registers F → Type 0
  Stepped n (t, r) = Fits fl n t × InRange r

  abbrev pub Steps : ℕ → Result Error (List F × Registers F) → Type 0
  Steps n = Post (Stepped n) IsDataError

  keep-Steps :
      (n : ℕ) (x : Result Error (List F)) (r : Registers F)
      → Leaves fl n x
      → InRange r
      → Steps n (x >>= λ t. ok (t, r))
  keep-Steps n (ok t) r h i = (h, i)
  keep-Steps n (err e) r h i = h

  get_elem?-IsFinite :
      (xs : List F) (i : ℕ)
      → All (IsFinite fl) xs
      → i < length xs
      → (x : F) × (get_elem? xs i ≡ some x) × (IsFinite fl x)
  get_elem?-IsFinite [] i h l = elim l [ ]
  get_elem?-IsFinite (x ∷ xs) zero h l = (x, refl, h.0)
  get_elem?-IsFinite (x ∷ xs) (suc i) h l = get_elem?-IsFinite xs i h.1 (omega arith)

  add_one_lem : (n : ℕ) → n - 0 + 1 ≡ suc n
  add_one_lem n = omega arith

  push_between :
      (z : ℤ) (s : List F) (limit : ℕ)
      → IsBetween limit z
      → limit ≤ 1024
      → All (IsFinite fl) s
      → Leaves fl (length s - 0 + 1) (push_int fl z s)
  push_between (pos n) s limit b l h =
      push_int-Fits fl (pos n) s _ (omega arith) (omega arith) (omega arith) h
  push_between (negsuc n) s limit b l h = absurd (omega arith)

  push_constant-Leaves :
      (arg : Arg F) (s : List F)
      → validate_instruction fl (instruction Op.push_const arg) ≡ ok tt
      → All (IsFinite fl) s
      → Leaves fl (suc (length s)) (push_constant fl arg s)
  unfolding push_constant validate_instruction push_int push
  push_constant-Leaves (Arg.int_arg z) s v h = ground arith
  push_constant-Leaves (Arg.float_arg x) s v h = ground arith
  push_constant-Leaves Arg.absent s v h = cc
  push_constant-Leaves (Arg.str_arg x) s v h = cc
  push_constant-Leaves Arg.other s v h = cc

  push_input-Leaves :
      (env : Dict F) (arg : Arg F) (s : List F)
      → validate_instruction fl (instruction Op.load_input arg) ≡ ok tt
      → IsFull env
      → All (IsFinite fl) s
      → Leaves fl (suc (length s)) (push_input fl env arg s)
  unfolding push_input validate_instruction
  push_input-Leaves env (Arg.str_arg name) s v full h =
      let (x, e, fx) = full name (raise_if_not-ok (contains inputs name) _ v) in
      rw e (push-Fits fl x s _ refl h)
  push_input-Leaves env (Arg.int_arg z) s v full h = cc
  push_input-Leaves env (Arg.float_arg x) s v full h = cc
  push_input-Leaves env Arg.absent s v full h = cc
  push_input-Leaves env Arg.other s v full h = cc

  local_bound :
      (op : Op) (z : ℤ)
      → raise_if (not (is_local z)) (Error.bad_local_register op) ≡ ok tt
      → pos_part z < max_locals
  local_bound op (pos n) h = ground arith
  local_bound op (negsuc n) h = ground arith

  push_local-Leaves :
      (locals : List F) (arg : Arg F) (s : List F)
      → validate_instruction fl (instruction Op.load_local arg) ≡ ok tt
      → length locals ≡ max_locals
      → All (IsFinite fl) locals
      → All (IsFinite fl) s
      → Leaves fl (suc (length s)) (push_local fl locals arg s)
  unfolding push_local validate_instruction
  push_local-Leaves locals (Arg.int_arg z) s v count finite h =
      let (x, e, fx) =
        get_elem?-IsFinite locals (pos_part z) finite
          (omega (arith, local_bound Op.load_local z v)) in
      rw e (push-Fits fl x s _ refl h)
  push_local-Leaves locals (Arg.str_arg name) s v count finite h = cc
  push_local-Leaves locals (Arg.float_arg x) s v count finite h = cc
  push_local-Leaves locals Arg.absent s v count finite h = cc
  push_local-Leaves locals Arg.other s v count finite h = cc

  -- the assertion of STORE_LOCAL holds, and the write keeps the locals finite
  store_local-Steps :
      (arg : Arg F) (s : List F) (r : Registers F)
      → validate_instruction fl (instruction Op.store_local arg) ≡ ok tt
      → 1 ≤ length s
      → All (IsFinite fl) s
      → InRange r
      → Steps
          (length s - 1)
          (store_local fl r.locals arg s >>= λ (locals, t). ok (t, record r { locals = locals }))
  unfolding store_local validate_instruction
  store_local-Steps (Arg.int_arg z) [] r v le h i = absurd (omega arith)
  store_local-Steps (Arg.int_arg z) (x ∷ t) r v le h i = (
    (omega arith, h.1),
    record {
      locals_count = rw length-set i.locals_count;
      locals_finite = All-set (IsFinite fl) r.locals (pos_part z) x i.locals_finite h.0;
      score_bound = i.score_bound;
      severity_bound = i.severity_bound;
      route_bound = i.route_bound;
    },
  )
  store_local-Steps (Arg.str_arg name) s r v le h i = cc
  store_local-Steps (Arg.float_arg x) s r v le h i = cc
  store_local-Steps Arg.absent s r v le h i = cc
  store_local-Steps Arg.other s r v le h i = cc

  -- the value popped by an output operation is finite, so it rounds
  pop_int-Steps :
      (s : List F) (r : Registers F) (k : ℤ → Registers F)
      → 1 ≤ length s
      → All (IsFinite fl) s
      → ((z : ℤ) → InRange (k z))
      → Steps (length s - 1) (pop_int fl s >>= λ (z, t). ok (t, k z))
  pop_int-Steps [] r k le h i = absurd (omega arith)
  pop_int-Steps (x ∷ t) r k le h i =
      let (z, y, e, _, _) = round_finite x h.0 in rw e ((omega arith, h.1), i z)

  pub register_op-Steps :
      (op : Op) (arg : Arg F) (env : Dict F) (s : List F) (r : Registers F)
      → stack_op fl op s ≡ none
      → is_halt op ≡ false
      → validate_instruction fl (instruction op arg) ≡ ok tt
      → IsFull env
      → (stack_effect op).0 ≤ length s
      → All (IsFinite fl) s
      → InRange r
      → Steps (length s - (stack_effect op).0 + (stack_effect op).1) (register_op fl op arg env s r)
  unfolding register_op stack_op stack_effect is_halt
  register_op-Steps Op.push_const arg env s r c nh v full le h i =
      keep-Steps _ (push_constant fl arg s) r
        (rw (add_one_lem (length s)) (push_constant-Leaves arg s v h)) i
  register_op-Steps Op.load_input arg env s r c nh v full le h i =
      keep-Steps _ (push_input fl env arg s) r
        (rw (add_one_lem (length s)) (push_input-Leaves env arg s v full h)) i
  register_op-Steps Op.load_local arg env s r c nh v full le h i =
      keep-Steps _ (push_local fl r.locals arg s) r
        (rw (add_one_lem (length s))
          (push_local-Leaves r.locals arg s v i.locals_count i.locals_finite h))
        i
  register_op-Steps Op.store_local arg env s r c nh v full le h i =
      rw add-zero (store_local-Steps arg s r v le h i)
  register_op-Steps Op.load_score arg env s r c nh v full le h i =
      keep-Steps _ (push_int fl r.score s) r
        (push_between r.score s 100 i.score_bound (omega arith) h) i
  register_op-Steps Op.load_severity arg env s r c nh v full le h i =
      keep-Steps _ (push_int fl r.severity s) r
        (push_between r.severity s 9 i.severity_bound (omega arith) h) i
  register_op-Steps Op.load_route arg env s r c nh v full le h i =
      keep-Steps _ (push_int fl r.route s) r
        (push_between r.route s 255 i.route_bound (omega arith) h) i
  register_op-Steps Op.load_suppress arg env s r c nh v full le h i =
      keep-Steps _ (push_bool fl r.suppressed s) r
        (push_bool-Fits fl r.suppressed s _ (omega arith) h) i
  register_op-Steps Op.store_score arg env s r c nh v full le h i = rw add-zero (
      pop_int-Steps s r (λ z. record r { score = clamp (pos 100) z }) le h
        (λ z. ground (arith, clamp-IsBetween 100 z, i)))
  register_op-Steps Op.store_severity arg env s r c nh v full le h i = rw add-zero (
      pop_int-Steps s r (λ z. record r { severity = clamp (pos 9) z }) le h
        (λ z. ground (arith, clamp-IsBetween 9 z, i)))
  register_op-Steps Op.store_route arg env s r c nh v full le h i = rw add-zero (
      pop_int-Steps s r (λ z. record r { route = clamp (pos 255) z }) le h
        (λ z. ground (arith, clamp-IsBetween 255 z, i)))
  register_op-Steps Op.store_suppress arg env [] r c nh v full le h i = absurd (omega arith)
  register_op-Steps Op.store_suppress arg env (x ∷ t) r c nh v full le h i = (
    (omega arith, h.1),
    record {
      locals_count = i.locals_count;
      locals_finite = i.locals_finite;
      score_bound = i.score_bound;
      severity_bound = i.severity_bound;
      route_bound = i.route_bound;
    },
  )
  register_op-Steps Op.halt arg env s r c nh v full le h i = cc
  register_op-Steps _ arg env s r c nh v full le h i = cc

  -- An instruction that passed the static check, on a stack with enough finite values, leaves as
  -- many finite values as its stack effect says and keeps the registers in range, or stops with
  -- an error that the data caused.
  pub step-Steps :
      (op : Op) (arg : Arg F) (env : Dict F) (s : List F) (r : Registers F)
      → is_halt op ≡ false
      → validate_instruction fl (instruction op arg) ≡ ok tt
      → IsFull env
      → (stack_effect op).0 ≤ length s
      → length s ≤ 1024
      → All (IsFinite fl) s
      → InRange r
      → Steps (length s - (stack_effect op).0 + (stack_effect op).1) (step fl op arg env s r)
  step-Steps op arg env s r nh v full le m h i = by_case (stack_op fl op s) refl
    where
      by_case :
          (o : Option (Result Error (List F)))
          → stack_op fl op s ≡ o
          → Steps (length s - (stack_effect op).0 + (stack_effect op).1) (step fl op arg env s r)
      by_case none e =
          rw (step-none fl op arg env s r e) (register_op-Steps op arg env s r e nh v full le h i)
      by_case (some x) e =
          rw (step-some fl op arg env s r x e)
            (keep-Steps _ x r (subst (Within fl _) e (stack_op-Fits fl op s le m h)) i)
