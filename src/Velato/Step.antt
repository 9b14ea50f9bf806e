-- ===== src/Velato/Step.antt =====
-- services/velato-engine/engine.py: one instruction of execute. The Python stack is a list, the
-- last pushed value first.
pub mod Fits
pub mod Ranges
use signalchord.Prelude.{
  Bool, not, ◌&&◌, ◌||◌, Option, none, some, List, [], ◌∷◌, ok, err, ◌>>=◌, ◌>>◌, raise_if,
  get_elem?, set, length, Dict, lookup, if◌then◌else◌,
}
use signalchord.Prelude.Int.{ℤ, pos, negsuc, pos_part, min_ℤ, max_ℤ}
use signalchord.Velato.Errors.{Error, Result}
use signalchord.Velato.Ops.{Op}
use signalchord.Velato.Ir.{Arg}
use signalchord.Velato.Floats.{Floats}
use signalchord.Velato.Compile.{or_raise}

-- The registers that a program writes: `locals_`, `score`, `severity`, `route`, `suppressed`.
pub record Registers (F : Type 0) : Type 0 where
  pub locals : List F
  pub score : ℤ
  pub severity : ℤ
  pub route : ℤ
  pub suppressed : Bool

-- `max(0, min(limit, z))`
unfoldable pub clamp : ℤ → ℤ → ℤ
clamp limit z = max_ℤ (pos 0) (min_ℤ limit z)

module _ (fl : Floats) where
  open fl use {
    F, zero_float, of_int, is_finite, fl_eq, fl_lt, fl_le, fl_add, fl_sub, fl_mul, fl_div, fl_mod,
    fl_pow, fl_neg, fl_abs, fl_sqrt, fl_floor, fl_ceil, fl_round,
  }

  -- the nested functions `pop`, `push` and `pop_binary`
  abbrev pub pop : List F → Result (F × List F)
  pop [] = err Error.stack_underflow
  pop (x ∷ s) = ok (x, s)

  unfoldable pub push : F → List F → Result (List F)
  push x s = if is_finite x then ok (x ∷ s) else err Error.infinite_value

  abbrev pub pop_binary : List F → Result (F × F × List F)
  pop_binary s = do (b, s₁) ← pop s; (a, s₂) ← pop s₁; ok (a, b, s₂)

  abbrev pop_three : List F → Result (F × F × F × List F)
  pop_three s = do (c, s₁) ← pop s; (b, s₂) ← pop s₁; (a, s₃) ← pop s₂; ok (c, b, a, s₃)

  -- `float(z)` in `push`
  unfoldable pub push_int : ℤ → List F → Result (List F)
  unfolding push
  push_int z s = elim (of_int z) [ none ↦ err Error.overflow_error | some x ↦ push x s ]

  -- `float(True)` is 1.0
  unfoldable pub push_bool : Bool → List F → Result (List F)
  unfolding push_int
  push_bool b = push_int (if b then pos 1 else pos 0)

  -- `bool(x)`
  abbrev pub truthy : F → Bool
  truthy x = not (fl_eq x zero_float)

  -- Python's `min(a, b)` and `max(a, b)`: the first unless the second is smaller, or larger
  abbrev pub fl_min : F → F → F
  fl_min a b = if fl_lt b a then b else a

  abbrev pub fl_max : F → F → F
  fl_max a b = if fl_lt a b then b else a

  abbrev pub sign_of : F → ℤ
  sign_of x = if fl_lt x zero_float then negsuc 0 else (if fl_lt zero_float x then pos 1 else pos 0)

  abbrev power : F → F → List F → Result (List F)
  power a b s = elim (fl_pow a b) [
    | none ↦ err Error.bad_power
    -- the non-finite value is a ValueError inside the `try`
    | some x ↦ if is_finite x then ok (x ∷ s) else err Error.bad_power
  ]

  -- `round(x)` and its like, on what `push` let in
  abbrev pub to_int : Option ℤ → Result ℤ
  to_int = or_raise Error.overflow_error

  -- The operations that compute on the stack alone; `none` for the others. Eager as the source is,
  -- the table `values` raises nothing, so each operation takes its entry.
  pub stack_op : Op → List F → Option (Result (List F))
  stack_op Op.add s = some do (a, b, t) ← pop_binary s; push (fl_add a b) t
  stack_op Op.sub s = some do (a, b, t) ← pop_binary s; push (fl_sub a b) t
  stack_op Op.mul s = some do (a, b, t) ← pop_binary s; push (fl_mul a b) t
  stack_op Op.min s = some do (a, b, t) ← pop_binary s; push (fl_min a b) t
  stack_op Op.max s = some do (a, b, t) ← pop_binary s; push (fl_max a b) t
  stack_op Op.gt s = some do (a, b, t) ← pop_binary s; push_bool (fl_lt b a) t
  stack_op Op.eq s = some do (a, b, t) ← pop_binary s; push_bool (fl_eq a b) t
  stack_op Op.ne s = some do (a, b, t) ← pop_binary s; push_bool (not (fl_eq a b)) t
  stack_op Op.lt s = some do (a, b, t) ← pop_binary s; push_bool (fl_lt a b) t
  stack_op Op.lte s = some do (a, b, t) ← pop_binary s; push_bool (fl_le a b) t
  stack_op Op.gte s = some do (a, b, t) ← pop_binary s; push_bool (fl_le b a) t
  stack_op Op.and s = some do (a, b, t) ← pop_binary s; push_bool (truthy a && truthy b) t
  stack_op Op.or s = some do (a, b, t) ← pop_binary s; push_bool (truthy a || truthy b) t
  stack_op Op.xor s =
      some do (a, b, t) ← pop_binary s; push_bool (if truthy a then not (truthy b) else truthy b) t
  stack_op Op.div s = some do
    (a, b, t) ← pop_binary s
    raise_if (fl_eq b zero_float) Error.division_by_zero
    push (fl_div a b) t
  stack_op Op.modulo s = some do
    (a, b, t) ← pop_binary s
    raise_if (fl_eq b zero_float) Error.modulo_by_zero
    push (fl_mod a b) t
  stack_op Op.pow s = some do (a, b, t) ← pop_binary s; power a b t
  stack_op Op.neg s = some do (x, t) ← pop s; push (fl_neg x) t
  stack_op Op.abs s = some do (x, t) ← pop s; push (fl_abs x) t
  stack_op Op.floor s = some do (x, t) ← pop s; z ← to_int (fl_floor x); push_int z t
  stack_op Op.ceil s = some do (x, t) ← pop s; z ← to_int (fl_ceil x); push_int z t
  stack_op Op.round s = some do (x, t) ← pop s; z ← to_int (fl_round x); push_int z t
  stack_op Op.sqrt s =
      some do (x, t) ← pop s; raise_if (fl_lt x zero_float) Error.negative_sqrt; push (fl_sqrt x) t
  stack_op Op.not s = some do (x, t) ← pop s; push_bool (not (truthy x)) t
  stack_op Op.is_zero s = some do (x, t) ← pop s; push_bool (fl_eq x zero_float) t
  stack_op Op.sign s = some do (x, t) ← pop s; push_int (sign_of x) t
  stack_op Op.clamp s = some do
    (upper, lower, x, t) ← pop_three s
    raise_if (fl_lt upper lower) Error.clamp_bounds
    push (fl_max lower (fl_min upper x)) t
  stack_op Op.between s = some do
    (upper, lower, x, t) ← pop_three s
    raise_if (fl_lt upper lower) Error.between_bounds
    push_bool (fl_le lower x && fl_le x upper) t
  stack_op Op.select s = some do
    (false_value, true_value, condition, t) ← pop_three s
    push (if truthy condition then true_value else false_value) t
  stack_op Op.dup s = some do (x, t) ← pop s; t₁ ← push x t; push x t₁
  stack_op Op.swap s = some do (a, b, t) ← pop_binary s; t₁ ← push b t; push a t₁
  stack_op Op.over s = some do (a, b, t) ← pop_binary s; t₁ ← push a t; t₂ ← push b t₁; push a t₂
  stack_op Op.drop s = some do (x, t) ← pop s; ok t
  stack_op Op.nop s = some (ok s)
  stack_op Op.stack_depth s = some (push_int (pos (length s)) s)
  stack_op _ s = none

  push_constant : Arg F → List F → Result (List F)
  push_constant (Arg.int_arg z) s = push_int z s
  push_constant (Arg.float_arg x) s = push x s
  push_constant _ s = err Error.assertion_error

  push_input : Dict F → Arg F → List F → Result (List F)
  push_input env (Arg.str_arg name) s = do x ← or_raise Error.key_error (lookup name env); push x s
  push_input env _ s = err Error.assertion_error

  push_local : List F → Arg F → List F → Result (List F)
  push_local locals (Arg.int_arg z) s = do
    x ← or_raise Error.index_error (get_elem? locals (pos_part z))
    push x s
  push_local locals _ s = err Error.assertion_error

  -- the assertion comes before the pop
  store_local : List F → Arg F → List F → Result (List F × List F)
  store_local locals (Arg.int_arg z) s = do (x, t) ← pop s; ok (set locals (pos_part z) x, t)
  store_local locals _ s = err Error.assertion_error

  abbrev pop_int : List F → Result (ℤ × List F)
  pop_int s = do (x, t) ← pop s; z ← to_int (fl_round x); ok (z, t)

  -- The operations that read an operand or a register. HALT is not run: the loop stops at it.
  pub register_op : Op → Arg F → Dict F → List F → Registers F → Result (List F × Registers F)
  register_op Op.push_const arg env s r = do t ← push_constant arg s; ok (t, r)
  register_op Op.load_input arg env s r = do t ← push_input env arg s; ok (t, r)
  register_op Op.load_local arg env s r = do t ← push_local r.locals arg s; ok (t, r)
  register_op Op.store_local arg env s r = do
    (locals, t) ← store_local r.locals arg s
    ok (t, record r { locals = locals })
  register_op Op.load_score arg env s r = do t ← push_int r.score s; ok (t, r)
  register_op Op.load_severity arg env s r = do t ← push_int r.severity s; ok (t, r)
  register_op Op.load_route arg env s r = do t ← push_int r.route s; ok (t, r)
  register_op Op.load_suppress arg env s r = do t ← push_bool r.suppressed s; ok (t, r)
  register_op Op.store_score arg env s r = do
    (z, t) ← pop_int s
    ok (t, record r { score = clamp (pos 100) z })
  register_op Op.store_severity arg env s r = do
    (z, t) ← pop_int s
    ok (t, record r { severity = clamp (pos 9) z })
  register_op Op.store_route arg env s r = do
    (z, t) ← pop_int s
    ok (t, record r { route = clamp (pos 255) z })
  register_op Op.store_suppress arg env s r = do
    (x, t) ← pop s
    ok (t, record r { suppressed = truthy x })
  register_op op arg env s r = err (Error.unsupported_operation op)

  -- the `if`/`elif` chain of execute
  unfoldable pub step : Op → Arg F → Dict F → List F → Registers F → Result (List F × Registers F)
  unfolding stack_op register_op clamp push_constant push_input push_local store_local push push_int
      push_bool
  step op arg env s r = elim (stack_op op s) [
    | none ↦ register_op op arg env s r
    | some result ↦ result >>= λ t. ok (t, r)
  ]
