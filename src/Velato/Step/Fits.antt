-- ===== src/Velato/Step/Fits.antt =====
-- What one operation of execute (services/velato-engine/engine.py) does to the shape of the stack.
use signalchord.Prelude.{
  ℕ, suc, ◌+◌, ◌-◌, ◌≤◌, ◌≡◌, Bool, true, false, Option, none, some, List, [], ◌∷◌, ◌>>=◌, Post,
  Post-bind, All, ◌>>◌, raise_if, length, arith, refl, Result,
}
use signalchord.Prelude.Int.{ℤ, pos, pos_part, neg_part}
use signalchord.Velato.Errors.{Error}
use signalchord.Velato.Ops.{Op, stack_effect}
use signalchord.Velato.Floats.{Floats}
use signalchord.Velato.Step.{
  push, push_int, push_bool, pop, pop_binary, pop_three, stack_op, power, sign_of, to_int,
}

-- The errors that valid code can still raise: its values did not suit an operation.
abbrev pub IsDataError : Error → Type 0
IsDataError Error.infinite_value = Unit
IsDataError Error.division_by_zero = Unit
IsDataError Error.modulo_by_zero = Unit
IsDataError Error.bad_power = Unit
IsDataError Error.negative_sqrt = Unit
IsDataError Error.clamp_bounds = Unit
IsDataError Error.between_bounds = Unit
IsDataError _ = ⊥

module _ (fl : Floats) where
  open fl use {
    F, of_int, is_finite, of_int_small, fl_floor, fl_ceil, fl_round, floor_finite, ceil_finite,
    round_finite, fl_eq, fl_lt, fl_le, zero_float,
  }

  abbrev pub IsFinite : F → Type 0
  IsFinite x = is_finite x ≡ true

  abbrev pub Fits : ℕ → List F → Type 0
  Fits n t = (length t ≡ n) × All IsFinite t

  abbrev pub Leaves : ℕ → Result Error (List F) → Type 0
  Leaves n = Post (Fits n) IsDataError

  pub push-Fits :
      (x : F) (s : List F) (n : ℕ) → suc (length s) ≡ n → All IsFinite s → Leaves n (push fl x s)
  unfolding push
  push-Fits x s n e h = ground arith

  -- An int whose float is finite is pushed.
  push_int-Fits_exact :
      (z : ℤ) (s : List F) (n : ℕ) (y : F)
      → of_int z ≡ some y
      → is_finite y ≡ true
      → suc (length s) ≡ n
      → All IsFinite s
      → Leaves n (push_int fl z s)
  unfolding push_int push
  push_int-Fits_exact z s n y e f l h = ground arith

  pub push_int-Fits :
      (z : ℤ) (s : List F) (n : ℕ)
      → pos_part z ≤ 1024
      → neg_part z ≤ 1
      → suc (length s) ≡ n
      → All IsFinite s
      → Leaves n (push_int fl z s)
  push_int-Fits z s n p q e h =
      let (y, ey, fy, _) = of_int_small z p q in push_int-Fits_exact z s n y ey fy e h

  pub push_bool-Fits :
      (b : Bool) (s : List F) (n : ℕ)
      → suc (length s) ≡ n
      → All IsFinite s
      → Leaves n (push_bool fl b s)
  unfolding push_bool
  push_bool-Fits true s n e h = push_int-Fits (pos 1) s n (omega arith) (omega arith) e h
  push_bool-Fits false s n e h = push_int-Fits (pos 0) s n (omega arith) (omega arith) e h

  unary-Fits :
      (s : List F) (n : ℕ) (k : F → List F → Result Error (List F))
      → 1 ≤ length s
      → All IsFinite s
      → ((x : F) (t : List F)
          → suc (length t) ≡ length s
          → IsFinite x
          → All IsFinite t
          → Leaves n (k x t))
      → Leaves n (pop fl s >>= λ (x, t). k x t)
  unary-Fits [] n k le h f = absurd (omega arith)
  unary-Fits (x ∷ t) n k le h f = f x t refl h.0 h.1

  binary-Fits :
      (s : List F) (n : ℕ) (k : F → F → List F → Result Error (List F))
      → 2 ≤ length s
      → All IsFinite s
      → ((a b : F) (t : List F)
          → suc (suc (length t)) ≡ length s
          → IsFinite a
          → IsFinite b
          → All IsFinite t
          → Leaves n (k a b t))
      → Leaves n (pop_binary fl s >>= λ (a, b, t). k a b t)
  binary-Fits [] n k le h f = absurd (omega arith)
  binary-Fits (b ∷ []) n k le h f = absurd (omega arith)
  binary-Fits (b ∷ a ∷ t) n k le h f = f a b t refl h.1.0 h.0 h.1.1

  ternary-Fits :
      (s : List F) (n : ℕ) (k : F → F → F → List F → Result Error (List F))
      → 3 ≤ length s
      → All IsFinite s
      → ((c b a : F) (t : List F)
          → suc (suc (suc (length t))) ≡ length s
          → All IsFinite t
          → Leaves n (k c b a t))
      → Leaves n (pop_three fl s >>= λ (c, b, a, t). k c b a t)
  ternary-Fits [] n k le h f = absurd (omega arith)
  ternary-Fits (c ∷ []) n k le h f = absurd (omega arith)
  ternary-Fits (c ∷ b ∷ []) n k le h f = absurd (omega arith)
  ternary-Fits (c ∷ b ∷ a ∷ t) n k le h f = f c b a t refl h.1.1.1

  -- A guard that raises a data error, before what follows it.
  guard-Fits :
      (b : Bool) (e : Error) (n : ℕ) (r : Result Error (List F))
      → IsDataError e
      → Leaves n r
      → Leaves n (raise_if b e >> r)
  guard-Fits true e n r d h = d
  guard-Fits false e n r d h = h

  push_exact-Fits :
      (o : Option ℤ) (s : List F) (n : ℕ)
      → (z : ℤ) × (y : F) × (o ≡ some z) × (of_int z ≡ some y) × (is_finite y ≡ true)
      → suc (length s) ≡ n
      → All IsFinite s
      → Leaves n (to_int fl o >>= λ z. push_int fl z s)
  push_exact-Fits o s n (z, y, eo, ez, fy) l h = rw eo (push_int-Fits_exact z s n y ez fy l h)

  power-Fits :
      (a b : F) (s : List F) (n : ℕ)
      → suc (length s) ≡ n
      → All IsFinite s
      → Leaves n (power fl a b s)
  power-Fits a b s n e h = ground arith

  -- two values pushed, then the one below
  push_two-Fits :
      (x y : F) (s : List F) (n : ℕ)
      → suc (suc (length s)) ≡ n
      → All IsFinite s
      → Leaves n (push fl x s >>= λ t. push fl y t)
  push_two-Fits x y s n e h =
      Post-bind (Fits (suc (length s))) (Fits n) IsDataError (push fl x s) (push fl y)
        (push-Fits x s (suc (length s)) refl h) λ t ft. push-Fits y t n (omega arith) ft.1

  push_three-Fits :
      (x y z : F) (s : List F) (n : ℕ)
      → suc (suc (suc (length s))) ≡ n
      → All IsFinite s
      → Leaves n (push fl x s >>= λ t. push fl y t >>= λ u. push fl z u)
  push_three-Fits x y z s n e h =
      Post-bind (Fits (suc (length s))) (Fits n) IsDataError (push fl x s)
        (λ t. push fl y t >>= λ u. push fl z u) (push-Fits x s (suc (length s)) refl h)
        λ t ft. push_two-Fits y z t n (omega arith) ft.1

  sign-Fits :
      (x : F) (s : List F) (n : ℕ)
      → suc (length s) ≡ n
      → All IsFinite s
      → Leaves n (push_int fl (sign_of fl x) s)
  sign-Fits x s n e h = push_int-Fits (sign_of fl x) s n (ground arith) (ground arith) e h

  abbrev pub Within : ℕ → Option (Result Error (List F)) → Type 0
  Within n none = Unit
  Within n (some r) = Leaves n r

  -- An operation on the stack alone leaves as many values as its stack effect says.
  pub stack_op-Fits :
      (op : Op) (s : List F)
      → (stack_effect op).0 ≤ length s
      → length s ≤ 1024
      → All IsFinite s
      → Within (length s - (stack_effect op).0 + (stack_effect op).1) (stack_op fl op s)
  unfolding stack_op stack_effect
  stack_op-Fits Op.add s le m h =
      binary-Fits s _ _ le h λ a b t e fa fb ft. push-Fits _ t _ (omega arith) ft
  stack_op-Fits Op.sub s le m h =
      binary-Fits s _ _ le h λ a b t e fa fb ft. push-Fits _ t _ (omega arith) ft
  stack_op-Fits Op.mul s le m h =
      binary-Fits s _ _ le h λ a b t e fa fb ft. push-Fits _ t _ (omega arith) ft
  stack_op-Fits Op.min s le m h =
      binary-Fits s _ _ le h λ a b t e fa fb ft. push-Fits _ t _ (omega arith) ft
  stack_op-Fits Op.max s le m h =
      binary-Fits s _ _ le h λ a b t e fa fb ft. push-Fits _ t _ (omega arith) ft
  stack_op-Fits Op.gt s le m h =
      binary-Fits s _ _ le h λ a b t e fa fb ft. push_bool-Fits _ t _ (omega arith) ft
  stack_op-Fits Op.eq s le m h =
      binary-Fits s _ _ le h λ a b t e fa fb ft. push_bool-Fits _ t _ (omega arith) ft
  stack_op-Fits Op.ne s le m h =
      binary-Fits s _ _ le h λ a b t e fa fb ft. push_bool-Fits _ t _ (omega arith) ft
  stack_op-Fits Op.lt s le m h =
      binary-Fits s _ _ le h λ a b t e fa fb ft. push_bool-Fits _ t _ (omega arith) ft
  stack_op-Fits Op.lte s le m h =
      binary-Fits s _ _ le h λ a b t e fa fb ft. push_bool-Fits _ t _ (omega arith) ft
  stack_op-Fits Op.gte s le m h =
      binary-Fits s _ _ le h λ a b t e fa fb ft. push_bool-Fits _ t _ (omega arith) ft
  stack_op-Fits Op.and s le m h =
      binary-Fits s _ _ le h λ a b t e fa fb ft. push_bool-Fits _ t _ (omega arith) ft
  stack_op-Fits Op.or s le m h =
      binary-Fits s _ _ le h λ a b t e fa fb ft. push_bool-Fits _ t _ (omega arith) ft
  stack_op-Fits Op.xor s le m h =
      binary-Fits s _ _ le h λ a b t e fa fb ft. push_bool-Fits _ t _ (omega arith) ft
  stack_op-Fits Op.div s le m h =
      binary-Fits s _ _ le h
        λ a b t e fa fb ft. guard-Fits _ _ _ _ tt (push-Fits _ t _ (omega arith) ft)
  stack_op-Fits Op.modulo s le m h =
      binary-Fits s _ _ le h
        λ a b t e fa fb ft. guard-Fits _ _ _ _ tt (push-Fits _ t _ (omega arith) ft)
  stack_op-Fits Op.pow s le m h =
      binary-Fits s _ _ le h λ a b t e fa fb ft. power-Fits a b t _ (omega arith) ft
  stack_op-Fits Op.swap s le m h =
      binary-Fits s _ _ le h λ a b t e fa fb ft. push_two-Fits b a t _ (omega arith) ft
  stack_op-Fits Op.over s le m h =
      binary-Fits s _ _ le h λ a b t e fa fb ft. push_three-Fits a b a t _ (omega arith) ft
  stack_op-Fits Op.neg s le m h =
      unary-Fits s _ _ le h λ x t e fx ft. push-Fits _ t _ (omega arith) ft
  stack_op-Fits Op.abs s le m h =
      unary-Fits s _ _ le h λ x t e fx ft. push-Fits _ t _ (omega arith) ft
  stack_op-Fits Op.floor s le m h =
      unary-Fits s _ _ le h
        λ x t e fx ft. push_exact-Fits _ t _ (floor_finite x fx) (omega arith) ft
  stack_op-Fits Op.ceil s le m h =
      unary-Fits s _ _ le h λ x t e fx ft. push_exact-Fits _ t _ (ceil_finite x fx) (omega arith) ft
  stack_op-Fits Op.round s le m h =
      unary-Fits s _ _ le h
        λ x t e fx ft. push_exact-Fits _ t _ (round_finite x fx) (omega arith) ft
  stack_op-Fits Op.sqrt s le m h =
      unary-Fits s _ _ le h λ x t e fx ft. guard-Fits _ _ _ _ tt (push-Fits _ t _ (omega arith) ft)
  stack_op-Fits Op.not s le m h =
      unary-Fits s _ _ le h λ x t e fx ft. push_bool-Fits _ t _ (omega arith) ft
  stack_op-Fits Op.is_zero s le m h =
      unary-Fits s _ _ le h λ x t e fx ft. push_bool-Fits _ t _ (omega arith) ft
  stack_op-Fits Op.sign s le m h =
      unary-Fits s _ _ le h λ x t e fx ft. sign-Fits x t _ (omega arith) ft
  stack_op-Fits Op.dup s le m h =
      unary-Fits s _ _ le h λ x t e fx ft. push_two-Fits x x t _ (omega arith) ft
  stack_op-Fits Op.drop s le m h = unary-Fits s _ _ le h λ x t e fx ft. (omega arith, ft)
  stack_op-Fits Op.clamp s le m h =
      ternary-Fits s _ _ le h
        λ c b a t e ft. guard-Fits _ _ _ _ tt (push-Fits _ t _ (omega arith) ft)
  stack_op-Fits Op.between s le m h =
      ternary-Fits s _ _ le h
        λ c b a t e ft. guard-Fits _ _ _ _ tt (push_bool-Fits _ t _ (omega arith) ft)
  stack_op-Fits Op.select s le m h =
      ternary-Fits s _ _ le h λ c b a t e ft. push-Fits _ t _ (omega arith) ft
  stack_op-Fits Op.nop s le m h = (omega arith, h)
  stack_op-Fits Op.stack_depth s le m h = push_int-Fits _ s _ m (omega arith) (omega arith) h
  stack_op-Fits _ s le m h = tt
