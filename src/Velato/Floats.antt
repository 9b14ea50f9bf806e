-- ===== src/Velato/Floats.antt =====
-- Python's floats, as the engine uses them: a parameter of the model, since the language of the
-- proofs has no floating point. The laws are what the engine's code relies on.
use signalchord.Prelude.{◌≤◌, ◌≡◌, Bool, true, Option, some}
use signalchord.Prelude.Int.{ℤ, pos_part, neg_part}

pub record Floats : Type 1 where
  pub F : Type 0
  -- 0.0, and `float(z)`, which raises OverflowError on an int that is too large
  pub zero_float : F
  pub of_int : ℤ → Option F
  pub is_finite : F → Bool
  pub fl_eq : F → F → Bool
  pub fl_lt : F → F → Bool
  pub fl_le : F → F → Bool
  pub fl_add : F → F → F
  pub fl_sub : F → F → F
  pub fl_mul : F → F → F
  pub fl_div : F → F → F
  pub fl_mod : F → F → F
  -- `math.pow`, which raises OverflowError or ValueError
  pub fl_pow : F → F → Option F
  pub fl_neg : F → F
  pub fl_abs : F → F
  pub fl_sqrt : F → F
  -- `floor`, `ceil` and `round`, which raise on an infinity and on a NaN
  pub fl_floor : F → Option ℤ
  pub fl_ceil : F → Option ℤ
  pub fl_round : F → Option ℤ
  -- the int that a float is equal to: `is_integer` with `int`
  pub as_int : F → Option ℤ
  pub zero_finite : is_finite zero_float ≡ true
  -- the ints that the engine itself pushes are exact
  pub of_int_small :
      (z : ℤ)
      → pos_part z ≤ 1024
      → neg_part z ≤ 1
      → (y : F) × (of_int z ≡ some y) × (is_finite y ≡ true) × (as_int y ≡ some z)
  -- and no other int becomes the float of one of them
  pub as_int_small :
      (z w : ℤ) (x : F)
      → of_int z ≡ some x
      → as_int x ≡ some w
      → pos_part w ≤ 1024
      → neg_part w ≤ 1
      → w ≡ z
  -- a finite float rounds to an int, which is a finite float again
  pub floor_finite :
      (x : F)
      → is_finite x ≡ true
      → (z : ℤ) × (y : F) × (fl_floor x ≡ some z) × (of_int z ≡ some y) × (is_finite y ≡ true)
  pub ceil_finite :
      (x : F)
      → is_finite x ≡ true
      → (z : ℤ) × (y : F) × (fl_ceil x ≡ some z) × (of_int z ≡ some y) × (is_finite y ≡ true)
  pub round_finite :
      (x : F)
      → is_finite x ≡ true
      → (z : ℤ) × (y : F) × (fl_round x ≡ some z) × (of_int z ≡ some y) × (is_finite y ≡ true)
