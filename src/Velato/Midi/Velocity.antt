-- ===== src/Velato/Midi/Velocity.antt =====
-- The velocities of _encode_velocity and the places of operations in the banks
-- (services/velato-engine/engine.py).
use signalchord.Prelude.{
  ℕ, suc, ◌+◌, ◌≤◌, ◌<◌, ◌≡◌, refl, sym, ◌∙◌, ap, false, ◌||◌, Option, none, some, String, List, [],
  ◌∷◌, ok, length, get_elem?, ok_injective, Option-cases, inl, inr, ltb, leb, ◌=ˢ◌, eq_iff,
  if◌then◌else◌, arith, Bool-cases,
}
use signalchord.Prelude.Int.{ℤ, pos, negsuc, sub_ℕ, leb_ℤ, ltb_ℤ}
use signalchord.Velato.Ops.{Op, Operand, operand, op_encoding, inputs, instruction_banks}
use signalchord.Velato.Ir.{Arg, instruction}
use signalchord.Velato.Floats.{Floats}
use signalchord.Velato.Analysis.{validate_instruction}
use signalchord.Velato.Compile.{decode_operand, interval_of}
use signalchord.Velato.Midi.{encode_velocity, index_of}

pub ltb-of_le : (a b : ℕ) → b ≤ a → ltb a b ≡ false
ltb-of_le a b h = ground arith

op_at : List (List Op) → ℕ → ℕ → Option Op
op_at banks bank interval = elim (get_elem? banks bank) [
  | none ↦ none
  | some ops ↦ if leb interval 11 then get_elem? ops interval else none
]

at_place : Option (ℕ × ℕ) → Option Op
unfolding op_at
at_place none = none
at_place (some (bank, interval)) = op_at instruction_banks bank interval

-- OP_ENCODING inverts INSTRUCTION_BANKS, for each of the 48 operations.
at_place-op_encoding : (op : Op) → at_place (op_encoding op) ≡ some op
unfolding at_place op_encoding
at_place-op_encoding Op.halt = refl
at_place-op_encoding _ = refl

-- where a bank holds an operation
pub record Holds (banks : List (List Op)) (bank interval : ℕ) (op : Op) : Type 0 where
  pub ops : List Op
  pub bank_at : get_elem? banks bank ≡ some ops
  pub interval_le : interval ≤ 11
  pub op_in : get_elem? ops interval ≡ some op

op_at-Holds :
    (banks : List (List Op)) (bank interval : ℕ) (op : Op)
    → op_at banks bank interval ≡ some op
    → Holds banks bank interval op
op_at-Holds banks bank interval op h = elim (Option-cases (get_elem? banks bank)) [
  | inl missing ↦ absurd (unfold op_at in ground arith)
  | inr (ops, e) ↦ record {
    ops = ops;
    bank_at = e;
    interval_le = unfold op_at in ground arith;
    op_in = unfold op_at in ground arith;
  }
]

pub op_encoding-Holds :
    (op : Op)
    → (bank : ℕ) × (interval : ℕ) × (op_encoding op ≡ some (bank, interval))
      × Holds instruction_banks bank interval op
op_encoding-Holds op = elim (Option-cases (op_encoding op)) [
  | inl missing ↦ absurd (none-ne-some (sym (ap at_place missing) ∙ at_place-op_encoding op))
  | inr ((bank, interval), e) ↦ (
    bank,
    interval,
    e,
    op_at-Holds instruction_banks bank interval op
        (unfold at_place in sym (ap at_place e) ∙ at_place-op_encoding op),
  )
]
  where
    none-ne-some : at_place none ≡ some op → ⊥
    none-ne-some h = unfold at_place in cc

index_of-get :
    (name : String) (xs : List String) (k : ℕ)
    → index_of name xs ≡ some k
    → (get_elem? xs k ≡ some name) × (k < length xs)
unfolding index_of
index_of-get name [] k h = cc
index_of-get name (x ∷ xs) k h = elim (Bool-cases (x =ˢ name)) [
  | inl same ↦ ground (arith, eq_iff x name)
  | inr differs ↦ elim (Option-cases (index_of name xs)) [
    | inl missing ↦ ground arith
    | inr (j, e) ↦ ground (arith, index_of-get name xs j e)
  ]
]

-- the interval of a note is found again, above any root
pub interval-root :
    (root interval : ℕ) → interval ≤ 11 → interval_of root (root + interval) ≡ interval
unfolding interval_of
interval-root root interval h = omega arith

suc_sub_one : (k : ℕ) → sub_ℕ (suc k) 1 ≡ pos k
suc_sub_one k = ground arith

index_in_range : (k n : ℕ) → k < n → (ltb_ℤ (pos k) (pos 0) || leb_ℤ (pos n) (pos k)) ≡ false
index_in_range k n h = ground arith

-- The notes carry integer constants: a float constant would come back as an int.
abbrev pub IsExact : {F : Type 0} → Arg F → Type 0
IsExact (Arg.float_arg x) = ⊥
IsExact _ = Unit

module _ (fl : Floats) where
  open fl use {F, of_int, as_int, as_int_small}

  -- a velocity that MIDI can hold, and that stands for the operand
  abbrev pub Carries : Op → Arg F → ℕ → Type 0
  Carries op arg velocity =
      (1 ≤ velocity) × (velocity ≤ 127) × (decode_operand fl op velocity ≡ ok arg)

  constant-Carries :
      (z : ℤ) (velocity : ℕ)
      → encode_velocity fl (instruction Op.push_const (Arg.int_arg z)) ≡ ok velocity
      → Carries Op.push_const (Arg.int_arg z) velocity
  unfolding encode_velocity decode_operand
  constant-Carries z velocity h = elim (Option-cases (of_int z)) [
    | inl huge ↦ ground arith
    | inr (x, ex) ↦ elim (Option-cases (as_int x)) [
      | inl fraction ↦ ground arith
      | inr (pos w, ew) ↦ ground (arith, as_int_small z (pos w) x)
      | inr (negsuc w, ew) ↦ ground arith
    ]
  ]

  decode_input :
      (name : String) (k : ℕ)
      → k < length inputs
      → get_elem? inputs k ≡ some name
      → decode_operand fl Op.load_input (suc k) ≡ ok (Arg.str_arg name)
  unfolding decode_operand
  decode_input name k le e = rw (suc_sub_one k, index_in_range k (length inputs) le, e)

  input-Carries :
      (name : String) (velocity : ℕ)
      → encode_velocity fl (instruction Op.load_input (Arg.str_arg name)) ≡ ok velocity
      → Carries Op.load_input (Arg.str_arg name) velocity
  unfolding encode_velocity
  input-Carries name velocity h = elim (Option-cases (index_of name inputs)) [
    | inl missing ↦ cc (rw missing at h)
    | inr (k, e) ↦
        let v = ok_injective _ velocity (rw e at h) in
        let (at, le) = index_of-get name inputs k e in
        (
          omega (arith, v),
          omega (arith, v, le),
          ap (decode_operand fl Op.load_input) (omega (arith, v)) ∙ decode_input name k le at,
        )
  ]

  local-Carries :
      (op : Op) (z : ℤ) (velocity : ℕ)
      → operand op ≡ Operand.local_operand
      → encode_velocity fl (instruction op (Arg.int_arg z)) ≡ ok velocity
      → Carries op (Arg.int_arg z) velocity
  unfolding encode_velocity decode_operand
  local-Carries op (pos n) velocity k h = ground arith
  local-Carries op (negsuc n) velocity k h = ground arith

  -- The velocity of a valid instruction with an exact operand stands for that operand.
  pub velocity-Carries :
      (op : Op) (arg : Arg F) (velocity : ℕ)
      → validate_instruction fl (instruction op arg) ≡ ok tt
      → IsExact arg
      → encode_velocity fl (instruction op arg) ≡ ok velocity
      → Carries op arg velocity
  unfolding validate_instruction encode_velocity decode_operand
  velocity-Carries Op.push_const (Arg.int_arg z) velocity v x h = constant-Carries z velocity h
  velocity-Carries Op.push_const (Arg.float_arg y) velocity v x h = absurd x
  velocity-Carries Op.load_input (Arg.str_arg name) velocity v x h = input-Carries name velocity h
  velocity-Carries Op.load_local (Arg.int_arg z) velocity v x h =
      local-Carries Op.load_local z velocity refl h
  velocity-Carries Op.store_local (Arg.int_arg z) velocity v x h =
      local-Carries Op.store_local z velocity refl h
  velocity-Carries Op.halt Arg.absent velocity v x h = ground arith
  velocity-Carries Op.push_const _ velocity v x h = cc
  velocity-Carries Op.load_input _ velocity v x h = cc
  velocity-Carries Op.load_local _ velocity v x h = cc
  velocity-Carries Op.store_local _ velocity v x h = cc
  velocity-Carries _ Arg.absent velocity v x h = ground arith
  velocity-Carries _ _ velocity v x h = cc
