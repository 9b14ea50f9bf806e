-- ===== src/Prelude/Lists.antt =====
-- Lists measured and indexed by native numbers, under the library's names, and sorted lists.
use Prim.Native.Nat.{ℕ, zero, suc, ◌+◌, ◌<◌}
use mathlib.Core.Path.{◌≡◌, refl, ap}
use mathlib.Core.Bool.{Bool, true, false}
use mathlib.Core.List.{List, [], ◌∷◌, ◌++◌}
use mathlib.Core.Option.{Option, none, some}
use native.Mathlib.Omega.{arith}
use signalchord.Prelude.Tests.{if◌then◌else◌}

module _ {ℓ} {A : Type ℓ} where
  abbrev pub length : List A → ℕ
  length [] = 0
  length (x ∷ xs) = suc (length xs)

  abbrev pub get_elem? : List A → ℕ → Option A
  get_elem? [] i = none
  get_elem? (x ∷ xs) zero = some x
  get_elem? (x ∷ xs) (suc i) = get_elem? xs i

  -- A write out of bounds changes nothing.
  abbrev pub set : List A → ℕ → A → List A
  set [] i v = []
  set (x ∷ xs) zero v = v ∷ xs
  set (x ∷ xs) (suc i) v = x ∷ set xs i v

  abbrev pub replicate : ℕ → A → List A
  replicate zero a = []
  replicate (suc n) a = a ∷ replicate n a

  abbrev pub All {κ} : (A → Type κ) → List A → Type κ
  All P [] = Unit
  All P (x ∷ xs) = P x × All P xs

  pub length-append : (xs ys : List A) → length (xs ++ ys) ≡ length xs + length ys
  length-append [] ys = omega arith
  length-append (x ∷ xs) ys = omega (arith, length-append xs ys)

  pub length-set : (xs : List A) (i : ℕ) (v : A) → length (set xs i v) ≡ length xs
  length-set [] i v = refl
  length-set (x ∷ xs) zero v = refl
  length-set (x ∷ xs) (suc i) v = ap suc (length-set xs i v)

  pub All-append {κ} : (P : A → Type κ) (xs ys : List A) → All P xs → All P ys → All P (xs ++ ys)
  All-append P [] ys h k = k
  All-append P (x ∷ xs) ys h k = (h.0, All-append P xs ys h.1 k)

  pub All-set {κ} :
      (P : A → Type κ) (xs : List A) (i : ℕ) (v : A) → All P xs → P v → All P (set xs i v)
  All-set P [] i v h p = tt
  All-set P (x ∷ xs) zero v h p = (p, h.1)
  All-set P (x ∷ xs) (suc i) v h p = (h.0, All-set P xs i v h.1 p)

  pub get_elem?-total : (xs : List A) (i : ℕ) → i < length xs → (a : A) × (get_elem? xs i ≡ some a)
  get_elem?-total [] i h = elim h [ ]
  get_elem?-total (x ∷ xs) zero h = (x, refl)
  get_elem?-total (x ∷ xs) (suc i) h = get_elem?-total xs i (omega arith)

  -- `sorted`, by a strict order: insertion keeps equal items in their first order
  unfoldable pub insert_sorted : (A → A → Bool) → A → List A → List A
  insert_sorted ltb x [] = x ∷ []
  insert_sorted ltb x (y ∷ ys) = if ltb y x then y ∷ insert_sorted ltb x ys else x ∷ y ∷ ys

  unfoldable pub sorted : (A → A → Bool) → List A → List A
  unfolding insert_sorted
  sorted ltb [] = []
  sorted ltb (x ∷ xs) = insert_sorted ltb x (sorted ltb xs)

  either_cons :
      (b : Bool) (x : A) (xs : List A) (y : A) (ys : List A)
      → (z : A) × (zs : List A) × ((if b then x ∷ xs else y ∷ ys) ≡ z ∷ zs)
  either_cons true x xs y ys = (x, xs, refl)
  either_cons false x xs y ys = (y, ys, refl)

  insert_sorted-cons :
      (before : A → A → Bool) (x : A) (ys : List A)
      → (z : A) × (zs : List A) × (insert_sorted before x ys ≡ z ∷ zs)
  unfolding insert_sorted
  insert_sorted-cons before x [] = (x, [], refl)
  insert_sorted-cons before x (y ∷ ys) =
      either_cons (before y x) y (insert_sorted before x ys) x (y ∷ ys)

  pub sorted-nil : (before : A → A → Bool) (xs : List A) → sorted before xs ≡ [] → xs ≡ []
  unfolding sorted
  sorted-nil before [] h = refl
  sorted-nil before (x ∷ xs) h =
      let (z, zs, e) = insert_sorted-cons before x (sorted before xs) in cc
