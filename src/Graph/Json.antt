-- ===== src/Graph/Json.antt =====
-- JSON values as Python has them after `json.loads`, and what services/graph-projector/worker.py
-- reads in them. The values that are neither text nor object are never looked into.
use signalchord.Prelude.{String, Option, none, some, ◌=ˢ◌, if◌then◌else◌, ◌≡◌, arith, eq_iff}

mutual
  pub data Json (A : Type 0) : Type 0 where
    text : String → Json A
    object : Fields A → Json A
    other : A → Json A

  -- a dict, in insertion order
  pub data Fields (A : Type 0) : Type 0 where
    nil : Fields A
    field : String → Json A → Fields A → Fields A

module _ {A : Type 0} where
  -- `d.get(key)`
  abbrev pub get : String → Fields A → Option (Json A)
  get key nil = none
  get key (field k v d) = if k =ˢ key then some v else get key d

  -- `d[key] = value`
  abbrev pub put : String → Json A → Fields A → Fields A
  put key value nil = field key value nil
  put key value (field k v d) = if k =ˢ key then field k value d else field k v (put key value d)

  pub get-put_self :
      (key : String) (value : Json A) (d : Fields A) → get key (put key value d) ≡ some value
  get-put_self key value nil = ground (arith, eq_iff key key)
  get-put_self key value (field k v d) = ground (arith, eq_iff k key, get-put_self key value d)
