-- ===== src/Events/Values.antt =====
-- Python's dict and str operations on JSON values, as the workers under services/ use them on
-- events, with the exceptions that they raise.
use Prim.Native.String.{String}
use signalchord.Prelude.{ℕ, ◌≡◌, true, false, Option, none, some, List, [], ◌∷◌, Result, ok, err}
use signalchord.Kafka.World.{Exn, Bytes}
use signalchord.Kafka.Envelope.{DlqEnvelope}
use signalchord.Graph.Json.{Json, text, object, other, Fields, nil, field, get, put}

-- Outside a worker: JSON, the clock, identifiers and text functions. `number` and `strings` are a
-- number and a list of str as JSON values;
-- `encode` raises on a lone surrogate.
pub record Runtime (A V : Type 0) : Type 0 where
  pub null : A
  pub number : ℕ → A
  pub strings : List String → A
  pub str_of : Json A → String
  pub str_of_text : (s : String) → str_of (text s) ≡ s
  pub loads : Option Bytes → Result Exn (Json A)
  pub dumps : Fields A → V
  pub dumps_envelope : DlqEnvelope (Json A) → V
  pub encode : String → Result Exn Bytes
  pub now : String
  pub fresh : String
  pub casefold : String → String
  pub hex_digest : String → String

abbrev pub key_error : String → Exn
key_error key = record { is_value_error = false; type_name = "KeyError"; text = key }

-- indexing, `|` or iterating something that is no dict
abbrev pub type_error : Exn
type_error = record { is_value_error = false; type_name = "TypeError"; text = "" }

-- `.get` or `.encode` on something that has none
abbrev pub attribute_error : Exn
attribute_error = record { is_value_error = false; type_name = "AttributeError"; text = "" }

abbrev pub value_error : String → Exn
value_error message = record { is_value_error = true; type_name = "ValueError"; text = message }

module _ {A : Type 0} where
  abbrev pub found : String → Option (Json A) → Result Exn (Json A)
  found key none = err (key_error key)
  found key (some v) = ok v

  -- `value[key]`
  abbrev pub item : String → Json A → Result Exn (Json A)
  item key (object d) = found key (get key d)
  item key (text s) = err type_error
  item key (other a) = err type_error

  abbrev pub or_default : Json A → Option (Json A) → Json A
  or_default default none = default
  or_default default (some v) = v

  -- `value.get(key, default)`
  abbrev pub get_item : String → Json A → Json A → Result Exn (Json A)
  get_item key default (object d) = ok (or_default default (get key d))
  get_item key default (text s) = err attribute_error
  get_item key default (other a) = err attribute_error

  abbrev pub dict : List (String × Json A) → Fields A
  dict [] = nil
  dict ((k, v) ∷ entries) = field k v (dict entries)

  -- `d | {...}` on dicts
  abbrev pub merge : Fields A → List (String × Json A) → Fields A
  merge d [] = d
  merge d ((k, v) ∷ entries) = merge (put k v d) entries

  -- `value | {...}`
  abbrev pub merge_item : Json A → List (String × Json A) → Result Exn (Fields A)
  merge_item (object d) entries = ok (merge d entries)
  merge_item (text s) entries = err type_error
  merge_item (other a) entries = err type_error

  -- a method of str
  abbrev pub as_text : Json A → Result Exn String
  as_text (text s) = ok s
  as_text (object d) = err attribute_error
  as_text (other a) = err attribute_error
