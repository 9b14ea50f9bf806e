-- ===== src/Events/Tests.antt =====
-- A concrete runtime and events for the workers under services/.
use Prim.Native.String.{String}
use signalchord.Prelude.{
  ℕ, ◌≡◌, refl, sym, ap, ◌∙◌, true, Bool-cases, inl, inr, Option, none, List, [], ◌∷◌, Result, ok,
  err, ◌=ˢ◌, eq_iff,
}
use mathlib.Core.Bool.{false≢true}
use signalchord.Kafka.World.{Exn, World}
use signalchord.Kafka.Tests.{sample}
use signalchord.Kafka.Loop.{Poll, nothing, received}
use signalchord.Graph.Json.{Json, text, object, other}
use signalchord.Graph.Letters.{has_letter}
use signalchord.Graph.Contract.{IsVisible}
use signalchord.Events.Values.{Runtime, dict}

abbrev pub Value : Type 0
Value = Json (Unit {0})

abbrev pub no_strip : String → String
no_strip s = s

abbrev pub no_json : String → Option Value
no_json s = none

abbrev text_of : Value → String
text_of (text s) = s
text_of (object d) = "{}"
text_of (other a) = "None"

-- every message is the given event
abbrev pub runtime : Value → Runtime (Unit {0}) ℕ
runtime event = record {
  null = tt;
  number = λ n. tt;
  strings = λ xs. tt;
  str_of = text_of;
  str_of_text = λ s. refl;
  loads = λ raw. ok event;
  dumps = λ d. 1;
  dumps_envelope = λ e. 2;
  encode = λ s. ok [];
  now = "now";
  fresh = "id";
  casefold = λ s. s;
  hex_digest = λ s. "ab";
}

abbrev pub source_of : Value → Value
source_of payload = object (
    dict (
      ("tenant_id", text "acme")
      ∷ ("event_id", text "e1")
      ∷ ("correlation_id", text "r1")
      ∷ ("event_type", text "entity.mention-extracted.v1")
      ∷ ("payload", payload)
      ∷ []))

abbrev pub evidence : Value
evidence = object (
    dict (
      ("evidence_id", text "ev:d1:0:4")
      ∷ ("start_offset", other tt)
      ∷ ("end_offset", other tt)
      ∷ ("span_hash", text "ab")
      ∷ []))

-- the value, or nothing if there is an exception
abbrev pub value_of : {B : Type 0} → Result Exn (List B) → List B
value_of (ok b) = b
value_of (err e) = []

abbrev pub idle : World ℕ (Unit {0})
idle = record { log = []; cell = tt }

abbrev pub sample_polls : List Poll
sample_polls = received sample ∷ nothing ∷ received sample ∷ []

pub visible : (s : String) → has_letter s ≡ true → IsVisible no_strip no_json s
visible s h = elim (Bool-cases (s =ˢ "")) [
  | inl e ↦ absurd (false≢true (sym (ap has_letter ((eq_iff s "").0 e)) ∙ h))
  | inr e ↦ e
]
