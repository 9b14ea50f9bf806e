-- ===== src/Events/Envelope.antt =====
-- `envelope`, which services/claim-intelligence/worker.py and
-- services/entity-resolution/worker.py hold each, up to the name of the worker.
use Prim.Native.String.{String, ◌++◌}
use signalchord.Prelude.{[], ◌∷◌, Result, ok, ◌>>=◌}
use signalchord.Kafka.World.{Exn}
use signalchord.Graph.Json.{Json, text, object, other, Fields}
use signalchord.Events.Values.{Runtime, item, get_item, dict}

abbrev pub graph_topic : String
graph_topic = "graph.mutation-requested.v1"

-- a key, which should be a str, and the dict that goes with it
abbrev pub Keyed : Type 0 → Type 0
Keyed A = Json A × Fields A

module _ {A V : Type 0} (rt : Runtime A V) where
  open rt use {number, str_of, now, fresh}

  -- the dict, once the four values of the source are read
  abbrev pub envelope_fields :
      String
      → String
      → Json A
      → Json A
      → Json A
      → Json A
      → String
      → Json A
      → Fields A
      → String
      → Fields A
  envelope_fields origin version tenant_id occurred_at correlation_id event_id event_type key
        payload stage =
      dict (
        ("event_id", text fresh)
        ∷ ("event_type", text event_type)
        ∷ ("schema_version", other (number 1))
        ∷ ("tenant_id", tenant_id)
        ∷ ("occurred_at", occurred_at)
        ∷ ("ingested_at", text now)
        ∷ ("correlation_id", correlation_id)
        ∷ ("causation_id", event_id)
        ∷ ("origin", text origin)
        ∷ ("processing_stage", text stage)
        ∷ ("idempotency_key", text (event_type ++ (":" ++ (str_of key ++ version))))
        ∷ ("payload", object payload)
        ∷ [])

  -- `version` ends the idempotency key
  unfoldable pub envelope :
      String → String → Json A → String → Json A → Fields A → String → Result Exn (Fields A)
  envelope origin version source event_type key payload stage = do
    tenant_id ← item "tenant_id" source
    occurred_at ← get_item "occurred_at" (text now) source
    correlation_id ← item "correlation_id" source
    event_id ← item "event_id" source
    ok (
        envelope_fields origin version tenant_id occurred_at correlation_id event_id event_type key
          payload stage)
