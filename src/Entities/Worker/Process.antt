-- ===== src/Entities/Worker/Process.antt =====
-- services/entity-resolution/worker.py: handle_one_message.
use Prim.Native.String.{String, ◌++◌}
use signalchord.Prelude.{Bool, List, Option, none, some, Result, ok, err, ◌=ˢ◌, if◌then◌else◌}
use signalchord.Kafka.World.{Exn, Message, Broker, Action, ◌>>=◌, ◌>>◌}
use signalchord.Kafka.Envelope.{Codec}
use signalchord.Kafka.Poison.{handle_message}
use signalchord.Graph.Json.{Json, text, object, other, Fields}
use signalchord.Events.Values.{Runtime, item, type_error, dict}
use signalchord.Events.Envelope.{Keyed, envelope}
use signalchord.Events.Publish.{lift, publish, publish_mutations, flush_all}
use signalchord.Claims.Worker.Process.{plain_handler}
use signalchord.Entities.Resolve.{Resolved}
use signalchord.Entities.Worker.Mutations.{Resolver, resolve_fields, resolved_entries, graph_events}
use signalchord.Entities.Worker.Relations.{relation_graph_events}

-- `value == "..."`
abbrev pub is_text : {A : Type 0} → String → Json A → Bool
is_text s (text t) = t =ˢ s
is_text s (object d) = Bool.false
is_text s (other a) = Bool.false

-- `payload["mention_id"]` and the rest exist on an object only
abbrev pub fields_of : {A : Type 0} → Json A → Result Exn (Fields A)
fields_of (object d) = ok d
fields_of (text s) = err type_error
fields_of (other a) = err type_error

-- `f"{message.topic()}.dlq"`
abbrev pub dlq_of : Option String → String
dlq_of none = "None.dlq"
dlq_of (some topic) = topic ++ ".dlq"

abbrev pub origin : String
origin = "entity-resolution"

abbrev pub version : String
version = ":resolver:1.0.0"

module _ {A V F C : Type 0} (rt : Runtime A V) (rs : Resolver A F) (broker : Broker V) where
  unfoldable pub publish_resolved : Json A → Resolved (Json A) F → Action V C (Unit {0})
  unfolding publish
  publish_resolved source r = do
    event ← lift (
        envelope rt origin version source "entity.resolved.v1" (text r.entity_id)
          (dict (resolved_entries rt rs r)) "entity-resolution")
    publish rt broker "entity.resolved.v1" (text r.entity_id) event

  unfoldable pub resolve_one : Json A → Json A → Action V C (List (Keyed A))
  unfolding publish_resolved resolve_fields graph_events
  resolve_one source payload = do
    fields ← lift (fields_of payload)
    r ← lift (resolve_fields rt rs fields)
    publish_resolved source r
    lift (graph_events rt rs source r)

  unfoldable pub process : Message → Action V C (Unit {0})
  unfolding resolve_one relation_graph_events publish_mutations
  process message = do
    source ← lift (rt.loads message.value)
    event_type ← lift (item "event_type" source)
    payload ← lift (item "payload" source)
    mutations ←
        if is_text "entity.mention-extracted.v1" event_type
        then resolve_one source payload
        else lift (relation_graph_events rt rs source payload)
    publish_mutations rt broker origin version source mutations
    flush_all rt broker

  unfoldable pub handle_one_message : Codec → Message → Action V C (Unit {0})
  unfolding handle_message process
  handle_one_message codec message =
      handle_message codec broker rt.now (plain_handler rt origin (dlq_of message.topic)) message
        (process message)
