-- ===== src/Graph/Projector.antt =====
-- services/graph-projector/worker.py: completion_event, publish and handle_one_message.
use Prim.Native.String.{String, ◌++◌}
use signalchord.Prelude.{Option, none, some, List, [], ◌∷◌, Result, ok, err, true, false}
use signalchord.Prelude
use signalchord.Kafka.World.{
  Exn, Bytes, Message, Broker, Action, ◌>>=◌, ◌>>◌, raise, pure, produce, flush,
}
use signalchord.Kafka.Envelope.{Codec, DlqEnvelope}
use signalchord.Kafka.Poison.{Handler, handle_message}
use signalchord.Events.Publish.{lift}
use signalchord.Graph.Json.{Json, text, object, other, Fields, nil, field, get}
use signalchord.Graph.Statement.{PermanentMutationError, Statement, parse_event, build_statement}

abbrev pub input_topic : String
input_topic = "graph.mutation-requested.v1"

abbrev pub completed_topic : String
completed_topic = "graph.mutation-completed.v1"

abbrev pub dlq_topic : String
dlq_topic = input_topic ++ ".dlq"

-- What handle_one_message shares with its closures, and the statements that the database has
-- applied.
pub record Projector (A : Type 0) : Type 0 where
  pub source : Option (Fields A)
  pub written : List (Statement A)

-- Outside the worker: JSON, texts (`encode` raises on a lone surrogate), the clock, fresh identifiers and the driver of the database,
-- whose transaction may raise instead of applying a statement.
pub record Platform (A V : Type 0) : Type 0 where
  pub null : A
  pub one : A
  pub strip : String → String
  pub loads : Option Bytes → Option (Json A)
  pub dumps : Fields A → V
  pub dumps_envelope : DlqEnvelope (Json A) → V
  pub str_of : Json A → String
  pub encode : String → Result Exn Bytes
  pub now : String
  pub fresh : String
  pub write_raises : List (Statement A) → Statement A → Option Exn

abbrev pub permanent : PermanentMutationError → Exn
permanent e = record { is_value_error = true; type_name = "PermanentMutationError"; text = "" }

abbrev pub no_stable_id : Exn
no_stable_id = record { is_value_error = false; type_name = "KeyError"; text = "'stable_id'" }

module _ {A V : Type 0} (platform : Platform A V) (broker : Broker V) where
  open platform use {null, one, strip, loads, dumps, dumps_envelope, str_of, encode, now, fresh}

  abbrev get_or : Json A → Option (Json A) → Json A
  get_or default none = default
  get_or default (some value) = value

  unfoldable pub completion_event : Fields A → String → Fields A
  completion_event source stable_id = field "event_id" (text fresh) (
      field "event_type" (text completed_topic) (
        field "schema_version" (other one) (
          field "tenant_id" (get_or (other null) (get "tenant_id" source)) (
            field "occurred_at" (get_or (text now) (get "occurred_at" source)) (
              field "ingested_at" (text now) (
                field "correlation_id" (get_or (other null) (get "correlation_id" source)) (
                  field "causation_id" (get_or (other null) (get "event_id" source)) (
                    field "origin" (text "graph-projector") (
                      field "processing_stage" (text "graph-write-completed") (
                        field "idempotency_key" (text (completed_topic ++ (":" ++ stable_id))) (
                          field "payload"
                            (object (
                              field "stable_id" (text stable_id)
                                (field "status" (text "applied") nil)))
                            nil)))))))))))

  abbrev pub raising :
      {B : Type 0} → Prelude.Result PermanentMutationError B → Action V (Projector A) B
  raising (ok b) = pure b
  raising (err e) = raise (permanent e)

  -- `state["source"] = source`
  abbrev pub remember : Fields A → Action V (Projector A) (Unit {0})
  remember source w = (ok tt, record w { cell = record (w.cell) { source = some source } })

  abbrev pub applied : Option Exn → Statement A → Action V (Projector A) (Unit {0})
  applied (some e) statement w = (err e, w)
  applied none statement w = (
    ok tt,
    record w { cell = record (w.cell) { written = Prelude.◌++◌ w.cell.written (statement ∷ []) } },
  )

  -- `session.execute_write(...)`
  abbrev pub execute_write : Statement A → Action V (Projector A) (Unit {0})
  execute_write statement w = applied (platform.write_raises w.cell.written statement) statement w

  -- `statement.parameters["stable_id"]`, which `publish` encodes
  abbrev pub stable_id_of : Option (Json A) → Action V (Projector A) String
  stable_id_of (some (text s)) = pure s
  stable_id_of _ = raise no_stable_id

  abbrev pub publish : String → String → Fields A → Action V (Projector A) (Unit {0})
  publish topic key value = do
    encoded ← lift (encode key)
    produce broker topic (some encoded) (dumps value)

  unfoldable pub announce : Fields A → String → Action V (Projector A) (Unit {0})
  unfolding completion_event
  announce source stable_id = do
    publish completed_topic stable_id (completion_event source stable_id)
    pending ← flush broker
    pure tt

  unfoldable pub apply_statement : Fields A → Statement A → Action V (Projector A) (Unit {0})
  unfolding announce
  apply_statement source statement = do
    execute_write statement
    stable_id ← stable_id_of (get "stable_id" statement.parameters)
    announce source stable_id

  unfoldable pub process_source : Fields A → Action V (Projector A) (Unit {0})
  unfolding build_statement apply_statement
  process_source source = do
    remember source
    statement ← raising (build_statement strip loads source)
    apply_statement source statement

  unfoldable pub process : Message → Action V (Projector A) (Unit {0})
  unfolding parse_event process_source
  process message = do
    source ← raising (parse_event strip loads message.value)
    process_source source

  -- `state["source"] or {...}`: an empty object counts as none
  abbrev pub failed_source : Option (Fields A) → Fields A
  failed_source none = field "event_id" (text "invalid") (field "payload" (object nil) nil)
  failed_source (some nil) = field "event_id" (text "invalid") (field "payload" (object nil) nil)
  failed_source (some (field k v d)) = field k v d

  abbrev fields_of : Option (Json A) → Fields A
  fields_of (some (object d)) = d
  fields_of _ = nil

  abbrev pub dlq_key : Fields A → Result Exn Bytes
  dlq_key source = encode (
      str_of (
        get_or (get_or (text "invalid") (get "event_id" source))
          (get "stable_id" (fields_of (get "payload" source)))))

  abbrev key_or_raise : Result Exn Bytes → Result Exn (Option Bytes)
  key_or_raise (ok key) = ok (some key)
  key_or_raise (err e) = err e

  abbrev text_or_null : Option String → Json A
  text_or_null none = other null
  text_or_null (some s) = text s

  abbrev pub handler : Handler V (Projector A) (Json A)
  handler = record {
    origin = "graph-projector";
    dlq_topic = dlq_topic;
    failed_event = some (λ c. ok (some (object (failed_source c.source))));
    dlq_key = some (λ c. key_or_raise (dlq_key (failed_source c.source)));
    of_text = text_or_null;
    body = dumps_envelope;
  }

  -- a new `state` for each message
  abbrev pub forget : Action V (Projector A) (Unit {0})
  forget w = (ok tt, record w { cell = record (w.cell) { source = none } })

  unfoldable pub handle_one_message : Codec → Message → Action V (Projector A) (Unit {0})
  unfolding handle_message process
  handle_one_message codec message = do
    forget
    handle_message codec broker now handler message (process message)
