-- ===== src/Events/Publish.antt =====
-- `publish` of the workers, and the loop that publishes the mutations of the graph, as in
-- services/claim-intelligence/worker.py and services/entity-resolution/worker.py.
use signalchord.Prelude.{String, some, List, [], ◌∷◌, Result, ok, err}
use signalchord.Kafka.World.{Exn, Broker, Action, ◌>>=◌, ◌>>◌, pure, raise, produce, flush}
use signalchord.Graph.Json.{Json, Fields}
use signalchord.Events.Values.{Runtime, as_text}
use signalchord.Events.Envelope.{Keyed, graph_topic, envelope}

-- what is computed, or the exception that it raises
abbrev pub lift : {V C B : Type 0} → Result Exn B → Action V C B
lift (ok b) = pure b
lift (err e) = raise e

module _ {A V C : Type 0} where
  module _ (rt : Runtime A V) (broker : Broker V) where
    open rt use {dumps, encode}

    unfoldable pub publish : String → Json A → Fields A → Action V C (Unit {0})
    publish topic key event = do
      k ← lift (as_text key)
      encoded ← lift (encode k)
      produce broker topic (some encoded) (dumps event)

    -- `for key, mutation in mutations: publish(...)`
    unfoldable pub publish_mutations :
        String → String → Json A → List (Keyed A) → Action V C (Unit {0})
    unfolding publish
    publish_mutations origin version source [] = pure tt
    publish_mutations origin version source ((key, mutation) ∷ mutations) = do
      event ←
          lift (envelope rt origin version source graph_topic key mutation "graph-mutation-build")
      publish graph_topic key event
      publish_mutations origin version source mutations

    -- `producer.flush(10)`, whose answer is dropped
    abbrev pub flush_all : Action V C (Unit {0})
    flush_all = do pending ← flush broker; pure tt
